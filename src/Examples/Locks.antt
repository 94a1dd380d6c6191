-- ===== src/Examples/Locks.antt =====
-- Concrete states of the lock of Concurrent Data Structures/rwlock.c.
use c_lang_coding_projects.Prelude.{ℕ, ◌<◌, ◌≤◌, ◌≡◌, ◌≢◌, ◌⊎◌, inr, refl, arith, true, false}
use c_lang_coding_projects.RwLock.{
  writers, n_way, broadcasts, rwlock_new, reader_enter, reader_blocked, reader_acquire,
  reader_unlock, writer_enter, writer_blocked, writer_acquire,
}
use c_lang_coding_projects.Threads.{assign, count}
use c_lang_coding_projects.RwLock.System.{
  idle, read_wait, reading, write_wait, writing, Act, read_done, write_at_once, write_later,
  read_at_once, System, pick, Reach, start, later,
}
use c_lang_coding_projects.RwLock.Invariant.{is_reading, is_writing, awaits_read, awaits_write}
use c_lang_coding_projects.RwLock.Safety.{mutual_exclusion, counters_lem}
use c_lang_coding_projects.RwLock.Progress.{held, no_deadlock, no_lost_wakeup}

-- Thread 0 of two has the lock for writing.
abbrev one_writes : System
one_writes = record {
  lock = writer_acquire (writer_enter (rwlock_new n_way 3));
  phase = assign (λ i. idle) 0 writing;
}

one_writes-Reach : Reach 2 n_way 3 one_writes
unfolding rwlock_new writer_enter writer_blocked
one_writes-Reach = later start (pick 0 (omega arith) (write_at_once refl))

zero_writes : one_writes.phase 0 ≡ writing
unfolding assign
zero_writes = refl

mutual_exclusion_example :
    (one_writes.phase 1 ≢ reading) × (one_writes.phase 1 ≡ writing → ◌≡◌ {A = ℕ} 0 1)
mutual_exclusion_example =
    mutual_exclusion one_writes-Reach 0 1 (omega arith) (omega arith) zero_writes

counters_lem_example :
    (one_writes.lock.readers_since_last_write ≤ 3)
    × (one_writes.lock.active_readers ≡ count is_reading 2 one_writes.phase)
    × (one_writes.lock.active_writers ≡ count is_writing 2 one_writes.phase)
    × (one_writes.lock.waiting_readers ≡ count awaits_read 2 one_writes.phase)
    × (one_writes.lock.waiting_writers ≡ count awaits_write 2 one_writes.phase)
counters_lem_example = counters_lem one_writes-Reach

-- Thread 0 reads, and thread 1 waits to write.
abbrev one_reads : System
one_reads = record {
  lock = reader_acquire (reader_enter (rwlock_new writers 3));
  phase = assign (λ i. idle) 0 reading;
}

abbrev one_awaits : System
one_awaits = record {
  lock = writer_enter one_reads.lock;
  phase = assign one_reads.phase 1 write_wait;
}

one_awaits-Reach : Reach 2 writers 3 one_awaits
unfolding rwlock_new reader_enter reader_blocked reader_acquire writer_enter writer_blocked assign
one_awaits-Reach =
    later (later start (pick 0 (omega arith) (read_at_once refl)))
      (pick 1 (omega arith) (write_later refl))

zero_done : Act one_awaits.lock (one_awaits.phase 0) (reader_unlock one_awaits.lock) idle
unfolding assign
zero_done = read_done

one_held : held (one_awaits.phase 1) one_awaits.lock ≡ true
unfolding rwlock_new reader_enter reader_acquire writer_enter writer_blocked assign
one_held = refl

one_passes : held (one_awaits.phase 1) (reader_unlock one_awaits.lock) ≡ false
unfolding rwlock_new reader_enter reader_acquire writer_enter writer_blocked reader_unlock assign
one_passes = refl

no_lost_wakeup_example :
    ((one_awaits.phase 0 ≡ reading) ⊎ (one_awaits.phase 0 ≡ writing))
    × (broadcasts (reader_unlock one_awaits.lock) ≡ true)
no_lost_wakeup_example =
    no_lost_wakeup one_awaits-Reach 0 zero_done 1 (omega arith) one_held one_passes

-- Thread 0 has given the lock back, and thread 1 has not yet tested again.
abbrev one_left : System
one_left = record { lock = reader_unlock one_awaits.lock; phase = assign one_awaits.phase 0 idle }

one_left-Reach : Reach 2 writers 3 one_left
one_left-Reach = later one_awaits-Reach (pick 0 (omega arith) zero_done)

left_waits : one_left.phase 1 ≡ write_wait
unfolding assign
left_waits = refl

left_free : (i : ℕ) → i < 2 → (one_left.phase i ≢ reading) × (one_left.phase i ≢ writing)
unfolding assign
left_free i lt = ground arith

no_deadlock_example :
    (i : ℕ) × (i < 2)
    × ((one_left.phase i ≡ read_wait) ⊎ (one_left.phase i ≡ write_wait))
    × (held (one_left.phase i) one_left.lock ≡ false)
no_deadlock_example = no_deadlock one_left-Reach left_free 1 (omega arith) (inr left_waits)
