-- ===== src/RwLock/Invariant.antt =====
-- What holds of the lock in every reachable state of RwLock.System.
use c_lang_coding_projects.Prelude.{ℕ, ◌+◌, ◌<◌, ◌≤◌, ◌≡◌, refl, sym, ◌⊎◌, inl, arith}
use c_lang_coding_projects.RwLock.{
  Priority, RwState, rwlock_new, reader_enter, reader_blocked, reader_acquire, reader_unlock,
  writer_enter, writer_blocked, writer_acquire, writer_unlock,
}
use c_lang_coding_projects.Threads.{assign, count, count-assign, count_none}
use c_lang_coding_projects.RwLock.System.{
  Phase, idle, read_wait, reading, write_wait, writing, Act, read_at_once, read_later, read_again,
  read_wake, read_done, write_at_once, write_later, write_again, write_wake, write_done, System,
  Step, pick, Reach, start, later,
}

abbrev pub is_reading : Phase → ℕ
is_reading reading = 1
is_reading _ = 0

abbrev pub is_writing : Phase → ℕ
is_writing writing = 1
is_writing _ = 0

abbrev pub awaits_read : Phase → ℕ
awaits_read read_wait = 1
awaits_read _ = 0

abbrev pub awaits_write : Phase → ℕ
awaits_write write_wait = 1
awaits_write _ = 0

-- The four counters count the threads in the four phases; a writer is alone; with `N_WAY` no more
-- readers than `N` have passed a waiting writer.
pub record Inv (n : ℕ) (p : Priority) (k : ℕ) (rw : RwState) (f : ℕ → Phase) : Type 0 where
  pub priority : rw.priority ≡ p
  pub limit : rw.limit ≤ k
  pub readers : rw.active_readers ≡ count is_reading n f
  pub writers : rw.active_writers ≡ count is_writing n f
  pub read_waits : rw.waiting_readers ≡ count awaits_read n f
  pub write_waits : rw.waiting_writers ≡ count awaits_write n f
  pub one_writer : rw.active_writers ≤ 1
  pub alone : (rw.active_writers ≡ 0) ⊎ (rw.active_readers ≡ 0)
  pub quota : rw.readers_since_last_write ≤ k

-- The counts of a state in which thread `i` goes from phase `a` to phase `b`.
record Shift (n : ℕ) (f : ℕ → Phase) (i : ℕ) (a b : Phase) : Type 0 where
  readers : count is_reading n (assign f i b) + is_reading a ≡ count is_reading n f + is_reading b
  writers : count is_writing n (assign f i b) + is_writing a ≡ count is_writing n f + is_writing b
  read_waits :
      count awaits_read n (assign f i b) + awaits_read a ≡ count awaits_read n f + awaits_read b
  write_waits :
      count awaits_write n (assign f i b) + awaits_write a ≡ count awaits_write n f + awaits_write b

shift : (n : ℕ) (f : ℕ → Phase) (i : ℕ) (b : Phase) → i < n → Shift n f i (f i) b
shift n f i b lt = record {
  readers = count-assign is_reading n f i b lt;
  writers = count-assign is_writing n f i b lt;
  read_waits = count-assign awaits_read n f i b lt;
  write_waits = count-assign awaits_write n f i b lt;
}

module _ {n : ℕ} {p : Priority} {k : ℕ} {rw : RwState} {f : ℕ → Phase} (inv : Inv n p k rw f)
    (i : ℕ) where
  Act-Inv :
      {a b : Phase} {rw' : RwState}
      → Act rw a rw' b
      → Shift n f i a b
      → Inv n p k rw' (assign f i b)
  unfolding reader_enter reader_blocked reader_acquire reader_unlock writer_enter writer_blocked
      writer_acquire writer_unlock
  Act-Inv (read_at_once e) s = ground (arith, e)
  Act-Inv (read_later e) s = ground (arith, e)
  Act-Inv (read_again e) s = ground (arith, e)
  Act-Inv (read_wake e) s = ground (arith, e)
  Act-Inv read_done s = ground arith
  Act-Inv (write_at_once e) s = ground (arith, e)
  Act-Inv (write_later e) s = ground (arith, e)
  Act-Inv (write_again e) s = ground (arith, e)
  Act-Inv (write_wake e) s = ground (arith, e)
  Act-Inv write_done s = ground arith

Inv-init : (n : ℕ) (p : Priority) (k : ℕ) → Inv n p k (rwlock_new p k) (λ i. idle)
unfolding rwlock_new
Inv-init n p k = record {
  priority = refl;
  limit = ground arith;
  readers = sym (count_none is_reading n idle refl);
  writers = sym (count_none is_writing n idle refl);
  read_waits = sym (count_none awaits_read n idle refl);
  write_waits = sym (count_none awaits_write n idle refl);
  one_writer = omega arith;
  alone = inl refl;
  quota = omega arith;
}

pub Step-Inv :
    {n : ℕ} {p : Priority} {k : ℕ} {s t : System}
    → Step n s t
    → Inv n p k s.lock s.phase
    → Inv n p k t.lock t.phase
Step-Inv {n} {s} (pick i {p = q} lt act) inv = Act-Inv inv i act (shift n s.phase i q lt)

pub Reach-Inv :
    {n : ℕ} {p : Priority} {k : ℕ} {s : System} → Reach n p k s → Inv n p k s.lock s.phase
Reach-Inv {n} {p} {k} start = Inv-init n p k
Reach-Inv (later r st) = Step-Inv st (Reach-Inv r)
