-- ===== src/RwLock/System.antt =====
-- Threads that call the functions of rwlock.c in any order. The mutex makes a call one step, but for
-- the wait: `pthread_cond_wait` gives the mutex up, and a waiting thread may wake at any time and
-- test again, as POSIX allows.
use c_lang_coding_projects.Prelude.{ℕ, ◌<◌, ◌≡◌, true, false}
use c_lang_coding_projects.Threads.{assign}
use c_lang_coding_projects.RwLock.{
  Priority, RwState, rwlock_new, reader_enter, reader_blocked, reader_acquire, reader_unlock,
  writer_enter, writer_blocked, writer_acquire, writer_unlock,
}

-- Where a thread stands: outside, in the loop of `reader_lock` or of `writer_lock`, or between the
-- return of a lock function and the call of its unlock function.
pub data Phase : Type 0 where
  idle : Phase
  read_wait : Phase
  reading : Phase
  write_wait : Phase
  writing : Phase

-- One step of one thread, with the lock before and behind it.
pub data Act (rw : RwState) : Phase → RwState → Phase → Type 0 where
  read_at_once :
      reader_blocked (reader_enter rw) ≡ false
      → Act rw idle (reader_acquire (reader_enter rw)) reading
  read_later : reader_blocked (reader_enter rw) ≡ true → Act rw idle (reader_enter rw) read_wait
  read_again : reader_blocked rw ≡ true → Act rw read_wait rw read_wait
  read_wake : reader_blocked rw ≡ false → Act rw read_wait (reader_acquire rw) reading
  read_done : Act rw reading (reader_unlock rw) idle
  write_at_once :
      writer_blocked (writer_enter rw) ≡ false
      → Act rw idle (writer_acquire (writer_enter rw)) writing
  write_later : writer_blocked (writer_enter rw) ≡ true → Act rw idle (writer_enter rw) write_wait
  write_again : writer_blocked rw ≡ true → Act rw write_wait rw write_wait
  write_wake : writer_blocked rw ≡ false → Act rw write_wait (writer_acquire rw) writing
  write_done : Act rw writing (writer_unlock rw) idle

pub record System : Type 0 where
  pub lock : RwState
  pub phase : ℕ → Phase

-- One of the `n` threads makes a step.
pub data Step (n : ℕ) (s : System) : System → Type 0 where
  pick :
      (i : ℕ) {rw : RwState} {p : Phase}
      → i < n
      → Act s.lock (s.phase i) rw p
      → Step n s (record { lock = rw; phase = assign s.phase i p })

abbrev pub init : Priority → ℕ → System
init p k = record { lock = rwlock_new p k; phase = λ i. idle }

-- The states that `n` threads can reach from a new lock.
pub data Reach (n : ℕ) (p : Priority) (k : ℕ) : System → Type 0 where
  start : Reach n p k (init p k)
  later : {s t : System} → Reach n p k s → Step n s t → Reach n p k t
