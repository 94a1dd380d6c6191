-- ===== src/RwLock.antt =====
-- Concurrent Data Structures/rwlock.c: the state of `struct rwlock` and what each function does to it
-- while it holds the mutex. A lock function registers the caller, then waits while its loop test
-- holds (`pthread_cond_wait` gives the mutex up there), then takes the lock. `int` counters are
-- natural numbers, as they count threads.
pub mod System
pub mod Invariant
pub mod Safety
pub mod Progress
use c_lang_coding_projects.Prelude.{
  ℕ, ◌+◌, ◌-◌, Bool, true, false, ◌&&◌, ◌||◌, ltb, leb, if◌then◌else◌,
}

-- `PRIORITY`
pub data Priority : Type 0 where
  readers : Priority
  writers : Priority
  n_way : Priority

-- `struct rwlock`, less its mutex and its condition variable
pub record RwState : Type 0 where
  pub priority : Priority
  pub limit : ℕ
  pub active_readers : ℕ
  pub active_writers : ℕ
  pub waiting_readers : ℕ
  pub waiting_writers : ℕ
  pub readers_since_last_write : ℕ

-- The uint32_t `n` as the int `rw->N`. From 2^31 on it is negative; it is 0 here, which the loop
-- tests do not tell from a negative number, as the counter beside it is never negative.
abbrev pub as_limit : ℕ → ℕ
as_limit n = if ltb n 2147483648 then n else 0

-- `rwlock_new`
unfoldable pub rwlock_new : Priority → ℕ → RwState
rwlock_new p n = record {
  priority = p;
  limit = as_limit n;
  active_readers = 0;
  active_writers = 0;
  waiting_readers = 0;
  waiting_writers = 0;
  readers_since_last_write = 0;
}

-- `reader_lock` up to its loop.
unfoldable pub reader_enter : RwState → RwState
reader_enter rw = record rw { waiting_readers = rw.waiting_readers + 1 }

-- The loop test of `reader_lock`.
abbrev pub blocks_reader : Priority → RwState → Bool
blocks_reader Priority.readers rw = ltb 0 rw.active_writers
blocks_reader Priority.writers rw = ltb 0 rw.waiting_writers || ltb 0 rw.active_writers
blocks_reader Priority.n_way rw =
    ltb 0 rw.active_writers
    || (ltb 0 rw.waiting_writers && leb rw.limit rw.readers_since_last_write)

unfoldable pub reader_blocked : RwState → Bool
reader_blocked rw = blocks_reader rw.priority rw

-- `reader_lock` behind its loop.
abbrev pub count_reader : Priority → RwState → ℕ
count_reader Priority.readers rw = rw.readers_since_last_write
count_reader Priority.writers rw = rw.readers_since_last_write
count_reader Priority.n_way rw =
    if ltb 0 rw.waiting_writers
    then rw.readers_since_last_write + 1
    else rw.readers_since_last_write

unfoldable pub reader_acquire : RwState → RwState
reader_acquire rw = record rw {
  readers_since_last_write = count_reader rw.priority rw;
  waiting_readers = rw.waiting_readers - 1;
  active_readers = rw.active_readers + 1;
}

-- `reader_unlock`
unfoldable pub reader_unlock : RwState → RwState
reader_unlock rw = record rw { active_readers = rw.active_readers - 1 }

-- The test before `pthread_cond_broadcast` in both unlock functions, on the state that they leave.
unfoldable pub broadcasts : RwState → Bool
broadcasts rw = ltb 0 rw.waiting_readers || ltb 0 rw.waiting_writers

-- `writer_lock` up to its loop.
unfoldable pub writer_enter : RwState → RwState
writer_enter rw = record rw { waiting_writers = rw.waiting_writers + 1 }

-- The loop test of `writer_lock`.
abbrev pub blocks_writer : Priority → RwState → Bool
blocks_writer Priority.readers rw =
    ltb 0 rw.active_writers || (ltb 0 rw.active_readers || ltb 0 rw.waiting_readers)
blocks_writer Priority.writers rw = ltb 0 rw.active_writers || ltb 0 rw.active_readers
blocks_writer Priority.n_way rw =
    ltb 0 rw.active_writers
    || (ltb 0 rw.active_readers
        || (ltb 0 rw.waiting_readers && ltb rw.readers_since_last_write rw.limit))

unfoldable pub writer_blocked : RwState → Bool
writer_blocked rw = blocks_writer rw.priority rw

-- `writer_lock` behind its loop.
unfoldable pub writer_acquire : RwState → RwState
writer_acquire rw = record rw {
  waiting_writers = rw.waiting_writers - 1;
  active_writers = rw.active_writers + 1;
}

-- `writer_unlock`
abbrev pub reset_quota : Priority → ℕ → ℕ
reset_quota Priority.readers k = k
reset_quota Priority.writers k = k
reset_quota Priority.n_way k = 0

unfoldable pub writer_unlock : RwState → RwState
writer_unlock rw = record rw {
  active_writers = rw.active_writers - 1;
  readers_since_last_write = reset_quota rw.priority rw.readers_since_last_write;
}
