-- ===== src/RwLock/Safety.antt =====
-- Who may be inside the lock of rwlock.c at the same time, and how many readers pass a writer.
use c_lang_coding_projects.Prelude.{ℕ, ◌<◌, ◌≤◌, ◌≡◌, ◌≢◌, inl, inr, arith, ltb, Bool-cases}
use c_lang_coding_projects.RwLock.{Priority}
use c_lang_coding_projects.Threads.{count, count_two, count_pos}
use c_lang_coding_projects.RwLock.System.{reading, writing, System, Reach}
use c_lang_coding_projects.RwLock.Invariant.{
  Inv, is_reading, is_writing, awaits_read, awaits_write, Reach-Inv,
}

one_writer :
    {n : ℕ} {p : Priority} {k : ℕ} {s : System}
    → Inv n p k s.lock s.phase
    → (i j : ℕ) → i < j
    → j < n
    → s.phase i ≡ writing
    → s.phase j ≡ writing
    → ⊥
one_writer {n} {s} inv i j lt below ei ej =
    ground (arith, count_two is_writing n s.phase i j lt below, inv.writers, inv.one_writer)

-- In every state that `n` threads reach from a new lock, a thread that has the lock for writing has
-- it alone: no thread has it for reading, and no other for writing.
pub mutual_exclusion :
    {n : ℕ} {p : Priority} {k : ℕ} {s : System}
    → Reach n p k s
    → (i j : ℕ) → i < n
    → j < n
    → s.phase i ≡ writing
    → (s.phase j ≢ reading) × (s.phase j ≡ writing → i ≡ j)
mutual_exclusion {n} {s} r i j li lj e =
    let inv = Reach-Inv r in
    (
      λ q. ground (
        arith,
        count_pos is_writing n s.phase i li,
        count_pos is_reading n s.phase j lj,
        inv.writers,
        inv.readers,
        inv.alone,
      ),
      λ q. elim (Bool-cases (ltb i j)) [
        | inl a ↦ absurd (one_writer inv i j (ground (arith, a)) lj e q)
        | inr a ↦ elim (Bool-cases (ltb j i)) [
          | inl b ↦ absurd (one_writer inv j i (ground (arith, b)) li q e)
          | inr b ↦ ground (arith, a, b)
        ]
      ],
    )

-- In every state that `n` threads reach from a new lock with `N`, `readers_since_last_write` is at
-- most `N`, the active counters tell how many threads have the lock, and the waiting counters how
-- many wait for it.
pub counters_lem :
    {n : ℕ} {p : Priority} {k : ℕ} {s : System}
    → Reach n p k s
    → (s.lock.readers_since_last_write ≤ k)
      × (s.lock.active_readers ≡ count is_reading n s.phase)
      × (s.lock.active_writers ≡ count is_writing n s.phase)
      × (s.lock.waiting_readers ≡ count awaits_read n s.phase)
      × (s.lock.waiting_writers ≡ count awaits_write n s.phase)
counters_lem r =
    let inv = Reach-Inv r in (inv.quota, inv.readers, inv.writers, inv.read_waits, inv.write_waits)
