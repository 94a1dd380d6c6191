-- ===== src/RwLock/Progress.antt =====
-- The waiting threads of rwlock.c and the broadcasts that wake them.
use mathlib.Core.Path.{subst}
use c_lang_coding_projects.Prelude.{
  ℕ, ◌+◌, ◌<◌, ◌≡◌, ◌≢◌, ◌⊎◌, inl, inr, refl, sym, ap, ◌∙◌, leb, arith, ltb, Bool, Bool-cases, true,
  false,
}
use c_lang_coding_projects.RwLock.{
  blocks_reader, blocks_writer, Priority, readers, writers, n_way, RwState, broadcasts,
  reader_enter, reader_blocked, reader_acquire, reader_unlock, writer_enter, writer_blocked,
  writer_acquire, writer_unlock,
}
use c_lang_coding_projects.Threads.{count, count_pos, count_find}
use c_lang_coding_projects.RwLock.System.{
  Phase, idle, read_wait, reading, write_wait, writing, System, Reach, Act, read_at_once,
  read_later, read_again, read_wake, read_done, write_at_once, write_later, write_again, write_wake,
  write_done,
}
use c_lang_coding_projects.RwLock.Invariant.{
  Inv, is_reading, is_writing, awaits_read, awaits_write, Reach-Inv,
}

-- The loop test that a waiting thread makes.
abbrev pub held : Phase → RwState → Bool
held read_wait rw = reader_blocked rw
held write_wait rw = writer_blocked rw
held _ rw = false

-- With the lock free and someone waiting, the test of one side fails.
FreeForOne : RwState → Priority → Type 0
FreeForOne rw p =
    ((0 < rw.waiting_readers) × (blocks_reader p rw ≡ false))
    ⊎ ((0 < rw.waiting_writers) × (blocks_writer p rw ≡ false))

free_for_one :
    (rw : RwState) (p : Priority)
    → rw.active_readers ≡ 0
    → rw.active_writers ≡ 0
    → 0 < rw.waiting_readers + rw.waiting_writers
    → FreeForOne rw p
unfolding FreeForOne
free_for_one rw readers r w h = elim (Bool-cases (ltb 0 rw.waiting_readers)) [
  | inl e ↦ inl (ground arith, ground arith)
  | inr e ↦ inr (ground arith, ground arith)
]
free_for_one rw writers r w h = elim (Bool-cases (ltb 0 rw.waiting_writers)) [
  | inl e ↦ inr (ground arith, ground arith)
  | inr e ↦ inl (ground arith, ground arith)
]
free_for_one rw n_way r w h = elim (Bool-cases (ltb 0 rw.waiting_readers)) [
  | inr e ↦ inr (ground arith, ground arith)
  | inl e ↦ elim (Bool-cases (ltb 0 rw.waiting_writers)) [
    | inr d ↦ inl (ground arith, ground arith)
    | inl d ↦ elim (Bool-cases (leb rw.limit rw.readers_since_last_write)) [
      | inl full ↦ inr (ground arith, ground arith)
      | inr room ↦ inl (ground arith, ground arith)
    ]
  ]
]

waits_to_read : (q : Phase) → 0 < awaits_read q → q ≡ read_wait
waits_to_read read_wait h = refl
waits_to_read idle h = absurd (omega arith)
waits_to_read reading h = absurd (omega arith)
waits_to_read write_wait h = absurd (omega arith)
waits_to_read writing h = absurd (omega arith)

waits_to_write : (q : Phase) → 0 < awaits_write q → q ≡ write_wait
waits_to_write write_wait h = refl
waits_to_write idle h = absurd (omega arith)
waits_to_write reading h = absurd (omega arith)
waits_to_write read_wait h = absurd (omega arith)
waits_to_write writing h = absurd (omega arith)

not_reading : (q : Phase) → q ≢ reading → is_reading q ≡ 0
not_reading reading ne = absurd (ne refl)
not_reading idle ne = refl
not_reading read_wait ne = refl
not_reading write_wait ne = refl
not_reading writing ne = refl

not_writing : (q : Phase) → q ≢ writing → is_writing q ≡ 0
not_writing writing ne = absurd (ne refl)
not_writing idle ne = refl
not_writing read_wait ne = refl
not_writing write_wait ne = refl
not_writing reading ne = refl

count_zero :
    (w : Phase → ℕ) (n : ℕ) (f : ℕ → Phase) → ((i : ℕ) → i < n → w (f i) ≡ 0) → count w n f ≡ 0
count_zero w n f none_there = elim (Bool-cases (ltb 0 (count w n f))) [
  | inl e ↦
      let (i, lt, pos) = count_find w n f (ground (arith, e)) in
      absurd (omega (arith, none_there i lt, pos))
  | inr e ↦ ground (arith, e)
]

-- No deadlock: if in a reachable state no thread has the lock and thread `j` waits for it, then some
-- waiting thread passes its loop test.
pub no_deadlock :
    {n : ℕ} {p : Priority} {k : ℕ} {s : System}
    → Reach n p k s
    → ((i : ℕ) → i < n → (s.phase i ≢ reading) × (s.phase i ≢ writing))
    → (j : ℕ) → j < n
    → (s.phase j ≡ read_wait) ⊎ (s.phase j ≡ write_wait)
    → (i : ℕ) × (i < n)
      × ((s.phase i ≡ read_wait) ⊎ (s.phase i ≡ write_wait))
      × (held (s.phase i) s.lock ≡ false)
unfolding FreeForOne reader_blocked writer_blocked
no_deadlock {n} {p} {k} {s} r free j lj waits = elim one [
  | inl (some_reader, pass) ↦
      let (i, lt, pos) = count_find awaits_read n s.phase (omega (arith, inv.read_waits)) in
      let e = waits_to_read (s.phase i) pos in (i, lt, inl e, ap (λ q. held q s.lock) e ∙ pass)
  | inr (some_writer, pass) ↦
      let (i, lt, pos) = count_find awaits_write n s.phase (omega (arith, inv.write_waits)) in
      let e = waits_to_write (s.phase i) pos in (i, lt, inr e, ap (λ q. held q s.lock) e ∙ pass)
]
  where
    inv : Inv n p k s.lock s.phase
    inv = Reach-Inv r

    readers_out : count is_reading n s.phase ≡ 0
    readers_out = count_zero is_reading n s.phase λ i lt. not_reading (s.phase i) (free i lt).0

    writers_out : count is_writing n s.phase ≡ 0
    writers_out = count_zero is_writing n s.phase λ i lt. not_writing (s.phase i) (free i lt).1

    one : FreeForOne s.lock s.lock.priority
    one =
        free_for_one s.lock s.lock.priority (inv.readers ∙ readers_out) (inv.writers ∙ writers_out)
          (ground (
            arith,
            waits,
            inv.read_waits,
            inv.write_waits,
            count_pos awaits_read n s.phase j lj,
            count_pos awaits_write n s.phase j lj,
          ))

-- A step that is no unlock unblocks nobody.
Unlocks : Phase → Type 0
Unlocks a = (a ≡ reading) ⊎ (a ≡ writing)

reader_cause :
    {rw rw' : RwState} {a b : Phase}
    → Act rw a rw' b
    → reader_blocked rw ≡ true
    → reader_blocked rw' ≡ false
    → Unlocks a
      × (rw'.waiting_readers ≡ rw.waiting_readers)
      × (rw'.waiting_writers ≡ rw.waiting_writers)
unfolding Unlocks reader_enter reader_blocked reader_acquire reader_unlock writer_enter
    writer_blocked writer_acquire writer_unlock
reader_cause (read_at_once e) x y = absurd (ground (arith, e))
reader_cause (read_later e) x y = absurd (ground (arith, e))
reader_cause (read_again e) x y = absurd (ground (arith, e))
reader_cause (read_wake e) x y = absurd (ground (arith, e))
reader_cause read_done x y = (inl refl, refl, refl)
reader_cause (write_at_once e) x y = absurd (ground (arith, e))
reader_cause (write_later e) x y = absurd (ground (arith, e))
reader_cause (write_again e) x y = absurd (ground (arith, e))
reader_cause (write_wake e) x y = absurd (ground (arith, e))
reader_cause write_done x y = (inr refl, refl, refl)

writer_cause :
    {rw rw' : RwState} {a b : Phase}
    → Act rw a rw' b
    → writer_blocked rw ≡ true
    → writer_blocked rw' ≡ false
    → Unlocks a
      × (rw'.waiting_readers ≡ rw.waiting_readers)
      × (rw'.waiting_writers ≡ rw.waiting_writers)
unfolding Unlocks reader_enter reader_blocked reader_acquire reader_unlock writer_enter
    writer_blocked writer_acquire writer_unlock
writer_cause (read_at_once e) x y = absurd (ground (arith, e))
writer_cause (read_later e) x y = absurd (ground (arith, e))
writer_cause (read_again e) x y = absurd (ground (arith, e))
writer_cause (read_wake e) x y = absurd (ground (arith, e))
writer_cause read_done x y = (inl refl, refl, refl)
writer_cause (write_at_once e) x y = absurd (ground (arith, e))
writer_cause (write_later e) x y = absurd (ground (arith, e))
writer_cause (write_again e) x y = absurd (ground (arith, e))
writer_cause (write_wake e) x y = absurd (ground (arith, e))
writer_cause write_done x y = (inr refl, refl, refl)

-- No lost wake-up: a step of thread `i` that turns the loop test of a waiting thread `j` from true to
-- false is an unlock, and its test for a broadcast holds.
pub no_lost_wakeup :
    {n : ℕ} {p : Priority} {k : ℕ} {s : System}
    → Reach n p k s
    → (i : ℕ) {rw : RwState} {q : Phase} → Act s.lock (s.phase i) rw q
    → (j : ℕ) → j < n
    → held (s.phase j) s.lock ≡ true
    → held (s.phase j) rw ≡ false
    → ((s.phase i ≡ reading) ⊎ (s.phase i ≡ writing)) × (broadcasts rw ≡ true)
unfolding Unlocks broadcasts
no_lost_wakeup {n} {s} r i {rw} act j lj before after = cause (s.phase j) refl before after
  where
    reads : 0 < awaits_read (s.phase j) → 0 < s.lock.waiting_readers
    reads h = omega (arith, (Reach-Inv r).read_waits, count_pos awaits_read n s.phase j lj)

    writes : 0 < awaits_write (s.phase j) → 0 < s.lock.waiting_writers
    writes h = omega (arith, (Reach-Inv r).write_waits, count_pos awaits_write n s.phase j lj)

    cause :
        (a : Phase)
        → s.phase j ≡ a
        → held a s.lock ≡ true
        → held a rw ≡ false
        → Unlocks (s.phase i) × (broadcasts rw ≡ true)
    cause read_wait e x y =
        let (who, wr, ww) = reader_cause act x y in
        let pos = reads (subst (λ a. 0 < awaits_read a) (sym e) (omega arith)) in
        (who, ground (arith, wr, pos))
    cause write_wait e x y =
        let (who, wr, ww) = writer_cause act x y in
        let pos = writes (subst (λ a. 0 < awaits_write a) (sym e) (omega arith)) in
        (who, ground (arith, ww, pos))
    cause idle e x y = cc
    cause reading e x y = cc
    cause writing e x y = cc
