-- ===== src/Threads.antt =====
-- The phases of numbered threads, as the models of the concurrent programs have them: one thread's
-- move, and how many threads stand in phases that a weight counts.
use c_lang_coding_projects.Prelude.{
  ℕ, zero, suc, ◌+◌, ◌<◌, ◌≤◌, ◌≡◌, Bool-cases, inl, inr, ltb, refl, arith, if◌then◌else◌, ◌==◌,
}

module _ {P : Type 0} where
  unfoldable pub assign : (ℕ → P) → ℕ → P → ℕ → P
  assign f i p j = if i == j then p else f j

  -- How many of the first `n` threads are counted by `w`.
  unfoldable pub count : (P → ℕ) → ℕ → (ℕ → P) → ℕ
  count w zero f = 0
  count w (suc n) f = count w n f + w (f n)

  -- A thread from `n` on is not counted.
  count-outside :
      (w : P → ℕ) (n : ℕ) (f : ℕ → P) (i : ℕ) (p : P)
      → n ≤ i
      → count w n (assign f i p) ≡ count w n f
  unfolding count assign
  count-outside w zero f i p h = refl
  count-outside w (suc n) f i p h = ground (arith, count-outside w n f i p)

  -- One thread's move changes a count by the weights of its two phases.
  pub count-assign :
      (w : P → ℕ) (n : ℕ) (f : ℕ → P) (i : ℕ) (p : P)
      → i < n
      → count w n (assign f i p) + w (f i) ≡ count w n f + w p
  unfolding count assign
  count-assign w zero f i p h = elim h [ ]
  count-assign w (suc n) f i p h = elim (Bool-cases (i == n)) [
    | inl e ↦ ground (arith, e, count-outside w n f i p)
    | inr e ↦ ground (arith, e, count-assign w n f i p)
  ]

  pub count_pos : (w : P → ℕ) (n : ℕ) (f : ℕ → P) (i : ℕ) → i < n → w (f i) ≤ count w n f
  unfolding count
  count_pos w zero f i h = elim h [ ]
  count_pos w (suc n) f i h = elim (Bool-cases (i == n)) [
    | inl e ↦ ground (arith, e)
    | inr e ↦ ground (arith, e, count_pos w n f i)
  ]

  -- Two threads count twice.
  pub count_two :
      (w : P → ℕ) (n : ℕ) (f : ℕ → P) (i j : ℕ) → i < j → j < n → w (f i) + w (f j) ≤ count w n f
  unfolding count
  count_two w zero f i j h k = elim k [ ]
  count_two w (suc n) f i j h k = elim (Bool-cases (j == n)) [
    | inl e ↦ ground (arith, e, count_pos w n f i)
    | inr e ↦ ground (arith, e, count_two w n f i j)
  ]

  pub count_none : (w : P → ℕ) (n : ℕ) (p : P) → w p ≡ 0 → count w n (λ i. p) ≡ 0
  unfolding count
  count_none w zero p e = refl
  count_none w (suc n) p e = omega (arith, e, count_none w n p e)

  -- A count above 0 has a thread.
  pub count_find :
      (w : P → ℕ) (n : ℕ) (f : ℕ → P) → 0 < count w n f → (i : ℕ) × (i < n) × (0 < w (f i))
  unfolding count
  count_find w zero f h = elim h [ ]
  count_find w (suc n) f h = elim (Bool-cases (ltb 0 (w (f n)))) [
    | inl e ↦ (n, omega arith, ground (arith, e))
    | inr e ↦ let (i, lt, pos) = count_find w n f (ground (arith, e)) in (i, omega (arith, lt), pos)
  ]
