-- ===== src/Queue/Window.antt =====
-- The elements between two indices of a ring.
use native.Mathlib.Nat.{mod-add-mod, mod-eq_of_lt, mod-eq-sub-mod, mod-lt}
use mathlib.Core.Path.{ap₂}
use c_lang_coding_projects.Prelude.{
  ℕ, zero, suc, ◌+◌, ◌-◌, ◌%◌, ◌<◌, ◌≡◌, ◌≢◌, refl, sym, ap, ◌∙◌, Bool-cases, inl, inr, List, [],
  ◌∷◌, ◌++◌, arith, ltb, length, ◌≤◌,
}
use c_lang_coding_projects.Arrays.{put, put_self, put_other}

-- `n` elements from index `i` on.
abbrev pub window : (ℕ → ℕ) → ℕ → ℕ → ℕ → List ℕ
window l size i zero = []
window l size i (suc n) = l i ∷ window l size ((i + 1) % size) n

pub length-window : (l : ℕ → ℕ) (size i n : ℕ) → length (window l size i n) ≡ n
length-window l size i zero = refl
length-window l size i (suc n) = ap suc (length-window l size ((i + 1) % size) n)

-- An index that is less than `size` steps ahead is another one.
ahead_ne : (size i k : ℕ) → i < size → 0 < k → k < size → (i + k) % size ≢ i
ahead_ne size i k hi pos hk = elim (Bool-cases (ltb (i + k) size)) [
  | inl e ↦ let lt : i + k < size = ground (arith, e) in omega (arith, mod-eq_of_lt lt, pos)
  | inr e ↦
      let over : size ≤ i + k = ground (arith, e) in
      let less : i + k - size < size = omega (arith, hi, hk) in
      omega (arith, mod-eq-sub-mod over, mod-eq_of_lt less, hk, over)
]

pub step_on : (size i n : ℕ) → (i + suc n) % size ≡ ((i + 1) % size + n) % size
step_on size i n =
    let e : i + suc n ≡ i + 1 + n = omega arith in
    ap (λ k. k % size) e ∙ sym (mod-add-mod (i + 1) size n)

-- A write right behind a window that is not full makes it one longer.
pub window-put :
    (l : ℕ → ℕ) (size i n b x : ℕ)
    → i < size
    → n < size
    → b ≡ (i + n) % size
    → window (put l b x) size i (suc n) ≡ window l size i n ++ x ∷ []
window-put l size i zero b x hi hn e =
    let none_on : i + 0 ≡ i = omega arith in
    let here : b ≡ i = e ∙ (ap (λ k. k % size) none_on ∙ mod-eq_of_lt hi) in
    rw here (ap (λ y. y ∷ []) (put_self l i x))
window-put l size i (suc n) b x hi hn e =
    let ahead = ahead_ne size i (suc n) hi (omega arith) hn in
    ap₂ ◌∷◌ (put_other l b x i (λ p. ahead (sym e ∙ p))) (
      window-put l size ((i + 1) % size) n b x (mod-lt (i + 1) (omega arith)) (omega arith)
        (e ∙ step_on size i n))
