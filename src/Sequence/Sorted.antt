-- ===== src/Sequence/Sorted.antt =====
-- Sorted lists, and `insert_last` on them.
use mathlib.Core.List.{Perm}
use mathlib.Core.List.Perm
use c_lang_coding_projects.Prelude.{
  ◌≡◌, inl, inr, Bool, Bool-cases, true, false, List, [], ◌∷◌, arith,
}
use c_lang_coding_projects.Sequence.Insertion.{all_above, insert_last}

module _ {ℓ κ} {A : Type ℓ} where
  abbrev pub All : (A → Type κ) → List A → Type κ
  All P [] = Unit
  All P (x ∷ xs) = P x × All P xs

  -- Every item is `le` each item behind it.
  abbrev pub IsSorted : (A → A → Type κ) → List A → Type κ
  IsSorted le [] = Unit
  IsSorted le (x ∷ xs) = All (le x) xs × IsSorted le xs

  All-mono : (P Q : A → Type κ) (xs : List A) → ((x : A) → P x → Q x) → All P xs → All Q xs
  All-mono P Q [] f h = tt
  All-mono P Q (x ∷ xs) f h = (f x h.0, All-mono P Q xs f h.1)

  All-insert_last :
      (P : A → Type κ) (above : A → Bool) (x : A) (xs : List A)
      → P x
      → All P xs
      → All P (insert_last above x xs)
  unfolding insert_last
  All-insert_last P above x [] px h = (px, tt)
  All-insert_last P above x (y ∷ ys) px h = elim (Bool-cases (all_above above (y ∷ ys))) [
    | inl e ↦ rw e (px, h)
    | inr e ↦ rw e (h.0, All-insert_last P above x ys px h.1)
  ]

  module _ (le : A → A → Type κ) (above : A → Bool) (x : A) (up : (y : A) → above y ≡ true → le x y)
      (low : (y : A) → above y ≡ false → le y x)
      (le_trans : (a b c : A) → le a b → le b c → le a c) where
    All-up : (ys : List A) → all_above above ys ≡ true → All (le x) ys
    All-up [] e = tt
    All-up (y ∷ ys) e = (up y (ground (arith, e)), All-up ys (ground (arith, e)))

    -- An item before one that is not above `x` is not above `x` either.
    head_low : (y : A) (ys : List A) → All (le y) ys → all_above above (y ∷ ys) ≡ false → le y x
    head_low y [] h e = low y (ground (arith, e))
    head_low y (z ∷ zs) h e = elim (Bool-cases (above y)) [
      | inr d ↦ low y d
      | inl d ↦ elim (Bool-cases (above z)) [
        | inr c ↦ le_trans y z x h.0 (low z c)
        | inl c ↦ head_low y zs h.1 (ground (arith, e, d, c))
      ]
    ]

    pub insert_last-IsSorted : (xs : List A) → IsSorted le xs → IsSorted le (insert_last above x xs)
    unfolding insert_last
    insert_last-IsSorted [] s = (tt, tt)
    insert_last-IsSorted (y ∷ ys) s = elim (Bool-cases (all_above above (y ∷ ys))) [
      | inl e ↦ rw e (All-up (y ∷ ys) e, s)
      | inr e ↦
          rw e (
            All-insert_last (le y) above x ys (head_low y ys s.0 e) s.0,
            insert_last-IsSorted ys s.1,
          )
    ]

module _ {ℓ} {A : Type ℓ} where
  pub insert_last-Perm :
      (above : A → Bool) (x : A) (xs : List A) → Perm (insert_last above x xs) (x ∷ xs)
  unfolding insert_last
  insert_last-Perm above x [] = Perm.refl (x ∷ [])
  insert_last-Perm above x (y ∷ ys) = elim (Bool-cases (all_above above (y ∷ ys))) [
    | inl e ↦ rw e (Perm.refl (x ∷ y ∷ ys))
    | inr e ↦ rw e (Perm.trans (Perm.cons y (insert_last-Perm above x ys)) (Perm.swap x y ys))
  ]
