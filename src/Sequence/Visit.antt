-- ===== src/Sequence/Visit.antt =====
-- The loop `for (moveFront(L); index(L) >= 0; moveNext(L))` with `get(L)` in its body, as the graph
-- functions and main of Lex.c have it. The body may stop the process (`none`) and does not change `L`.
use c_lang_coding_projects.Prelude.{
  ℕ, zero, suc, ◌+◌, ◌-◌, ◌<◌, ◌≡◌, refl, true, false, Option, none, some, List, [], ◌∷◌, ◌++◌,
  ◌==◌, ltb, arith, length, length-append, get_elem?,
}
use mathlib.Core.List.{append_assoc}
use mathlib.Core.Path.{subst}
use c_lang_coding_projects.Sequence.{Seq, get, move_front, move_next}

abbrev pub and_then {κ μ} : {S : Type κ} {T : Type μ} → Option S → (S → Option T) → Option T
and_then none k = none
and_then (some s) k = k s

at {ℓ} : {A : Type ℓ} → List A → ℕ → Seq A
at xs i = record { items = xs; place = some i }

pub get_middle {ℓ} :
    {A : Type ℓ} (xs : List A) (x : A) (ys : List A) → get_elem? (xs ++ x ∷ ys) (length xs) ≡ some x
get_middle [] x ys = refl
get_middle (z ∷ xs) x ys = get_middle xs x ys

module _ {ℓ κ} {A : Type ℓ} {S : Type κ} where
  abbrev pub visit_round : (S → A → Option S) → Option ℕ → Option A → S → (S → Option S) → Option S
  visit_round body none x st next = some st
  visit_round body (some i) none st next = none
  visit_round body (some i) (some x) st next = and_then (body st x) next

  unfoldable pub visit_from : ℕ → (S → A → Option S) → Seq A → S → Option S
  visit_from zero body s st = none
  visit_from (suc fuel) body s st =
      visit_round body s.place (get s) st (λ st'. visit_from fuel body (move_next s) st')

  -- A test of `index(L)` for each item and one more.
  unfoldable pub visit : (S → A → Option S) → Seq A → S → Option S
  visit body s st = visit_from (length s.items + 1) body (move_front s) st

  -- The body over the items in order.
  abbrev pub fold_option : (S → A → Option S) → S → List A → Option S
  fold_option body st [] = some st
  fold_option body st (x ∷ xs) = and_then (body st x) (λ st'. fold_option body st' xs)

  visit_from-fold :
      (body : S → A → Option S) (fuel : ℕ) (xs : List A) (x : A) (ys : List A) (st : S)
      → suc (length ys) < fuel
      → visit_from fuel body (at (xs ++ x ∷ ys) (length xs)) st ≡ fold_option body st (x ∷ ys)
  unfolding visit_from at get move_next
  visit_from-fold body zero xs x ys st lt = elim lt [ ]
  visit_from-fold body (suc zero) xs x ys st lt = absurd (omega arith)
  visit_from-fold body (suc (suc fuel)) xs x [] st lt =
      let last_one : (length xs == length (xs ++ x ∷ []) - 1) ≡ true =
        ground (arith, length-append xs (x ∷ [])) in
      rw (get_middle xs x [], last_one)
  visit_from-fold body (suc (suc fuel)) xs x (y ∷ ys) st lt =
      let more : (length xs == length (xs ++ x ∷ y ∷ ys) - 1) ≡ false =
        ground (arith, length-append xs (x ∷ y ∷ ys)) in
      rw (get_middle xs x (y ∷ ys), more)
        (go (body st x) λ st'.
          subst
            (λ zs.
              visit_from (suc fuel) body (at zs (suc (length xs))) st'
              ≡ fold_option body st' (y ∷ ys))
            (append_assoc xs (x ∷ []) (y ∷ ys))
            (subst
              (λ n.
                visit_from (suc fuel) body (at ((xs ++ x ∷ []) ++ y ∷ ys) n) st'
                ≡ fold_option body st' (y ∷ ys))
              (omega (arith, length-append xs (x ∷ [])))
              (visit_from-fold body (suc fuel) (xs ++ x ∷ []) y ys st' (omega arith))))
    where
      go :
          (o : Option S)
          → ((st' : S)
              → visit_from (suc fuel) body (at (xs ++ x ∷ y ∷ ys) (suc (length xs))) st'
                ≡ fold_option body st' (y ∷ ys))
          → and_then o
              (λ st'. visit_from (suc fuel) body (at (xs ++ x ∷ y ∷ ys) (suc (length xs))) st')
            ≡ and_then o (λ st'. fold_option body st' (y ∷ ys))
      go none h = refl
      go (some st') h = h st'

  visited :
      (body : S → A → Option S) (xs : List A) (p : Option ℕ) (st : S)
      → (xs ≡ [] → p ≡ none)
      → visit body (record { items = xs; place = p }) st ≡ fold_option body st xs
  unfolding visit move_front visit_from
  visited body [] p st h = rw (h refl)
  visited body (x ∷ xs) p st h =
      let some_items : ltb 0 (length (x ∷ xs)) ≡ true = ground arith in
      rw some_items
        (unfold at in visit_from-fold body (length (x ∷ xs) + 1) [] x xs st (omega arith))

  -- The loop over a list, which has no cursor if it is empty, comes to its end and runs the body over
  -- the items in order, up to the first that stops the process.
  pub visit_lem :
      (body : S → A → Option S) (s : Seq A) (st : S)
      → (s.items ≡ [] → s.place ≡ none)
      → visit body s st ≡ fold_option body st s.items
  visit_lem body s st h = visited body s.items s.place st h
