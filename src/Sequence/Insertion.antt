-- ===== src/Sequence/Insertion.antt =====
-- The insertion loop that addArc (both Graph.c), DFS (Graph.c) and main (Lex.c) share: from the back
-- of a list the cursor moves to the front while its item stands above the new one; the new item goes
-- behind the cursor, or in front of the list if the cursor fell off.
use mathlib.Core.Path.{subst}
use c_lang_coding_projects.Prelude.{
  ℕ, zero, suc, ◌+◌, ◌-◌, ◌<◌, ◌≡◌, refl, ap, ◌∙◌, inl, inr, Bool, Bool-cases, true, false, ◌&&◌,
  Option, none, some, List, [], ◌∷◌, ltb, arith, if◌then◌else◌, length, get_elem?,
}
use c_lang_coding_projects.Sequence.{
  Seq, insert_at, get, move_back, move_prev, prepend, insert_after,
}

abbrev lift_stop : Bool → Option ℕ → Option ℕ
lift_stop up none = if up then none else some 0
lift_stop up (some j) = some (suc j)

module _ {ℓ} {A : Type ℓ} where
  abbrev pub back_up_round :
      (A → Bool) → Seq A → Option ℕ → Option A → Option (Seq A) → Option (Seq A)
  back_up_round above s none o rest = some s
  back_up_round above s (some i) none rest = none
  back_up_round above s (some i) (some y) rest = if above y then rest else some s

  -- `while (j >= 0 && get(L) is above) { movePrev(L); j = index(L); }`
  unfoldable pub back_up : ℕ → (A → Bool) → Seq A → Option (Seq A)
  back_up zero above s = none
  back_up (suc fuel) above s =
      let rest = back_up fuel above (move_prev s) in back_up_round above s s.place (get s) rest

  abbrev pub put_behind : Seq A → Option ℕ → A → Option (Seq A)
  put_behind s none x = some (prepend s x)
  put_behind s (some j) x = insert_after s x

  -- `moveBack(L)`, the loop, and `prepend(L, x)` or `insertAfter(L, x)`. The loop makes at most as
  -- many rounds as the list has items, and one more test.
  abbrev pub put_result : Option (Seq A) → A → Option (Seq A)
  put_result none x = none
  put_result (some t) x = put_behind t t.place x

  unfoldable pub insert_from_back : (A → Bool) → Seq A → A → Option (Seq A)
  insert_from_back above s x = put_result (back_up (length s.items + 1) above (move_back s)) x

  abbrev pub all_above : (A → Bool) → List A → Bool
  all_above above [] = true
  all_above above (y ∷ ys) = above y && all_above above ys

  -- What the insertion comes to: `x` right behind the last item that is not above it.
  unfoldable pub insert_last : (A → Bool) → A → List A → List A
  insert_last above x [] = x ∷ []
  insert_last above x (y ∷ ys) =
      if all_above above (y ∷ ys) then x ∷ y ∷ ys else y ∷ insert_last above x ys

  -- Where the loop stops if it starts at item number `i`.
  stop_at : (A → Bool) → List A → ℕ → Option ℕ
  stop_at above [] i = none
  stop_at above (y ∷ ys) zero = if above y then none else some 0
  stop_at above (y ∷ ys) (suc i) = lift_stop (above y) (stop_at above ys i)

  -- One round of the loop, as `stop_at` has it.
  stop_round :
      (above : A → Bool) (xs : List A) (i : ℕ) (y : A)
      → get_elem? xs (suc i) ≡ some y
      → stop_at above xs (suc i) ≡ (if above y then stop_at above xs i else some (suc i))
  unfolding stop_at
  stop_round above [] i y e = cc
  stop_round above (x ∷ []) zero y e = cc
  stop_round above (x ∷ []) (suc i) y e = cc
  stop_round above (x ∷ z ∷ xs) zero y e = ground (arith, e)
  stop_round above (x ∷ z ∷ xs) (suc i) y e =
      rw (stop_round above (z ∷ xs) i y e)
        (elim (Bool-cases (above y)) [ inl u ↦ rw u | inr u ↦ rw u ])

  get_elem?-some : (xs : List A) (i : ℕ) → i < length xs → (y : A) × (get_elem? xs i ≡ some y)
  get_elem?-some [] i lt = elim lt [ ]
  get_elem?-some (x ∷ xs) zero lt = (x, refl)
  get_elem?-some (x ∷ xs) (suc i) lt = get_elem?-some xs i (omega arith)

  at_place : List A → Option ℕ → Seq A
  at_place xs p = record { items = xs; place = p }

  back_up-stop :
      (above : A → Bool) (xs : List A) (fuel i : ℕ)
      → i < length xs
      → suc i < fuel
      → back_up fuel above (at_place xs (some i)) ≡ some (at_place xs (stop_at above xs i))
  unfolding back_up get move_prev at_place
  back_up-stop above xs zero i lt le = elim le [ ]
  back_up-stop above [] (suc fuel) i lt le = elim lt [ ]
  back_up-stop above (x ∷ xs) (suc zero) zero lt le = absurd (omega arith)
  back_up-stop above (x ∷ xs) (suc (suc fuel)) zero lt le =
      unfold stop_at in elim (Bool-cases (above x)) [ inl u ↦ rw u | inr u ↦ rw u ]
  back_up-stop above (x ∷ xs) (suc fuel) (suc i) lt le =
      let (y, e) = get_elem?-some (x ∷ xs) (suc i) lt in
      rw (e, stop_round above (x ∷ xs) i y e)
        (elim (Bool-cases (above y)) [
          | inl u ↦ rw u (back_up-stop above (x ∷ xs) fuel i (omega arith) (omega arith))
          | inr u ↦ rw u
        ])

  items_put : List A → Option ℕ → A → List A
  items_put xs none x = x ∷ xs
  items_put xs (some j) x = insert_at xs (suc j) x

  stop_none :
      (above : A → Bool) (y : A) (ys : List A)
      → all_above above (y ∷ ys) ≡ true
      → stop_at above (y ∷ ys) (length ys) ≡ none
  unfolding stop_at
  stop_none above y [] e = ground (arith, e)
  stop_none above y (z ∷ zs) e = rw (stop_none above z zs (ground (arith, e))) (ground (arith, e))

  stop_some :
      (above : A → Bool) (y : A) (ys : List A)
      → all_above above (y ∷ ys) ≡ false
      → (j : ℕ) × (stop_at above (y ∷ ys) (length ys) ≡ some j)
  unfolding stop_at
  stop_some above y [] e = (0, ground (arith, e))
  stop_some above y (z ∷ zs) e = elim (Bool-cases (all_above above (z ∷ zs))) [
    | inl up ↦ (0, rw (stop_none above z zs up) (ground (arith, e, up)))
    | inr low ↦ let (j, at) = stop_some above z zs low in (suc j, rw at)
  ]

  put_more :
      (above : A → Bool) (x y z : A) (zs : List A)
      → all_above above (y ∷ z ∷ zs) ≡ false
      → all_above above (z ∷ zs) ≡ false
      → items_put (z ∷ zs) (stop_at above (z ∷ zs) (length zs)) x ≡ insert_last above x (z ∷ zs)
      → items_put (y ∷ z ∷ zs) (stop_at above (y ∷ z ∷ zs) (length (z ∷ zs))) x ≡ (
          if all_above above (y ∷ z ∷ zs) then x ∷ y ∷ z ∷ zs else y ∷ insert_last above x (z ∷ zs))
  unfolding items_put stop_at
  put_more above x y z zs e low rest =
      let (j, at) = stop_some above z zs low in
      rw (e, at)
        (ap (λ l. y ∷ l)
          (subst (λ p. items_put (z ∷ zs) p x ≡ insert_last above x (z ∷ zs)) at rest))

  -- The place where the loop stops is the place that `insert_last` finds.
  items_put-stop :
      (above : A → Bool) (x y : A) (ys : List A)
      → items_put (y ∷ ys) (stop_at above (y ∷ ys) (length ys)) x ≡ insert_last above x (y ∷ ys)
  unfolding items_put insert_last
  items_put-stop above x y [] =
      unfold stop_at in elim (Bool-cases (above y)) [ inl u ↦ rw u | inr u ↦ rw u ]
  items_put-stop above x y (z ∷ zs) = elim (Bool-cases (all_above above (y ∷ z ∷ zs))) [
    | inl e ↦ rw (stop_none above y (z ∷ zs) e, e)
    | inr e ↦ elim (Bool-cases (all_above above (z ∷ zs))) [
      | inl up ↦
          let low : above y ≡ false = ground (arith, e, up) in
          unfold stop_at in rw (stop_none above z zs up, low, up)
      | inr low ↦ put_more above x y z zs e low (items_put-stop above x z zs)
    ]
  ]

  -- `insertAfter` or `prepend` at the place where the loop stops.
  put_behind-items :
      (xs : List A) (p : Option ℕ) (x : A)
      → (t : Seq A) × (put_behind (at_place xs p) p x ≡ some t) × (t.items ≡ items_put xs p x)
  unfolding at_place items_put prepend insert_after
  put_behind-items xs none x = (_, refl, refl)
  put_behind-items xs (some j) x = (_, refl, refl)

  inserted :
      (above : A → Bool) (xs : List A) (p : Option ℕ) (x : A)
      → 0 < length xs
      → (t : Seq A) × (insert_from_back above (at_place xs p) x ≡ some t)
        × (t.items ≡ insert_last above x xs)
  unfolding insert_from_back move_back at_place
  inserted above [] p x pos = elim pos [ ]
  inserted above (y ∷ ys) p x pos =
      let some_items : ltb 0 (length (y ∷ ys)) ≡ true = ground arith in
      let at_end : length (y ∷ ys) - 1 ≡ length ys = omega arith in
      let loop =
        back_up-stop above (y ∷ ys) (length (y ∷ ys) + 1) (length ys) (omega arith) (omega arith) in
      let (t, run, its) = put_behind-items (y ∷ ys) (stop_at above (y ∷ ys) (length ys)) x in
      (t, rw (some_items, at_end, loop) run, its ∙ items_put-stop above x y ys)

  -- The insertion into a list that is not empty returns, and the new item stands right behind the last
  -- item that is not above it, or in front if all are.
  pub insert_from_back_lem :
      (above : A → Bool) (s : Seq A) (x : A)
      → 0 < length s.items
      → (t : Seq A) × (insert_from_back above s x ≡ some t)
        × (t.items ≡ insert_last above x s.items)
  unfolding at_place
  insert_from_back_lem above s x pos = inserted above s.items s.place x pos
