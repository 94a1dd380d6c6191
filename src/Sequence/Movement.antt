-- ===== src/Sequence/Movement.antt =====
-- The access functions and the cursor moves of List.c against the List ADT.
use mathlib.Core.Path.{subst, ap₂}
use c_lang_coding_projects.Prelude.{
  ℕ, suc, ◌≡◌, ◌≢◌, refl, sym, ap, ◌∙◌, inl, inr, true, false, Option, none, some, [], ◌∷◌, ◌++◌,
  arith, ltb, length, length-append, get_elem?, Option-cases,
}
use c_lang_coding_projects.LinkedList
use c_lang_coding_projects.LinkedList.{ListObj, is_defined}
use c_lang_coding_projects.LinkedList.Memory.{Ptr, null, Heap, Run, ok, exited}
use c_lang_coding_projects.LinkedList.Chain.{Cells}
use c_lang_coding_projects.LinkedList.Invariant.{IsList, load-ok}
use c_lang_coding_projects.LinkedList.Walk.{values}
use c_lang_coding_projects.LinkedList.Cursor.{
  get_lem, move_next_lem, move_prev_lem, place_before, place_after,
}
use c_lang_coding_projects.Sequence
use c_lang_coding_projects.Sequence.{
  Seq, insert_at, insert_after_place, insert_before_place, get_place, place_prev, place_next,
  place_shift,
}
use c_lang_coding_projects.Sequence.Refinement.{view, Refines, split, guard_stops}

get_values :
    (xs : Cells) (c v : ℕ) (ys : Cells)
    → get_elem? (values (xs ++ (c, v) ∷ ys)) (length xs) ≡ some v
get_values [] c v ys = refl
get_values (a ∷ xs) c v ys = get_values xs c v ys

-- How `get` ends, from what the ADT says.
abbrev pub finish : Option ℕ → Heap → Run ℕ
finish none h = exited
finish (some v) h = ok v h

module _ (h : Heap) (l : ListObj) (xs : Cells) (is : IsList h l xs) where
  -- For a list on the heap, `get` returns the item that the ADT's `get` returns and leaves the heap;
  -- without a cursor the process ends.
  pub get-Refines : LinkedList.get l h ≡ finish (Sequence.get (view l xs)) h
  unfolding Sequence.get
  get-Refines = elim (Option-cases l.index) [
    | inl e ↦
        subst (λ o. LinkedList.get l h ≡ finish (get_place (values xs) o) h) (sym e)
          (unfold LinkedList.get in rw (guard_stops l.length l.index e))
    | inr (i, e) ↦
        let s = split h l xs i is e in
        let item : get_place (values xs) (some i) ≡ some s.focused.value =
          ap₂ (λ ys n. get_elem? (values ys) n) s.focused.whole s.focused.place
          ∙ get_values s.focused.before s.focused.here s.focused.value s.focused.behind in
        subst (λ o. LinkedList.get l h ≡ finish (get_place (values xs) o) h) (sym e)
          (get_lem h l s.focused.before s.focused.here s.focused.value s.focused.behind s.list
              s.index
            ∙ ap (λ o. finish o h) (sym item))
  ]

  -- For a list on the heap, `front` returns the first item and leaves the heap; for an empty list the
  -- process ends.
  pub front-Refines : LinkedList.front l h ≡ finish (Sequence.front (view l xs)) h
  unfolding LinkedList.front Sequence.front
  front-Refines = go xs is
    where
      go : (ys : Cells) → IsList h l ys → LinkedList.front l h ≡ finish (get_elem? (values ys) 0) h
      go [] it = let empty : ltb l.length 1 ≡ true = ground (arith, it.count) in rw empty
      go ((a, v) ∷ ys) it =
          let more : ltb l.length 1 ≡ false = ground (arith, it.count) in
          let live : l.front ≢ null = λ e. it.chain.0 (sym it.front ∙ e) in
          rw (more, load-ok h l.front live _ (ap h it.front ∙ it.chain.1))

  length-values : (ys : Cells) → length (values ys) ≡ length ys
  length-values [] = refl
  length-values (y ∷ ys) = ap suc (length-values ys)

  -- For a list on the heap, `moveNext` returns a list that stands for the ADT's `moveNext` of it.
  pub move_next-Refines : Refines (LinkedList.move_next l h) (some (Sequence.move_next (view l xs)))
  unfolding Sequence.move_next
  move_next-Refines = elim (Option-cases l.index) [
    | inl e ↦ (
      l,
      h,
      unfold LinkedList.move_next in rw (ap is_defined e),
      (
        xs,
        is,
        λ k. record {
          items = values xs;
          place = (e ∙ ap (place_next (length (values xs))) (sym e)) k;
        },
      ),
    )
    | inr (i, e) ↦
        let s = split h l xs i is e in
        let (l', g, run, done) =
          move_next_lem h l s.focused.before s.focused.here s.focused.value s.focused.behind s.list
            s.index in
        let place : l'.index ≡ place_next (length (values xs)) l.index =
          done.1
          ∙ (next_place s.focused.before (s.focused.here, s.focused.value) s.focused.behind
              ∙ ap₂ (λ ys o. place_next (length (values ys)) o) (sym s.focused.whole)
                  (sym s.index)) in
        (
          l',
          g,
          run,
          (
            xs,
            subst (λ k. IsList k l' xs) (sym done.2)
                (subst (IsList h l') (sym s.focused.whole) done.0),
            λ k. record { items = values xs; place = place k },
          ),
        )
  ]
    where
      next_place :
          (bs : Cells) (c : Ptr × ℕ) (ys : Cells)
          → place_after bs ys ≡ place_next (length (values (bs ++ c ∷ ys))) (some (length bs))
      next_place bs c [] = ground (arith, length-values (bs ++ c ∷ []), length-append bs (c ∷ []))
      next_place bs c (y ∷ ys) =
          ground (arith, length-values (bs ++ c ∷ y ∷ ys), length-append bs (c ∷ y ∷ ys))

  -- For a list on the heap, `movePrev` returns a list that stands for the ADT's `movePrev` of it.
  pub move_prev-Refines : Refines (LinkedList.move_prev l h) (some (Sequence.move_prev (view l xs)))
  unfolding Sequence.move_prev
  move_prev-Refines = elim (Option-cases l.index) [
    | inl e ↦ (
      l,
      h,
      unfold LinkedList.move_prev in rw (ap is_defined e),
      (xs, is, λ k. record { items = values xs; place = (e ∙ ap place_prev (sym e)) k }),
    )
    | inr (i, e) ↦
        let s = split h l xs i is e in
        let (l', g, run, done) =
          move_prev_lem h l s.focused.before s.focused.here s.focused.value s.focused.behind s.list
            s.index in
        let place : l'.index ≡ place_prev l.index =
          done.1 ∙ (prev_place s.focused.before ∙ ap place_prev (sym s.index)) in
        (
          l',
          g,
          run,
          (
            xs,
            subst (λ k. IsList k l' xs) (sym done.2)
                (subst (IsList h l') (sym s.focused.whole) done.0),
            λ k. record { items = values xs; place = place k },
          ),
        )
  ]
    where
      prev_place : (bs : Cells) → place_before bs ≡ place_prev (some (length bs))
      prev_place [] = refl
      prev_place (b ∷ bs) = refl
