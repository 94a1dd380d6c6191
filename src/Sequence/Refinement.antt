-- ===== src/Sequence/Refinement.antt =====
-- List.c (LinkedList) against the List ADT (Sequence): `view` is the sequence that a list on the heap
-- stands for.
use mathlib.Core.Path.{subst, ap₂}
use c_lang_coding_projects.Prelude.{
  ℕ, zero, suc, ◌≡◌, ◌≢◌, refl, sym, ap, ◌∙◌, inl, inr, Bool-cases, true, ◌||◌, not, Option, none,
  some, [], ◌∷◌, ◌++◌, ltb, length, Option-cases,
}
use c_lang_coding_projects.LinkedList
use c_lang_coding_projects.LinkedList.{ListObj, is_defined}
use c_lang_coding_projects.LinkedList.Memory.{Ptr, null, Heap, Run, exited}
use c_lang_coding_projects.LinkedList.Chain.{Cells}
use c_lang_coding_projects.LinkedList.Invariant.{Returns, Placed, IsList, ptr_at}
use c_lang_coding_projects.LinkedList.Walk.{values, values-append}
use c_lang_coding_projects.LinkedList.Ends.{shift, prepend_lem, append_lem}
use c_lang_coding_projects.LinkedList.Insert.{insert_before_lem, insert_after_lem}
use c_lang_coding_projects.Sequence
use c_lang_coding_projects.Sequence.{
  Seq, insert_at, insert_after_place, insert_before_place, get_place, place_prev, place_next,
  place_shift,
}

-- The sequence that a list with the nodes `xs` stands for.
abbrev pub view : ListObj → Cells → Seq ℕ
view l xs = record { items = values xs; place = l.index }

-- A run of List.c and what the ADT says of the call: outside the precondition the process ends, and
-- inside the run returns a list that stands for the ADT's result.
abbrev pub Refines : Run ListObj → Option (Seq ℕ) → Type 0
Refines r none = r ≡ exited
Refines r (some t) = Returns r (λ l g. (ys : Cells) × IsList g l ys × (view l ys ≡ t))

-- The node that `index` counts to.
pub record Focus (xs : Cells) (i : ℕ) : Type 0 where
  pub before : Cells
  pub here : Ptr
  pub value : ℕ
  pub behind : Cells
  pub whole : xs ≡ before ++ (here, value) ∷ behind
  pub place : i ≡ length before

focus : (xs : Cells) (i : ℕ) (c : Ptr) → ptr_at xs i ≡ some c → Focus xs i
focus [] i c e = cc
focus ((a, v) ∷ xs) zero c e = record {
  before = [];
  here = a;
  value = v;
  behind = xs;
  whole = refl;
  place = refl;
}
focus ((a, v) ∷ xs) (suc i) c e =
    let f = focus xs i c e in
    record {
      before = (a, v) ∷ f.before;
      here = f.here;
      value = f.value;
      behind = f.behind;
      whole = ap (λ l. (a, v) ∷ l) f.whole;
      place = ap suc f.place;
    }

values_insert :
    (xs : Cells) (x : Ptr × ℕ) (ys : Cells)
    → values (xs ++ x ∷ ys) ≡ insert_at (values (xs ++ ys)) (length xs) x.1
values_insert [] x [] = refl
values_insert [] x (y ∷ ys) = refl
values_insert (a ∷ xs) x ys = ap (λ l. a.1 ∷ l) (values_insert xs x ys)

values_behind :
    (xs : Cells) (c x : Ptr × ℕ) (ys : Cells)
    → values (xs ++ c ∷ x ∷ ys) ≡ insert_at (values (xs ++ c ∷ ys)) (suc (length xs)) x.1
values_behind [] c x [] = refl
values_behind [] c x (y ∷ ys) = refl
values_behind (a ∷ xs) c x ys = ap (λ l. a.1 ∷ l) (values_behind xs c x ys)

module _ (h : Heap) (l : ListObj) (fresh x : ℕ) (ne : fresh ≢ null) (unused : h fresh ≡ none)
    (xs : Cells) (is : IsList h l xs) where
  -- `prepend` with a new node refines the ADT's `prepend`.
  pub prepend-Refines :
      Refines (LinkedList.prepend fresh l x h) (some (Sequence.prepend (view l xs) x))
  unfolding Sequence.prepend
  prepend-Refines =
      let (l', g, run, done) = prepend_lem h l fresh x ne unused xs is in
      (
        l',
        g,
        run,
        (
          (fresh, x) ∷ xs,
          done.0,
          λ i. record { items = x ∷ values xs; place = (done.1 ∙ shifts l.index) i },
        ),
      )
    where
      shifts : (i : Option ℕ) → shift i ≡ place_shift i
      shifts none = refl
      shifts (some i) = refl

  -- `append` with a new node refines the ADT's `append`.
  pub append-Refines :
      Refines (LinkedList.append fresh l x h) (some (Sequence.append (view l xs) x))
  unfolding Sequence.append
  append-Refines =
      let (l', g, run, done) = append_lem h l fresh x ne unused xs is in
      (
        l',
        g,
        run,
        (
          xs ++ (fresh, x) ∷ [],
          done.0,
          λ i. record { items = values-append xs ((fresh, x) ∷ []) i; place = done.1 i },
        ),
      )

pub guard_stops : (n : ℕ) (i : Option ℕ) → i ≡ none → (ltb n 1 || not (is_defined i)) ≡ true
guard_stops n none e = elim (Bool-cases (ltb n 1)) [ inl q ↦ rw q | inr q ↦ rw q ]
guard_stops n (some i) e = cc

-- A defined cursor, with the nodes on both sides of it.
pub record Split (h : Heap) (l : ListObj) (xs : Cells) (i : ℕ) : Type 0 where
  pub focused : Focus xs i
  open focused use *
  pub list : IsList h l (focused.before ++ (focused.here, focused.value) ∷ focused.behind)
  pub index : l.index ≡ some (length focused.before)

pub split :
    (h : Heap) (l : ListObj) (xs : Cells) (i : ℕ)
    → IsList h l xs
    → l.index ≡ some i
    → Split h l xs i
split h l xs i is e =
    let f = focus xs i l.cursor (subst (λ o. Placed o l.cursor xs) e is.placed) in
    record {
      focused = f;
      list = subst (IsList h l) f.whole is;
      index = e ∙ ap (λ n. some n) f.place;
    }

module _ (h : Heap) (l : ListObj) (fresh x : ℕ) (ne : fresh ≢ null) (unused : h fresh ≡ none)
    (xs : Cells) (is : IsList h l xs) where
  -- For a list on the heap and an unused address, `insertAfter` refines the ADT's `insertAfter`: with a
  -- defined cursor it returns a list that stands for the ADT's result, and else the process ends.
  pub insert_after-Refines :
      Refines (LinkedList.insert_after fresh l x h) (Sequence.insert_after (view l xs) x)
  unfolding Sequence.insert_after
  insert_after-Refines = elim (Option-cases l.index) [
    | inl e ↦
        subst
          (λ o. Refines (LinkedList.insert_after fresh l x h) (insert_after_place (view l xs) o x))
          (sym e) (unfold LinkedList.insert_after in rw (guard_stops l.length l.index e))
    | inr (i, e) ↦
        let s = split h l xs i is e in
        let (l', g, run, done) =
          insert_after_lem h l fresh x ne unused s.before s.here s.value s.behind s.list s.index in
        let items =
          values_behind s.before (s.here, s.value) (fresh, x) s.behind
          ∙ ap₂ (λ ys n. insert_at (values ys) (suc n) x) (sym s.whole) (sym s.place) in
        subst
          (λ o. Refines (LinkedList.insert_after fresh l x h) (insert_after_place (view l xs) o x))
          (sym e) (l', g, run, (_, done.0, λ k. record { items = items k; place = done.1 k }))
  ]

  -- For a list on the heap and an unused address, `insertBefore` refines the ADT's `insertBefore`: with
  -- a defined cursor it returns a list that stands for the ADT's result, and else the process ends.
  pub insert_before-Refines :
      Refines (LinkedList.insert_before fresh l x h) (Sequence.insert_before (view l xs) x)
  unfolding Sequence.insert_before
  insert_before-Refines = elim (Option-cases l.index) [
    | inl e ↦
        subst
          (λ o.
            Refines (LinkedList.insert_before fresh l x h) (insert_before_place (view l xs) o x))
          (sym e) (unfold LinkedList.insert_before in rw (guard_stops l.length l.index e))
    | inr (i, e) ↦
        let s = split h l xs i is e in
        let (l', g, run, done) =
          insert_before_lem h l fresh x ne unused s.before s.here s.value s.behind s.list s.index in
        let items =
          values_insert s.before (fresh, x) ((s.here, s.value) ∷ s.behind)
          ∙ ap₂ (λ ys n. insert_at (values ys) n x) (sym s.whole) (sym s.place) in
        let place = done.1 ∙ ap (λ n. some (suc n)) (sym s.place) in
        subst
          (λ o.
            Refines (LinkedList.insert_before fresh l x h) (insert_before_place (view l xs) o x))
          (sym e) (l', g, run, (_, done.0, λ k. record { items = items k; place = place k }))
  ]
