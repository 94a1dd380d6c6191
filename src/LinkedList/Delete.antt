-- ===== src/LinkedList/Delete.antt =====
-- `delete` of List.c, on all its branches.
use mathlib.Core.Path.{subst}
use mathlib.Core.List.{append-nil}
use c_lang_coding_projects.Prelude.{
  ℕ, suc, ◌-◌, ◌≡◌, refl, sym, ap, ◌∙◌, true, false, ◌||◌, not, Option, none, some, [], ◌∷◌, ◌++◌,
  arith, if◌then◌else◌, length, length-append, ltb,
}
use c_lang_coding_projects.LinkedList.Memory.{Ptr, null, Heap, fault, load}
use c_lang_coding_projects.LinkedList.Chain.{Cells, SameOutside}
use c_lang_coding_projects.LinkedList.Invariant.{
  Returns, Placed, IsList, cursor_eq, guard_passes, at_place, at_other,
}
use c_lang_coding_projects.LinkedList.DeleteFront.{delete_front_lem}
use c_lang_coding_projects.LinkedList.DeleteBack.{delete_back_lem}
use c_lang_coding_projects.LinkedList.DeleteCursor.{delete-cursor}
use c_lang_coding_projects.LinkedList.{ListObj, is_defined, at, minus_one, get}
use c_lang_coding_projects.LinkedList.Removal.{delete}

-- The `index` that `delete` leaves, for a cursor between the nodes `xs` and `ys`: with nodes on both
-- sides it is not -1.
abbrev pub left_index : Cells → Cells → Option ℕ
left_index [] ys = none
left_index (x ∷ xs) [] = none
left_index (x ∷ xs) (y ∷ ys) = some (length xs)

abbrev Deleted : Heap → Cells → Ptr → ℕ → Cells → ListObj → Heap → Type 0
Deleted h xs c v ys l' g =
    IsList g (record l' { index = none }) (xs ++ ys)
    × (l'.cursor ≡ null)
    × (l'.index ≡ left_index xs ys)
    × (g c ≡ none)
    × SameOutside (xs ++ (c, v) ∷ ys) h g

undefined_place : (i : Option ℕ) (c : Ptr) (xs : Cells) → Placed i c xs → i ≡ none → c ≡ null
undefined_place none c xs p e = p
undefined_place (some i) c xs p e = cc

-- A list whose cursor is undefined, with `index` written out.
IsList-none :
    (g : Heap) (l : ListObj) (xs : Cells)
    → IsList g l xs
    → l.index ≡ none
    → IsList g (record l { index = none }) xs × (l.cursor ≡ null)
IsList-none g l xs is e =
    let c = undefined_place l.index l.cursor xs is.placed e in
    (record { chain = is.chain; front = is.front; back = is.back; count = is.count; placed = c }, c)

delete_inner :
    (h : Heap) (l : ListObj) (a b : Ptr × ℕ) (xs : Cells) (v : ℕ) (ys : Cells)
    → IsList h l (a ∷ xs ++ (l.cursor, v) ∷ b ∷ ys)
    → l.index ≡ some (suc (length xs))
    → Returns (delete l h) (Deleted h (a ∷ xs) l.cursor v (b ∷ ys))
delete_inner h l a (d, w) xs v ys is idx =
    let (l', g, run, done) = delete-cursor h l (a ∷ xs) v d w ys is idx (omega arith) in
    (l', g, run, (done.0, done.1, done.2 ∙ ap minus_one idx, done.3, done.4))

module _ (h : Heap) (l : ListObj) where
  -- `delete` unlinks and frees the cursor's node and keeps the others in order. The cursor is `NULL`
  -- then, but `index` is -1 only if the node was the first or the last one.
  pub delete_lem :
      (xs : Cells) (c v : ℕ) (ys : Cells)
      → IsList h l (xs ++ (c, v) ∷ ys)
      → l.index ≡ some (length xs)
      → Returns (delete l h) (λ l' g.
        IsList g (record l' { index = none }) (xs ++ ys)
        × (l'.cursor ≡ null)
        × (l'.index ≡ left_index xs ys)
        × (g c ≡ none)
        × SameOutside (xs ++ (c, v) ∷ ys) h g)
  unfolding delete
  delete_lem [] c v ys is idx =
      let (l', g, run, done) = delete_front_lem h l c v ys is in
      let guard : (ltb l.length 1 || not (is_defined l.index)) ≡ false =
        guard_passes l.length l.index (length ys) 0 is.count idx in
      let front : at l.index 0 ≡ true = at_place l.index 0 0 idx refl in
      let gone : l'.index ≡ none = done.1 ∙ ap minus_one idx in
      let plain = IsList-none g l' ys done.0 gone in
      (l', g, rw (guard, front) run, (plain.0, plain.1, gone, done.2, done.3))
  delete_lem (x ∷ xs) c v [] is idx =
      let (l', g, run, done) = delete_back_lem h l c v (x ∷ xs) is in
      let count : l.length - 1 ≡ suc (length xs) =
        omega (arith, is.count, length-append xs ((c, v) ∷ [])) in
      let guard =
        guard_passes l.length l.index (l.length - 1) (suc (length xs)) (omega arith) idx in
      let not_front = at_other l.index (suc (length xs)) 0 idx (omega arith) in
      let at_end = at_place l.index (suc (length xs)) (l.length - 1) idx (sym count) in
      let here = at_place l.index (suc (length xs)) (suc (length xs)) idx refl in
      let gone : l'.index ≡ none = done.1 ∙ ap (λ b. if b then none else l.index) here in
      let plain = IsList-none g l' (x ∷ xs) done.0 gone in
      (
        l',
        g,
        rw (guard, not_front, at_end) run,
        (
          subst (IsList g (record l' { index = none })) (sym (append-nil (x ∷ xs))) plain.0,
          plain.1,
          gone,
          done.2,
          done.3,
        ),
      )
  delete_lem (x ∷ xs) c v (y ∷ ys) is idx =
      subst
        (λ q.
          IsList h l (x ∷ xs ++ (q, v) ∷ y ∷ ys)
          → Returns (delete l h) (Deleted h (x ∷ xs) q v (y ∷ ys)))
        (cursor_eq l.index l.cursor (x ∷ xs) c v (y ∷ ys) is.placed idx)
        (λ is'. delete_inner h l x y xs v ys is' idx) is

  -- After `delete` of a node with nodes on both sides, `get` passes its test of the precondition
  -- and reads through the `NULL` cursor.
  pub delete-get-fault :
      (a b : Ptr × ℕ) (xs : Cells) (c v : ℕ) (ys : Cells)
      → IsList h l (a ∷ xs ++ (c, v) ∷ b ∷ ys)
      → l.index ≡ some (suc (length xs))
      → Returns (delete l h) (λ l' g. get l' g ≡ fault)
  unfolding get load
  delete-get-fault a b xs c v ys is idx =
      let (l', g, run, done) = delete_lem (a ∷ xs) c v (b ∷ ys) is idx in
      let guard =
        guard_passes l'.length l'.index (length (xs ++ b ∷ ys)) (length xs) done.0.count done.2 in
      (l', g, run, rw (guard, done.1))
