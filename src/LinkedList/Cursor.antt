-- ===== src/LinkedList/Cursor.antt =====
-- The access functions and the cursor moves of List.c.
use mathlib.Core.Path.{subst}
use c_lang_coding_projects.Prelude.{
  ℕ, suc, ◌-◌, ◌≡◌, ◌≢◌, refl, sym, ap, ◌∙◌, true, Option, none, some, [], ◌∷◌, ◌++◌, arith, length,
  length-append, ltb,
}
use c_lang_coding_projects.LinkedList.Memory.{Ptr, null, node, Heap, ok, load}
use c_lang_coding_projects.LinkedList.Chain.{Cells, first, last, Chain-split, Halves}
use c_lang_coding_projects.LinkedList.Invariant.{
  Returns, Placed, IsList, ptr_at, cursor_eq, load-ok, guard_passes, at_place, at_other,
}
use c_lang_coding_projects.LinkedList.{
  ListObj, is_defined, minus_one, plus_one, get, move_front, move_back, move_prev, move_next,
}

ptr_at-last : (xs : Cells) (a v : ℕ) → ptr_at ((a, v) ∷ xs) (length xs) ≡ some (last xs a)
ptr_at-last [] a v = refl
ptr_at-last ((b, w) ∷ xs) a v = ptr_at-last xs b w

module _ (h : Heap) (l : ListObj) (a v : ℕ) (xs : Cells) (is : IsList h l ((a, v) ∷ xs)) where
  some_length : ltb 0 l.length ≡ true
  some_length = ground (arith, is.count)

  -- `moveFront` of a list that is not empty puts the cursor on the first node.
  pub move_front_lem : IsList h (move_front l) ((a, v) ∷ xs) × ((move_front l).index ≡ some 0)
  unfolding move_front
  move_front_lem = rw some_length (
    record {
      chain = is.chain;
      front = is.front;
      back = is.back;
      count = is.count;
      placed = ap (λ q. some q) (sym is.front);
    },
    refl,
  )

  -- `moveBack` of a list that is not empty puts the cursor on the last node.
  pub move_back_lem :
      IsList h (move_back l) ((a, v) ∷ xs) × ((move_back l).index ≡ some (length xs))
  unfolding move_back
  move_back_lem =
      let place : l.length - 1 ≡ length xs = omega (arith, is.count) in
      rw some_length (
        record {
          chain = is.chain;
          front = is.front;
          back = is.back;
          count = is.count;
          placed = rw place (ptr_at-last xs a v ∙ ap (λ q. some q) (sym is.back));
        },
        ap (λ q. some q) place,
      )

-- The place of the cursor after one step back, and after one step on.
abbrev pub place_before : Cells → Option ℕ
place_before [] = none
place_before (x ∷ xs) = some (length xs)

abbrev pub place_after : Cells → Cells → Option ℕ
place_after xs [] = none
place_after xs (y ∷ ys) = some (suc (length xs))

ptr_at-before :
    (xs : Cells) (a v : ℕ) (ys : Cells) → ptr_at ((a, v) ∷ xs ++ ys) (length xs) ≡ some (last xs a)
ptr_at-before [] a v ys = refl
ptr_at-before ((b, w) ∷ xs) a v ys = ptr_at-before xs b w ys

ptr_at-after :
    (xs : Cells) (c d : Ptr × ℕ) (ys : Cells)
    → ptr_at (xs ++ c ∷ d ∷ ys) (suc (length xs)) ≡ some d.0
ptr_at-after [] c d ys = refl
ptr_at-after (x ∷ xs) c d ys = ptr_at-after xs c d ys

defined : (i : Option ℕ) (k : ℕ) → i ≡ some k → is_defined i ≡ true
defined none k e = cc
defined (some i) k e = refl

module _ (h : Heap) (l : ListObj) (xs : Cells) (c v : ℕ) (ys : Cells)
    (is : IsList h l (xs ++ (c, v) ∷ ys)) (idx : l.index ≡ some (length xs)) where
  halves : Halves h null xs ((c, v) ∷ ys) null
  halves = Chain-split h null xs ((c, v) ∷ ys) null is.chain

  at_cursor : l.cursor ≡ c
  at_cursor = cursor_eq l.index l.cursor xs c v ys is.placed idx

  live : l.cursor ≢ null
  live e = halves.right.0 (sym at_cursor ∙ e)

  load-cursor : load l.cursor h ≡ ok (node v (first ys null) (last xs null)) h
  load-cursor = load-ok h l.cursor live _ (ap h at_cursor ∙ halves.right.1)

  some_nodes : l.length ≡ suc (l.length - 1)
  some_nodes = omega (arith, is.count, length-append xs ((c, v) ∷ ys))

  -- `get` returns the value at the cursor.
  pub get_lem : get l h ≡ ok v h
  unfolding get
  get_lem =
      rw (guard_passes l.length l.index (l.length - 1) (length xs) some_nodes idx, load-cursor)

  -- The list with the cursor at another place.
  moved :
      (i : Option ℕ) (q : Ptr)
      → Placed i q (xs ++ (c, v) ∷ ys)
      → IsList h (record l { index = i; cursor = q }) (xs ++ (c, v) ∷ ys)
  moved i q p = record {
    chain = is.chain;
    front = is.front;
    back = is.back;
    count = is.count;
    placed = p;
  }

-- `movePrev` moves the cursor to the node before it, or off the list, and leaves the heap.
pub move_prev_lem :
    (h : Heap) (l : ListObj) (xs : Cells) (c v : ℕ) (ys : Cells)
    → IsList h l (xs ++ (c, v) ∷ ys)
    → l.index ≡ some (length xs)
    → Returns
        (move_prev l h)
        (λ l' g. IsList h l' (xs ++ (c, v) ∷ ys) × (l'.index ≡ place_before xs) × (g ≡ h))
unfolding move_prev
move_prev_lem h l [] c v ys is idx = (
  record l { index = none; cursor = null },
  h,
  rw (defined l.index 0 idx, at_place l.index 0 0 idx refl),
  (moved h l [] c v ys is idx none null refl, refl, refl),
)
move_prev_lem h l ((a, w) ∷ xs) c v ys is idx = (
  record l { index = minus_one l.index; cursor = last xs a },
  h,
  rw (
    defined l.index _ idx,
    at_other l.index (suc (length xs)) 0 idx (omega arith),
    load-cursor h l ((a, w) ∷ xs) c v ys is idx,
  ),
  (
    moved h l ((a, w) ∷ xs) c v ys is idx (minus_one l.index) (last xs a) (
        subst (λ i. Placed (minus_one i) (last xs a) ((a, w) ∷ xs ++ (c, v) ∷ ys)) (sym idx)
          (ptr_at-before xs a w ((c, v) ∷ ys))),
    ap minus_one idx,
    refl,
  ),
)

-- `moveNext` moves the cursor to the node behind it, or off the list, and leaves the heap.
pub move_next_lem :
    (h : Heap) (l : ListObj) (xs : Cells) (c v : ℕ) (ys : Cells)
    → IsList h l (xs ++ (c, v) ∷ ys)
    → l.index ≡ some (length xs)
    → Returns
        (move_next l h)
        (λ l' g. IsList h l' (xs ++ (c, v) ∷ ys) × (l'.index ≡ place_after xs ys) × (g ≡ h))
unfolding move_next
move_next_lem h l xs c v [] is idx = (
  record l { index = none; cursor = null },
  h,
  rw (
    defined l.index _ idx,
    at_place l.index (length xs) (l.length - 1) idx
        (omega (arith, is.count, length-append xs ((c, v) ∷ []))),
  ),
  (moved h l xs c v [] is idx none null refl, refl, refl),
)
move_next_lem h l xs c v ((d, w) ∷ ys) is idx = (
  record l { index = plus_one l.index; cursor = d },
  h,
  rw (
    defined l.index _ idx,
    at_other l.index (length xs) (l.length - 1) idx
        (omega (arith, is.count, length-append xs ((c, v) ∷ (d, w) ∷ ys))),
    load-cursor h l xs c v ((d, w) ∷ ys) is idx,
  ),
  (
    moved h l xs c v ((d, w) ∷ ys) is idx (plus_one l.index) d (
        subst (λ i. Placed (plus_one i) d (xs ++ (c, v) ∷ (d, w) ∷ ys)) (sym idx)
          (ptr_at-after xs (c, v) (d, w) ys)),
    ap plus_one idx,
    refl,
  ),
)
