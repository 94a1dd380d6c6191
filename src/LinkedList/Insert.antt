-- ===== src/LinkedList/Insert.antt =====
-- `insertBefore` and `insertAfter` of List.c.
use mathlib.Core.Path.{subst}
use mathlib.Core.List.{append_assoc}
use c_lang_coding_projects.Prelude.{
  ℕ, suc, ◌+◌, ◌-◌, ◌<◌, ◌≡◌, refl, sym, ap, ◌∙◌, ◌≢◌, true, false, ◌||◌, not, none, some, [], ◌∷◌,
  ◌++◌, arith, length, length-append, ltb,
}
use c_lang_coding_projects.LinkedList.Memory.{Ptr, null, Node, node, Heap, on_node}
use c_lang_coding_projects.LinkedList.Chain.{
  Cells, owns, first, last, Chain, SameOutside, Chain-live, first_any, Chain-split, Halves,
  last-append, first-append, owns-append, modify_other, write_other, owns_ne, owns-last_any,
}
use c_lang_coding_projects.LinkedList.Invariant.{
  Returns, Placed, IsList, ptr_at, cursor_eq, load-ok, assign-ok, new_node-ok, write_self,
  modify_self, not-owns_of_none,
}
use c_lang_coding_projects.LinkedList.Splice.{
  fresh_heap, next_heap, node_heap, half_heap, spliced, node_heap_self, next_heap_other,
  node_heap_other, half_heap_self, spliced-SameOutside, Chain-splice,
}
use c_lang_coding_projects.LinkedList.Ends.{shift, prepend_lem, append_lem}
use c_lang_coding_projects.LinkedList.{
  ListObj, is_defined, at, plus_one, insert_before, insert_after,
}

-- What both functions need of the place between `xs` and `(c, w) ∷ ys`, as the heap has it.
module _ (h : Heap) (xs : Cells) (c w : ℕ) (ys : Cells) (n x b : ℕ)
    (ch : Chain h null (xs ++ (c, w) ∷ ys) null) (pos : 0 < length xs) (e : last xs null ≡ b)
    (ne : n ≢ null) (unused : h n ≡ none) where
  pub record Place : Type 0 where
    pub out_x : owns xs n ≡ false
    pub out_y : owns ((c, w) ∷ ys) n ≡ false
    pub b_live : b ≢ null
    pub c_live : c ≢ null
    pub nb : n ≢ b
    pub nc : n ≢ c
    pub bc : b ≢ c
    pub b_node : (m : Node) × (h b ≡ some m)
    pub c_node : h c ≡ some (node w (first ys null) b)
    pub chain : Chain (spliced h n x b c) null (xs ++ (n, x) ∷ (c, w) ∷ ys) null
    pub same : SameOutside (xs ++ (n, x) ∷ (c, w) ∷ ys) h (spliced h n x b c)

  pub place : Place
  place = record {
    out_x = out_x;
    out_y = out_y;
    b_live = live.2;
    c_live = halves.right.0;
    nb = λ q. owns_ne xs n b out_x b_in (sym q);
    nc = λ q. owns_ne ((c, w) ∷ ys) n c out_y (ground arith) (sym q);
    bc = λ q. owns_ne ((c, w) ∷ ys) b c (halves.apart b b_in) (ground arith) (sym q);
    b_node = (live.0, live.1);
    c_node = halves.right.1 ∙ ap (λ q. some (node w (first ys null) q)) e;
    chain = Chain-splice h xs c w ys n x b ch pos e ne out_x out_y;
    same =
        spliced-SameOutside h n x b c (xs ++ (n, x) ∷ (c, w) ∷ ys)
          (ground (arith, owns-append xs ((n, x) ∷ (c, w) ∷ ys) n))
          (ground (arith, owns-append xs ((n, x) ∷ (c, w) ∷ ys) b, b_in))
          (ground (arith, owns-append xs ((n, x) ∷ (c, w) ∷ ys) c));
  }
    where
      halves : Halves h null xs ((c, w) ∷ ys) null
      halves = Chain-split h null xs ((c, w) ∷ ys) null ch

      b_in : owns xs b ≡ true
      b_in = subst (λ q. owns xs q ≡ true) e (owns-last_any xs null pos)

      live : (m : Node) × (h b ≡ some m) × (b ≢ null)
      live = Chain-live h null xs c b halves.left b_in

      out_x : owns xs n ≡ false
      out_x = not-owns_of_none h null xs c n halves.left unused

      out_y : owns ((c, w) ∷ ys) n ≡ false
      out_y = not-owns_of_none h (last xs null) ((c, w) ∷ ys) null n halves.right unused

ptr_at_focus : (xs : Cells) (c w : ℕ) (ys : Cells) → ptr_at (xs ++ (c, w) ∷ ys) (length xs) ≡ some c
ptr_at_focus [] c w ys = refl
ptr_at_focus ((a, v) ∷ xs) c w ys = ptr_at_focus xs c w ys

module _ (h : Heap) (l : ListObj) (fresh x : ℕ) (ne : fresh ≢ null) (unused : h fresh ≡ none)
    (xs : Cells) (v : ℕ) (idx : l.index ≡ some (length xs)) where
  -- The cursor stands behind at least one node.
  insert_before-cursor :
      (ys : Cells)
      → IsList h l (xs ++ (l.cursor, v) ∷ ys)
      → 0 < length xs
      → Returns (insert_before fresh l x h) (λ l' g.
        IsList g l' (xs ++ (fresh, x) ∷ (l.cursor, v) ∷ ys)
        × (l'.index ≡ some (suc (length xs)))
        × SameOutside (xs ++ (fresh, x) ∷ (l.cursor, v) ∷ ys) h g)
  unfolding insert_before
  insert_before-cursor ys is pos = (
    record l { length = l.length + 1; index = plus_one l.index },
    spliced h fresh x b l.cursor,
    rw (
      guard,
      later,
      new_node-ok h fresh ne x,
      assign-ok (fresh_heap h fresh x) fresh ne _ _ (write_self h fresh _),
      load-ok (next_heap h fresh x l.cursor) l.cursor p.c_live _
          (next_heap_other h fresh x b l.cursor l.cursor p.nc ∙ p.c_node),
      assign-ok (next_heap h fresh x l.cursor) fresh ne _ _
          (modify_self (fresh_heap h fresh x) fresh _ ∙ ap (on_node _) (write_self h fresh _)),
      load-ok (node_heap h fresh x b l.cursor) fresh ne _ (node_heap_self h fresh x b l.cursor),
      assign-ok (node_heap h fresh x b l.cursor) b p.b_live _ _
          (node_heap_other h fresh x b l.cursor b p.nb ∙ p.b_node.1),
      load-ok (half_heap h fresh x b l.cursor) fresh ne _
          (half_heap_self h fresh x b l.cursor (λ q. p.nb (sym q))),
      assign-ok (half_heap h fresh x b l.cursor) l.cursor p.c_live _ _ (
          modify_other (node_heap h fresh x b l.cursor) b l.cursor _ p.bc
          ∙ (node_heap_other h fresh x b l.cursor l.cursor p.nc ∙ p.c_node)),
    ),
    (
      record {
        chain = p.chain;
        front =
            is.front
            ∙ (first-append xs ((l.cursor, v) ∷ ys) null
                ∙ (first_any xs l.cursor fresh pos
                    ∙ sym (first-append xs ((fresh, x) ∷ (l.cursor, v) ∷ ys) null)));
        back =
            is.back
            ∙ (last-append xs ((l.cursor, v) ∷ ys) null
                ∙ sym (last-append xs ((fresh, x) ∷ (l.cursor, v) ∷ ys) null));
        count = omega (
          arith,
          is.count,
          length-append xs ((l.cursor, v) ∷ ys),
          length-append xs ((fresh, x) ∷ (l.cursor, v) ∷ ys),
        );
        placed =
            subst (λ i. Placed (plus_one i) l.cursor (xs ++ (fresh, x) ∷ (l.cursor, v) ∷ ys))
              (sym idx) (ptr_at_next xs);
      },
      ap plus_one idx,
      p.same,
    ),
  )
    where
      b : Ptr
      b = last xs null

      p : Place h xs l.cursor v ys fresh x b is.chain pos refl ne unused
      p = place h xs l.cursor v ys fresh x b is.chain pos refl ne unused

      guard : (ltb l.length 1 || not (is_defined l.index)) ≡ false
      guard = ground (arith, is.count, length-append xs ((l.cursor, v) ∷ ys))

      later : at l.index 0 ≡ false
      later = ground arith

      ptr_at_next :
          (zs : Cells)
          → ptr_at (zs ++ (fresh, x) ∷ (l.cursor, v) ∷ ys) (suc (length zs)) ≡ some l.cursor
      ptr_at_next [] = refl
      ptr_at_next ((a, w) ∷ zs) = ptr_at_next zs

  -- The cursor stands before at least one node.
  insert_after-cursor :
      (d w : ℕ) (ys : Cells)
      → IsList h l (xs ++ (l.cursor, v) ∷ (d, w) ∷ ys)
      → Returns (insert_after fresh l x h) (λ l' g.
        IsList g l' (xs ++ (l.cursor, v) ∷ (fresh, x) ∷ (d, w) ∷ ys)
        × (l'.index ≡ l.index)
        × SameOutside (xs ++ (l.cursor, v) ∷ (fresh, x) ∷ (d, w) ∷ ys) h g)
  unfolding insert_after
  insert_after-cursor d w ys is = (
    record l { length = l.length + 1 },
    spliced h fresh x l.cursor d,
    rw (
      guard,
      not_last,
      new_node-ok h fresh ne x,
      load-ok (fresh_heap h fresh x) l.cursor p.b_live _
          (write_other h fresh l.cursor _ p.nb ∙ cur),
      assign-ok (fresh_heap h fresh x) fresh ne _ _ (write_self h fresh _),
      assign-ok (next_heap h fresh x d) fresh ne _ _
          (modify_self (fresh_heap h fresh x) fresh _ ∙ ap (on_node _) (write_self h fresh _)),
      load-ok (node_heap h fresh x l.cursor d) fresh ne _ (node_heap_self h fresh x l.cursor d),
      assign-ok (node_heap h fresh x l.cursor d) l.cursor p.b_live _ _
          (node_heap_other h fresh x l.cursor d l.cursor p.nb ∙ p.b_node.1),
      load-ok (half_heap h fresh x l.cursor d) fresh ne _
          (half_heap_self h fresh x l.cursor d (λ q. p.nb (sym q))),
      assign-ok (half_heap h fresh x l.cursor d) d p.c_live _ _ (
          modify_other (node_heap h fresh x l.cursor d) l.cursor d _ p.bc
          ∙ (node_heap_other h fresh x l.cursor d d p.nc ∙ p.c_node)),
    ),
    (
      record {
        chain =
            subst (λ zs. Chain (spliced h fresh x l.cursor d) null zs null)
              (append_assoc xs ((l.cursor, v) ∷ []) ((fresh, x) ∷ (d, w) ∷ ys)) p.chain;
        front =
            is.front
            ∙ (first-append xs ((l.cursor, v) ∷ (d, w) ∷ ys) null
                ∙ sym (first-append xs ((l.cursor, v) ∷ (fresh, x) ∷ (d, w) ∷ ys) null));
        back =
            is.back
            ∙ (last-append xs ((l.cursor, v) ∷ (d, w) ∷ ys) null
                ∙ sym (last-append xs ((l.cursor, v) ∷ (fresh, x) ∷ (d, w) ∷ ys) null));
        count = omega (
          arith,
          is.count,
          length-append xs ((l.cursor, v) ∷ (d, w) ∷ ys),
          length-append xs ((l.cursor, v) ∷ (fresh, x) ∷ (d, w) ∷ ys),
        );
        placed =
            subst (λ i. Placed i l.cursor (xs ++ (l.cursor, v) ∷ (fresh, x) ∷ (d, w) ∷ ys))
              (sym idx) (ptr_at_focus xs l.cursor v _);
      },
      refl,
      subst (λ zs. SameOutside zs h (spliced h fresh x l.cursor d))
          (append_assoc xs ((l.cursor, v) ∷ []) ((fresh, x) ∷ (d, w) ∷ ys)) p.same,
    ),
  )
    where
      chain : Chain h null ((xs ++ (l.cursor, v) ∷ []) ++ (d, w) ∷ ys) null
      chain =
          subst (λ zs. Chain h null zs null)
            (sym (append_assoc xs ((l.cursor, v) ∷ []) ((d, w) ∷ ys))) is.chain

      pos : 0 < length (xs ++ (l.cursor, v) ∷ [])
      pos = omega (arith, length-append xs ((l.cursor, v) ∷ []))

      p :
          Place h
            (xs ++ (l.cursor, v) ∷ [])
            d
            w
            ys
            fresh
            x
            l.cursor
            chain
            pos
            (last-append xs ((l.cursor, v) ∷ []) null)
            ne
            unused
      p =
          place h (xs ++ (l.cursor, v) ∷ []) d w ys fresh x l.cursor chain pos
            (last-append xs ((l.cursor, v) ∷ []) null) ne unused

      cur : h l.cursor ≡ some (node v d (last xs null))
      cur = (Chain-split h null xs ((l.cursor, v) ∷ (d, w) ∷ ys) null is.chain).right.1

      guard : (ltb l.length 1 || not (is_defined l.index)) ≡ false
      guard = ground (arith, is.count, length-append xs ((l.cursor, v) ∷ (d, w) ∷ ys))

      not_last : at l.index (l.length - 1) ≡ false
      not_last = ground (arith, is.count, length-append xs ((l.cursor, v) ∷ (d, w) ∷ ys))

module _ (h : Heap) (l : ListObj) (fresh x : ℕ) (ne : fresh ≢ null) (unused : h fresh ≡ none) where
  -- `insertBefore` puts one new node right before the cursor's node, keeps the cursor on its node,
  -- and writes to the list's own nodes and to the new one only.
  pub insert_before_lem :
      (xs : Cells) (c v : ℕ) (ys : Cells)
      → IsList h l (xs ++ (c, v) ∷ ys)
      → l.index ≡ some (length xs)
      → Returns (insert_before fresh l x h) (λ l' g.
        IsList g l' (xs ++ (fresh, x) ∷ (c, v) ∷ ys)
        × (l'.index ≡ some (suc (length xs)))
        × SameOutside (xs ++ (fresh, x) ∷ (c, v) ∷ ys) h g)
  unfolding insert_before
  insert_before_lem [] c v ys is idx =
      let (l', g, run, done) = prepend_lem h l fresh x ne unused ((c, v) ∷ ys) is in
      let guard : (ltb l.length 1 || not (is_defined l.index)) ≡ false = ground (arith, is.count) in
      let front : at l.index 0 ≡ true = ground arith in
      (l', g, rw (guard, front) run, (done.0, done.1 ∙ ap shift idx, done.2))
  insert_before_lem ((a, w) ∷ xs) c v ys is idx =
      let cur = cursor_eq l.index l.cursor ((a, w) ∷ xs) c v ys is.placed idx in
      subst
        (λ q.
          IsList h l ((a, w) ∷ xs ++ (q, v) ∷ ys)
          → Returns (insert_before fresh l x h) (λ l' g.
            IsList g l' ((a, w) ∷ xs ++ (fresh, x) ∷ (q, v) ∷ ys)
            × (l'.index ≡ some (suc (suc (length xs))))
            × SameOutside ((a, w) ∷ xs ++ (fresh, x) ∷ (q, v) ∷ ys) h g))
        cur
        (λ is'. insert_before-cursor h l fresh x ne unused ((a, w) ∷ xs) v idx ys is' (omega arith))
        is

  -- `insertAfter` puts one new node right behind the cursor's node, leaves the cursor, and writes
  -- to the list's own nodes and to the new one only.
  pub insert_after_lem :
      (xs : Cells) (c v : ℕ) (ys : Cells)
      → IsList h l (xs ++ (c, v) ∷ ys)
      → l.index ≡ some (length xs)
      → Returns (insert_after fresh l x h) (λ l' g.
        IsList g l' (xs ++ (c, v) ∷ (fresh, x) ∷ ys)
        × (l'.index ≡ l.index)
        × SameOutside (xs ++ (c, v) ∷ (fresh, x) ∷ ys) h g)
  unfolding insert_after
  insert_after_lem xs c v [] is idx =
      let (l', g, run, done) = append_lem h l fresh x ne unused (xs ++ (c, v) ∷ []) is in
      let guard : (ltb l.length 1 || not (is_defined l.index)) ≡ false =
        ground (arith, is.count, length-append xs ((c, v) ∷ [])) in
      let last_one : at l.index (l.length - 1) ≡ true =
        ground (arith, is.count, length-append xs ((c, v) ∷ [])) in
      let joined = append_assoc xs ((c, v) ∷ []) ((fresh, x) ∷ []) in
      (
        l',
        g,
        rw (guard, last_one) run,
        (subst (IsList g l') joined done.0, done.1, subst (λ zs. SameOutside zs h g) joined done.2),
      )
  insert_after_lem xs c v ((d, w) ∷ ys) is idx =
      subst
        (λ q.
          IsList h l (xs ++ (q, v) ∷ (d, w) ∷ ys)
          → Returns (insert_after fresh l x h) (λ l' g.
            IsList g l' (xs ++ (q, v) ∷ (fresh, x) ∷ (d, w) ∷ ys)
            × (l'.index ≡ l.index)
            × SameOutside (xs ++ (q, v) ∷ (fresh, x) ∷ (d, w) ∷ ys) h g))
        (cursor_eq l.index l.cursor xs c v ((d, w) ∷ ys) is.placed idx)
        (λ is'. insert_after-cursor h l fresh x ne unused xs v idx d w ys is') is
