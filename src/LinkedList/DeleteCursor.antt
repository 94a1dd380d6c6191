-- ===== src/LinkedList/DeleteCursor.antt =====
-- `delete` of List.c.
use c_lang_coding_projects.Prelude.{
  ℕ, ◌-◌, ◌<◌, ◌≡◌, refl, sym, ap, ◌∙◌, ◌≢◌, true, false, ◌||◌, not, none, some, ◌∷◌, ◌++◌, arith,
  length, length-append, ltb,
}
use c_lang_coding_projects.LinkedList.Memory.{Ptr, null, Node, node, Heap, write, on_node, modify}
use c_lang_coding_projects.LinkedList.Chain.{
  Cells, owns, last, Chain, SameOutside, Chain-live, first_any, Chain-split, Halves, Chain-write,
  Chain-modify, Chain-join, relink_back, relink_front, last-append, first-append, owns-append,
  modify_other, owns_ne, owns-last_any, not-owns_of_Apart, SameOutside-write, SameOutside-modify,
}
use c_lang_coding_projects.LinkedList.Invariant.{
  Returns, IsList, load-ok, assign-ok, free_node-ok, write_self, modify_self,
}
use c_lang_coding_projects.LinkedList.{ListObj, is_defined, at, minus_one}
use c_lang_coding_projects.LinkedList.Removal.{delete}

-- `index` counts the nodes `xs`, and there are nodes on both sides.
module _ (h : Heap) (l : ListObj) (xs : Cells) (v d w : ℕ) (ys : Cells)
    (is : IsList h l (xs ++ (l.cursor, v) ∷ (d, w) ∷ ys)) (idx : l.index ≡ some (length xs))
    (pos : 0 < length xs) where
  abbrev b : Ptr
  b = last xs null

  abbrev c : Ptr
  c = l.cursor

  -- The neighbours are linked to each other; the node's own pointers are cleared; it is freed.
  abbrev past_back : Heap
  past_back = modify h b (λ n. record n { next = d })

  abbrev past : Heap
  past = modify past_back d (λ n. record n { prev = b })

  abbrev unlinked : Heap
  unlinked =
      modify (modify past c (λ n. record n { next = null })) c (λ n. record n { prev = null })

  abbrev freed : Heap
  freed = write unlinked c none

  halves : Halves h null xs ((c, v) ∷ (d, w) ∷ ys) null
  halves = Chain-split h null xs ((c, v) ∷ (d, w) ∷ ys) null is.chain

  b_in : owns xs b ≡ true
  b_in = owns-last_any xs null pos

  b_live : (m : Node) × (h b ≡ some m) × (b ≢ null)
  b_live = Chain-live h null xs c b halves.left b_in

  b_out : owns ((c, v) ∷ (d, w) ∷ ys) b ≡ false
  b_out = halves.apart b b_in

  bc : b ≢ c
  bc e = owns_ne ((c, v) ∷ (d, w) ∷ ys) b c b_out (ground arith) (sym e)

  dc : d ≢ c
  dc = owns_ne ((d, w) ∷ ys) c d halves.right.2 (ground arith)

  bd : b ≢ d
  bd e = owns_ne ((c, v) ∷ (d, w) ∷ ys) b d b_out (ground arith) (sym e)

  c_out : owns xs c ≡ false
  c_out = not-owns_of_Apart xs ((c, v) ∷ (d, w) ∷ ys) c halves.apart (ground arith)

  d_out : owns xs d ≡ false
  d_out = not-owns_of_Apart xs ((c, v) ∷ (d, w) ∷ ys) d halves.apart (ground arith)

  past_back_here : past_back c ≡ some (node v d b)
  past_back_here = modify_other h b c _ bc ∙ halves.right.1

  past_here : past c ≡ some (node v d b)
  past_here = modify_other past_back d c _ dc ∙ past_back_here

  freed-Chain : Chain freed null (xs ++ (d, w) ∷ ys) null
  freed-Chain =
      Chain-join freed null xs ((d, w) ∷ ys) null
        (spare null xs d c_out
          (Chain-modify past_back null xs d d _ (relink_back h null xs c d halves.left) d_out))
        (spare b ((d, w) ∷ ys) null halves.right.2 (
          relink_front past_back c b ((d, w) ∷ ys) null null
            (Chain-modify h c ((d, w) ∷ ys) null b _ halves.right.3 (ground (arith, b_out)))))
        (λ e i. ground (arith, halves.apart e))
    where
      spare :
          (p : Ptr) (zs : Cells) (n : Ptr)
          → owns zs c ≡ false
          → Chain past p zs n
          → Chain freed p zs n
      spare p zs n out ch =
          Chain-write unlinked p zs n c none
            (Chain-modify _ p zs n c _ (Chain-modify past p zs n c _ ch out) out) out

  -- What `delete` leaves, with the list's own cursor as the code sets it.
  pub delete-cursor : Returns (delete l h) (λ l' g.
      IsList g (record l' { index = none }) (xs ++ (d, w) ∷ ys)
      × (l'.cursor ≡ null)
      × (l'.index ≡ minus_one l.index)
      × (g l.cursor ≡ none)
      × SameOutside (xs ++ (l.cursor, v) ∷ (d, w) ∷ ys) h g)
  unfolding delete
  delete-cursor = (
    record l { cursor = null; index = minus_one l.index; length = l.length - 1 },
    freed,
    rw (
      guard,
      not_front,
      not_back,
      load-ok h c halves.right.0 _ halves.right.1,
      assign-ok h b b_live.2 _ _ b_live.1,
      load-ok past_back c halves.right.0 _ past_back_here,
      assign-ok past_back d halves.right.3.0 _ _ (modify_other h b d _ bd ∙ halves.right.3.1),
      assign-ok past c halves.right.0 _ _ past_here,
      assign-ok _ c halves.right.0 _ _ (modify_self past c _ ∙ ap (on_node _) past_here),
      free_node-ok unlinked c halves.right.0 _
          (modify_self _ c _ ∙ ap (on_node _) (modify_self past c _ ∙ ap (on_node _) past_here)),
    ),
    (
      record {
        chain = freed-Chain;
        front =
            is.front
            ∙ (first-append xs ((c, v) ∷ (d, w) ∷ ys) null
                ∙ (first_any xs c d pos ∙ sym (first-append xs ((d, w) ∷ ys) null)));
        back =
            is.back
            ∙ (last-append xs ((c, v) ∷ (d, w) ∷ ys) null
                ∙ sym (last-append xs ((d, w) ∷ ys) null));
        count = omega (
          arith,
          is.count,
          length-append xs ((c, v) ∷ (d, w) ∷ ys),
          length-append xs ((d, w) ∷ ys),
        );
        placed = refl;
      },
      refl,
      refl,
      write_self unlinked c none,
      SameOutside-write all h unlinked c none
          (SameOutside-modify all h _ c _
            (SameOutside-modify all h past c _
              (SameOutside-modify all h past_back d _
                (SameOutside-modify all h h b _ (λ e o. refl)
                  (ground (arith, owns-append xs ((c, v) ∷ (d, w) ∷ ys) b, b_in)))
                (ground (arith, owns-append xs ((c, v) ∷ (d, w) ∷ ys) d)))
              c_in)
            c_in)
          c_in,
    ),
  )
    where
      all : Cells
      all = xs ++ (c, v) ∷ (d, w) ∷ ys

      c_in : owns all c ≡ true
      c_in = ground (arith, owns-append xs ((c, v) ∷ (d, w) ∷ ys) c)

      guard : (ltb l.length 1 || not (is_defined l.index)) ≡ false
      guard = ground (arith, is.count, idx, length-append xs ((c, v) ∷ (d, w) ∷ ys))

      not_front : at l.index 0 ≡ false
      not_front = ground (arith, idx, pos)

      not_back : at l.index (l.length - 1) ≡ false
      not_back = ground (arith, idx, is.count, length-append xs ((c, v) ∷ (d, w) ∷ ys))
