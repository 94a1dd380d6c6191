-- ===== src/LinkedList/Ends.antt =====
-- `prepend` and `append` of List.c.
use c_lang_coding_projects.Prelude.{
  ℕ, suc, ◌+◌, ◌<◌, ◌≡◌, refl, sym, ap, ◌∙◌, ◌≢◌, true, false, Option, none, some, [], ◌∷◌, ◌++◌,
  arith, ◌==◌, if◌then◌else◌, length, length-append,
}
use mathlib.Core.Path.{subst}
use c_lang_coding_projects.LinkedList.Memory.{Ptr, null, Node, node, Heap, write, on_node, modify}
use c_lang_coding_projects.LinkedList.Chain.{
  Cells, owns, first, last, Chain, SameOutside, SameOutside-write, SameOutside-modify, Chain-live,
  first_any, Chain-write, Chain-modify, Chain-join, relink_back, relink_front, last-append,
  first-append, owns-append, owns-last, modify_other, write_other, owns_ne,
}
use c_lang_coding_projects.LinkedList.Invariant.{
  Returns, Placed, IsList, Placed-append, assign-ok, new_node-ok, write_self, modify_self,
  not-owns_of_none,
}
use c_lang_coding_projects.LinkedList.{ListObj, is_defined, plus_one, prepend, append}

-- The place of the cursor once a node stands before it.
abbrev pub shift : Option ℕ → Option ℕ
shift none = none
shift (some i) = some (suc i)

Placed-nil : (i : Option ℕ) (c : Ptr) → Placed i c [] → i ≡ none
Placed-nil none c p = refl
Placed-nil (some i) c p = cc

Placed-cons :
    (i : Option ℕ) (c a : Ptr) (v : ℕ) (xs : Cells)
    → Placed i c xs
    → Placed (shift i) c ((a, v) ∷ xs)
Placed-cons none c a v xs p = p
Placed-cons (some i) c a v xs p = p

index_shift : (i : Option ℕ) → (if is_defined i then plus_one i else i) ≡ shift i
index_shift none = refl
index_shift (some i) = refl

-- A list of one new node.
IsList-one :
    (h : Heap) (l : ListObj) (fresh : Ptr) (x : ℕ)
    → IsList h l []
    → fresh ≢ null
    → IsList
        (write h fresh (some (node x null null)))
        (record l { front = fresh; back = fresh; length = l.length + 1 })
        ((fresh, x) ∷ [])
IsList-one h l fresh x is ne = record {
  chain = (ne, write_self h fresh _, refl, tt);
  front = refl;
  back = refl;
  count = omega (arith, is.count);
  placed =
      rw (Placed-nil l.index l.cursor is.placed)
        (ground (arith, Placed-nil l.index l.cursor is.placed, is.placed));
}

-- The new node in front of a chain, after the two assignments of `prepend`.
Chain-prepend :
    (h : Heap) (a v : ℕ) (xs : Cells) (fresh x : ℕ)
    → Chain h null ((a, v) ∷ xs) null
    → fresh ≢ null
    → owns ((a, v) ∷ xs) fresh ≡ false
    → Chain
        (modify
          (modify (write h fresh (some (node x null null))) fresh (λ n. record n { next = a }))
          a
          (λ n. record n { prev = fresh }))
        null
        ((fresh, x) ∷ (a, v) ∷ xs)
        null
Chain-prepend h a v xs fresh x c ne out =
    let h1 : Heap = write h fresh (some (node x null null)) in
    let h2 : Heap = modify h1 fresh (λ n. record n { next = a }) in
    (
      ne,
      modify_other h2 a fresh _ (owns_ne ((a, v) ∷ xs) fresh a out (ground arith))
          ∙ (modify_self h1 fresh _ ∙ ap (on_node _) (write_self h fresh _)),
      out,
      relink_front h2 null fresh ((a, v) ∷ xs) null null (
          Chain-modify h1 null ((a, v) ∷ xs) null fresh _
            (Chain-write h null ((a, v) ∷ xs) null fresh _ c out) out),
    )

-- The new node behind a chain, after the two assignments of `append`.
Chain-append :
    (h : Heap) (b : Ptr) (xs : Cells) (fresh x : ℕ)
    → Chain h null xs null
    → last xs null ≡ b
    → b ≢ null
    → fresh ≢ null
    → owns xs b ≡ true
    → owns xs fresh ≡ false
    → Chain
        (modify
          (modify (write h fresh (some (node x null null))) fresh (λ n. record n { prev = b }))
          b
          (λ n. record n { next = fresh }))
        null
        (xs ++ (fresh, x) ∷ [])
        null
Chain-append h b xs fresh x c e live ne held out =
    let h1 : Heap = write h fresh (some (node x null null)) in
    let h2 : Heap = modify h1 fresh (λ n. record n { prev = b }) in
    let kept : Chain h2 null xs null =
      Chain-modify h1 null xs null fresh _ (Chain-write h null xs null fresh _ c out) out in
    Chain-join _ null xs ((fresh, x) ∷ []) null
      (subst (λ q. Chain (modify h2 q (λ n. record n { next = fresh })) null xs fresh) e
        (relink_back h2 null xs null fresh kept))
      (
        ne,
        modify_other h2 b fresh _ (owns_ne xs fresh b out held)
            ∙ (modify_self h1 fresh _
                ∙ (ap (on_node _) (write_self h fresh _) ∙ ap (λ q. some (node x null q)) (sym e))),
        refl,
        tt,
      )
      (λ d i. ground (arith, i, out))

module _ (h : Heap) (l : ListObj) (fresh x : ℕ) (ne : fresh ≢ null) (unused : h fresh ≡ none) where
  prepend-nil :
      IsList h l []
      → Returns (prepend fresh l x h) (λ l' g.
        IsList g l' ((fresh, x) ∷ [])
        × (l'.index ≡ shift l.index)
        × SameOutside ((fresh, x) ∷ []) h g)
  unfolding prepend write
  prepend-nil is = (
    record l { front = fresh; back = fresh; length = l.length + 1 },
    write h fresh (some (node x null null)),
    rw (new_node-ok h fresh ne x, is.count),
    (
      IsList-one h l fresh x is ne,
      ground (arith, Placed-nil l.index l.cursor is.placed),
      λ a out. ground arith,
    ),
  )

  prepend-cons :
      (a v : ℕ) (xs : Cells)
      → IsList h l ((a, v) ∷ xs)
      → Returns (prepend fresh l x h) (λ l' g.
        IsList g l' ((fresh, x) ∷ (a, v) ∷ xs)
        × (l'.index ≡ shift l.index)
        × SameOutside ((fresh, x) ∷ (a, v) ∷ xs) h g)
  unfolding prepend
  prepend-cons a v xs is = (
    record l {
      front = fresh;
      index = if is_defined l.index then plus_one l.index else l.index;
      length = l.length + 1;
    },
    modify (modify h1 fresh (λ n. record n { next = l.front })) l.front
        (λ n. record n { prev = fresh }),
    rw (
      new_node-ok h fresh ne x,
      some_length,
      assign-ok h1 fresh ne _ _ (write_self h fresh _),
      assign-ok _ l.front live _ _ front_node,
    ),
    (
      record {
        chain =
            subst
              (λ q.
                Chain
                  (modify (modify h1 fresh (λ n. record n { next = q })) q
                    (λ n. record n { prev = fresh }))
                  null ((fresh, x) ∷ (a, v) ∷ xs) null)
              (sym is.front) (Chain-prepend h a v xs fresh x is.chain ne out);
        front = refl;
        back = is.back;
        count = omega (arith, is.count);
        placed =
            subst (λ i. Placed i l.cursor ((fresh, x) ∷ (a, v) ∷ xs)) (sym (index_shift l.index))
              (Placed-cons l.index l.cursor fresh x ((a, v) ∷ xs) is.placed);
      },
      index_shift l.index,
      SameOutside-modify new h _ l.front _
          (SameOutside-modify new h h1 fresh _
            (SameOutside-write new h h fresh _ (λ b o. refl) (ground arith)) (ground arith))
          (ground (arith, is.front)),
    ),
  )
    where
      h1 : Heap
      h1 = write h fresh (some (node x null null))

      new : Cells
      new = (fresh, x) ∷ (a, v) ∷ xs

      out : owns ((a, v) ∷ xs) fresh ≡ false
      out = not-owns_of_none h null ((a, v) ∷ xs) null fresh is.chain unused

      some_length : (l.length == 0) ≡ false
      some_length = ground (arith, is.count)

      live : l.front ≢ null
      live = ground (arith, is.front, is.chain.0)

      front_node :
          modify h1 fresh (λ n. record n { next = l.front }) l.front
          ≡ some (node v (first xs null) null)
      front_node =
          modify_other h1 fresh l.front _ (λ e. cc)
          ∙ (write_other h fresh l.front _ (λ e. cc) ∙ (ap h is.front ∙ is.chain.1))

  -- `prepend` puts one new node in front of the list, shifts the cursor with its node, and writes
  -- to the list's own nodes and to the new one only.
  pub prepend_lem :
      (xs : Cells)
      → IsList h l xs
      → Returns (prepend fresh l x h) (λ l' g.
        IsList g l' ((fresh, x) ∷ xs)
        × (l'.index ≡ shift l.index)
        × SameOutside ((fresh, x) ∷ xs) h g)
  prepend_lem [] is = prepend-nil is
  prepend_lem ((a, v) ∷ xs) is = prepend-cons a v xs is

  append-nil :
      IsList h l []
      → Returns (append fresh l x h) (λ l' g.
        IsList g l' ((fresh, x) ∷ []) × (l'.index ≡ l.index) × SameOutside ((fresh, x) ∷ []) h g)
  unfolding append write
  append-nil is = (
    record l { front = fresh; back = fresh; length = l.length + 1 },
    write h fresh (some (node x null null)),
    rw (new_node-ok h fresh ne x, is.count),
    (IsList-one h l fresh x is ne, refl, λ a out. ground arith),
  )

  append-cons :
      (xs : Cells)
      → IsList h l xs
      → 0 < length xs
      → owns xs l.back ≡ true
      → Returns (append fresh l x h) (λ l' g.
        IsList g l' (xs ++ (fresh, x) ∷ [])
        × (l'.index ≡ l.index)
        × SameOutside (xs ++ (fresh, x) ∷ []) h g)
  unfolding append
  append-cons xs is some_nodes held = (
    record l { back = fresh; length = l.length + 1 },
    modify (modify h1 fresh (λ n. record n { prev = l.back })) l.back
        (λ n. record n { next = fresh }),
    rw (
      new_node-ok h fresh ne x,
      some_length,
      assign-ok h1 fresh ne _ _ (write_self h fresh _),
      assign-ok _ l.back live.2 _ live.0 back_node,
    ),
    (
      record {
        chain = Chain-append h l.back xs fresh x is.chain (sym is.back) live.2 ne held out;
        front =
            is.front
            ∙ (first_any xs null fresh some_nodes ∙ sym (first-append xs ((fresh, x) ∷ []) null));
        back = sym (last-append xs ((fresh, x) ∷ []) null);
        count = omega (arith, is.count, length-append xs ((fresh, x) ∷ []));
        placed = Placed-append l.index l.cursor xs ((fresh, x) ∷ []) is.placed;
      },
      refl,
      SameOutside-modify new h _ l.back _
          (SameOutside-modify new h h1 fresh _
            (SameOutside-write new h h fresh _ (λ b o. refl) fresh_in) fresh_in)
          back_in,
    ),
  )
    where
      h1 : Heap
      h1 = write h fresh (some (node x null null))

      new : Cells
      new = xs ++ (fresh, x) ∷ []

      out : owns xs fresh ≡ false
      out = not-owns_of_none h null xs null fresh is.chain unused

      fresh_in : owns new fresh ≡ true
      fresh_in = ground (arith, owns-append xs ((fresh, x) ∷ []) fresh)

      back_in : owns new l.back ≡ true
      back_in = ground (arith, owns-append xs ((fresh, x) ∷ []) l.back)

      some_length : (l.length == 0) ≡ false
      some_length = ground (arith, is.count)

      live : (m : Node) × (h l.back ≡ some m) × (l.back ≢ null)
      live = Chain-live h null xs null l.back is.chain held

      back_node : modify h1 fresh (λ n. record n { prev = l.back }) l.back ≡ some live.0
      back_node =
          modify_other h1 fresh l.back _ (λ e. cc (live.1))
          ∙ (write_other h fresh l.back _ (λ e. cc (live.1)) ∙ live.1)

  -- `append` puts one new node behind the list, leaves the cursor, and writes to the list's own
  -- nodes and to the new one only.
  pub append_lem :
      (xs : Cells)
      → IsList h l xs
      → Returns (append fresh l x h) (λ l' g.
        IsList g l' (xs ++ (fresh, x) ∷ [])
        × (l'.index ≡ l.index)
        × SameOutside (xs ++ (fresh, x) ∷ []) h g)
  append_lem [] is = append-nil is
  append_lem ((a, v) ∷ xs) is =
      append-cons ((a, v) ∷ xs) is (omega arith)
        (subst (λ q. owns ((a, v) ∷ xs) q ≡ true) (sym is.back) (owns-last xs a v null))
