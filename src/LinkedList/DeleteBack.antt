-- ===== src/LinkedList/DeleteBack.antt =====
-- `deleteBack` of List.c.
use mathlib.Core.Path.{subst}
use c_lang_coding_projects.Prelude.{
  ℕ, zero, suc, ◌-◌, ◌<◌, ◌≡◌, refl, sym, ap, ◌∙◌, ◌≢◌, inl, inr, true, false, Option, none, some,
  [], ◌∷◌, ◌++◌, arith, ◌==◌, if◌then◌else◌, length, length-append, Bool-cases, ltb,
}
use c_lang_coding_projects.LinkedList.Memory.{Ptr, null, Node, Heap, write, modify}
use c_lang_coding_projects.LinkedList.Chain.{
  Cells, owns, last, Chain, SameOutside, Chain-live, first_any, Chain-split, Halves, Chain-write,
  relink_back, last-append, first-append, owns-append, modify_other, owns_ne, owns-last_any,
  not-owns_of_Apart, SameOutside-write, SameOutside-modify,
}
use c_lang_coding_projects.LinkedList.Invariant.{
  Returns, Placed, IsList, ptr_at-lt, ptr_at-append, load-ok, assign-ok, free_node-ok, write_self,
}
use c_lang_coding_projects.LinkedList.{ListObj, at}
use c_lang_coding_projects.LinkedList.Removal.{delete_back}

-- The two branches of `deleteBack` that adjust the cursor, as one record.
back_dropped :
    (l : ListObj) (b : Ptr) (n : ℕ)
    → (if at l.index n
        then record l { back = b; cursor = null; index = none }
        else record l { back = b })
      ≡ record l {
        back = b;
        cursor = if at l.index n then null else l.cursor;
        index = if at l.index n then none else l.index;
      }
back_dropped l b n = elim (Bool-cases (at l.index n)) [ inl e ↦ rw e | inr e ↦ rw e ]

Placed-front :
    (i : Option ℕ) (c : Ptr) (xs : Cells) (a : Ptr) (v : ℕ)
    → Placed i c (xs ++ (a, v) ∷ [])
    → Placed (if at i (length xs) then none else i) (if at i (length xs) then null else c) xs
Placed-front none c xs a v p = p
Placed-front (some i) c xs a v p = elim (Bool-cases (i == length xs)) [
  | inl e ↦ rw e refl
  | inr e ↦ rw e (sym (ptr_at-append xs ((a, v) ∷ []) i (below e)) ∙ p)
]
  where
    below : (i == length xs) ≡ false → i < length xs
    below e = ground (arith, ptr_at-lt (xs ++ (a, v) ∷ []) i c p, length-append xs ((a, v) ∷ []))

module _ (h : Heap) (l : ListObj) (a v : ℕ) (xs : Cells) (is : IsList h l (xs ++ (a, v) ∷ [])) where
  delete_back_more :
      0 < length xs
      → Returns (delete_back l h) (λ l' g.
        IsList g l' xs
        × (l'.index ≡ (if at l.index (length xs) then none else l.index))
        × (g a ≡ none)
        × SameOutside (xs ++ (a, v) ∷ []) h g)
  unfolding delete_back
  delete_back_more pos = (
    record l {
      back = last xs null;
      cursor = if at l.index (l.length - 1) then null else l.cursor;
      index = if at l.index (l.length - 1) then none else l.index;
      length = l.length - 1;
    },
    write (modify h (last xs null) (λ n. record n { next = null })) l.back none,
    rw (
      guard,
      more,
      load-ok h l.back live _ (ap h at_back ∙ halves.right.1),
      assign-ok h (last xs null) b_live.2 _ _ b_live.1,
      free_node-ok _ l.back live _ (
          modify_other h (last xs null) l.back _ (λ e. apart (e ∙ at_back))
          ∙ (ap h at_back ∙ halves.right.1)),
      back_dropped l (last xs null) (l.length - 1),
    ),
    (
      record {
        chain =
            subst
              (λ q.
                Chain (write (modify h (last xs null) (λ n. record n { next = null })) q none) null
                  xs null)
              (sym at_back)
              (Chain-write _ null xs null a none (relink_back h null xs a null halves.left) a_out);
        front = is.front ∙ (first-append xs ((a, v) ∷ []) null ∙ first_any xs a null pos);
        back = refl;
        count = omega (arith, is.count, length-append xs ((a, v) ∷ []));
        placed = rw last_place (Placed-front l.index l.cursor xs a v is.placed);
      },
      ap (λ n. if at l.index n then none else l.index) last_place,
      ap (write _ l.back none) (sym at_back) ∙ write_self _ l.back none,
      SameOutside-write (xs ++ (a, v) ∷ []) h _ l.back none
          (SameOutside-modify (xs ++ (a, v) ∷ []) h h (last xs null) _ (λ b o. refl)
            (ground (arith, owns-append xs ((a, v) ∷ []) (last xs null), b_in)))
          (ground (arith, at_back, owns-append xs ((a, v) ∷ []) l.back)),
    ),
  )
    where
      halves : Halves h null xs ((a, v) ∷ []) null
      halves = Chain-split h null xs ((a, v) ∷ []) null is.chain

      at_back : l.back ≡ a
      at_back = is.back ∙ last-append xs ((a, v) ∷ []) null

      last_place : l.length - 1 ≡ length xs
      last_place = omega (arith, is.count, length-append xs ((a, v) ∷ []))

      b_in : owns xs (last xs null) ≡ true
      b_in = owns-last_any xs null pos

      a_out : owns xs a ≡ false
      a_out = not-owns_of_Apart xs ((a, v) ∷ []) a halves.apart (ground arith)

      b_live : (m : Node) × (h (last xs null) ≡ some m) × (last xs null ≢ null)
      b_live = Chain-live h null xs a (last xs null) halves.left b_in

      live : l.back ≢ null
      live = λ e. halves.right.0 (sym at_back ∙ e)

      apart : last xs null ≢ a
      apart = owns_ne xs a (last xs null) a_out b_in

      guard : ltb l.length 1 ≡ false
      guard = ground (arith, is.count, length-append xs ((a, v) ∷ []))

      more : (l.length == 1) ≡ false
      more = ground (arith, is.count, length-append xs ((a, v) ∷ []), pos)

module _ (h : Heap) (l : ListObj) (a v : ℕ) where
  delete_back_one :
      IsList h l ((a, v) ∷ [])
      → Returns (delete_back l h) (λ l' g.
        IsList g l' []
        × (l'.index ≡ (if at l.index 0 then none else l.index))
        × (g a ≡ none)
        × SameOutside ((a, v) ∷ []) h g)
  unfolding delete_back
  delete_back_one is = (
    record l { front = null; back = null; cursor = null; index = none; length = l.length - 1 },
    write h l.back none,
    rw (guard, one, free_node-ok h l.back live _ (ap h is.back ∙ is.chain.1)),
    (
      record {
        chain = tt;
        front = refl;
        back = refl;
        count = omega (arith, is.count);
        placed = refl;
      },
      none_left l.index l.cursor is.placed,
      ap (write h l.back none) (sym is.back) ∙ write_self h l.back none,
      SameOutside-write ((a, v) ∷ []) h h l.back none (λ b o. refl) (ground (arith, is.back)),
    ),
  )
    where
      guard : ltb l.length 1 ≡ false
      guard = ground (arith, is.count)

      one : (l.length == 1) ≡ true
      one = ground (arith, is.count)

      live : l.back ≢ null
      live = λ e. is.chain.0 (sym is.back ∙ e)

      none_left :
          (i : Option ℕ) (c : Ptr) → Placed i c ((a, v) ∷ []) → none ≡ (if at i 0 then none else i)
      none_left none c p = refl
      none_left (some zero) c p = refl
      none_left (some (suc i)) c p = cc

  -- `deleteBack` unlinks and frees the last node. The cursor stays where it is, and is gone if it
  -- was on that node.
  pub delete_back_lem :
      (xs : Cells)
      → IsList h l (xs ++ (a, v) ∷ [])
      → Returns (delete_back l h) (λ l' g.
        IsList g l' xs
        × (l'.index ≡ (if at l.index (length xs) then none else l.index))
        × (g a ≡ none)
        × SameOutside (xs ++ (a, v) ∷ []) h g)
  delete_back_lem [] is = delete_back_one is
  delete_back_lem (x ∷ xs) is = delete_back_more h l a v (x ∷ xs) is (omega arith)
