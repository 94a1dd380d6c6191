-- ===== src/LinkedList/DeleteFront.antt =====
-- `deleteFront` of List.c.
use mathlib.Core.Path.{subst}
use c_lang_coding_projects.Prelude.{
  ℕ, zero, suc, ◌-◌, ◌≡◌, refl, sym, ap, ◌∙◌, ◌≢◌, inl, inr, true, false, Option, none, some, [],
  ◌∷◌, arith, ◌==◌, if◌then◌else◌, Bool-cases, ltb,
}
use c_lang_coding_projects.LinkedList.Memory.{Ptr, null, Heap, write, modify}
use c_lang_coding_projects.LinkedList.Chain.{
  Cells, Chain, SameOutside, Chain-write, relink_front, modify_other, owns_ne, SameOutside-write,
  SameOutside-modify,
}
use c_lang_coding_projects.LinkedList.Invariant.{
  Returns, Placed, IsList, load-ok, assign-ok, free_node-ok, write_self,
}
use c_lang_coding_projects.LinkedList.{ListObj, at, minus_one}
use c_lang_coding_projects.LinkedList.Removal.{delete_front}

Placed-tail :
    (i : Option ℕ) (c a : Ptr) (v : ℕ) (xs : Cells)
    → Placed i c ((a, v) ∷ xs)
    → Placed (minus_one i) (if at i 0 then null else c) xs
Placed-tail none c a v xs p = p
Placed-tail (some zero) c a v xs p = refl
Placed-tail (some (suc i)) c a v xs p = ground (arith, p)

-- The two branches of `deleteFront` that adjust the cursor, as one record.
front_dropped :
    (l : ListObj) (b : Ptr)
    → (if at l.index 0
        then record l { front = b; cursor = null; index = none }
        else record l { front = b; index = minus_one l.index })
      ≡ record l {
        front = b;
        cursor = if at l.index 0 then null else l.cursor;
        index = minus_one l.index;
      }
front_dropped l b = elim (Bool-cases (at l.index 0)) [
  | inl e ↦ rw e (λ i. record l { front = b; cursor = null; index = gone l.index e i })
  | inr e ↦ rw e
]
  where
    gone : (i : Option ℕ) → at i 0 ≡ true → none ≡ minus_one i
    gone none e = refl
    gone (some zero) e = refl
    gone (some (suc i)) e = absurd (ground (arith, e))

module _ (h : Heap) (l : ListObj) (a v : ℕ) where
  delete_front_one :
      IsList h l ((a, v) ∷ [])
      → Returns (delete_front l h) (λ l' g.
        IsList g l' []
        × (l'.index ≡ minus_one l.index)
        × (g a ≡ none)
        × SameOutside ((a, v) ∷ []) h g)
  unfolding delete_front
  delete_front_one is = (
    record l { front = null; back = null; cursor = null; index = none; length = l.length - 1 },
    write h l.front none,
    rw (guard, one, free_node-ok h l.front live _ (ap h is.front ∙ is.chain.1)),
    (
      record {
        chain = tt;
        front = refl;
        back = refl;
        count = omega (arith, is.count);
        placed = refl;
      },
      none_left l.index l.cursor is.placed,
      ap (write h l.front none) (sym is.front) ∙ write_self h l.front none,
      SameOutside-write ((a, v) ∷ []) h h l.front none (λ b o. refl) (ground (arith, is.front)),
    ),
  )
    where
      guard : ltb l.length 1 ≡ false
      guard = ground (arith, is.count)

      one : (l.length == 1) ≡ true
      one = ground (arith, is.count)

      live : l.front ≢ null
      live = λ e. is.chain.0 (sym is.front ∙ e)

      none_left : (i : Option ℕ) (c : Ptr) → Placed i c ((a, v) ∷ []) → none ≡ minus_one i
      none_left none c p = refl
      none_left (some zero) c p = refl
      none_left (some (suc i)) c p = cc

  delete_front_more :
      (b w : ℕ) (xs : Cells)
      → IsList h l ((a, v) ∷ (b, w) ∷ xs)
      → Returns (delete_front l h) (λ l' g.
        IsList g l' ((b, w) ∷ xs)
        × (l'.index ≡ minus_one l.index)
        × (g a ≡ none)
        × SameOutside ((a, v) ∷ (b, w) ∷ xs) h g)
  unfolding delete_front
  delete_front_more b w xs is = (
    record l {
      front = b;
      cursor = if at l.index 0 then null else l.cursor;
      index = minus_one l.index;
      length = l.length - 1;
    },
    write (modify h b (λ n. record n { prev = null })) l.front none,
    rw (
      guard,
      more,
      load-ok h l.front live _ (ap h is.front ∙ is.chain.1),
      assign-ok h b is.chain.3.0 _ _ is.chain.3.1,
      free_node-ok _ l.front live _
          (modify_other h b l.front _ (λ e. apart (e ∙ is.front)) ∙ (ap h is.front ∙ is.chain.1)),
      front_dropped l b,
    ),
    (
      record {
        chain =
            subst
              (λ q.
                Chain (write (modify h b (λ n. record n { prev = null })) q none) null ((b, w) ∷ xs)
                  null)
              (sym is.front)
              (Chain-write _ null ((b, w) ∷ xs) null a none
                (relink_front h a null ((b, w) ∷ xs) null null is.chain.3) is.chain.2);
        front = refl;
        back = is.back;
        count = omega (arith, is.count);
        placed = Placed-tail l.index l.cursor a v ((b, w) ∷ xs) is.placed;
      },
      refl,
      ap (write _ l.front none) (sym is.front) ∙ write_self _ l.front none,
      SameOutside-write ((a, v) ∷ (b, w) ∷ xs) h _ l.front none
          (SameOutside-modify ((a, v) ∷ (b, w) ∷ xs) h h b _ (λ b o. refl) (ground arith))
          (ground (arith, is.front)),
    ),
  )
    where
      guard : ltb l.length 1 ≡ false
      guard = ground (arith, is.count)

      more : (l.length == 1) ≡ false
      more = ground (arith, is.count)

      live : l.front ≢ null
      live = λ e. is.chain.0 (sym is.front ∙ e)

      apart : b ≢ a
      apart = owns_ne ((b, w) ∷ xs) a b is.chain.2 (ground arith)

  -- `deleteFront` unlinks and frees the first node. The cursor stays on its node, one place nearer
  -- to the front, and is gone if it was there.
  pub delete_front_lem :
      (xs : Cells)
      → IsList h l ((a, v) ∷ xs)
      → Returns (delete_front l h) (λ l' g.
        IsList g l' xs
        × (l'.index ≡ minus_one l.index)
        × (g a ≡ none)
        × SameOutside ((a, v) ∷ xs) h g)
  delete_front_lem [] is = delete_front_one is
  delete_front_lem ((b, w) ∷ xs) is = delete_front_more b w xs is
