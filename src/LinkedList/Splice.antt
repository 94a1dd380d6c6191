-- ===== src/LinkedList/Splice.antt =====
-- A node that `insertBefore` or `insertAfter` links in between two others.
use mathlib.Core.Path.{subst}
use c_lang_coding_projects.Prelude.{
  ℕ, ◌<◌, ◌≡◌, refl, sym, ap, ◌∙◌, ◌≢◌, true, false, some, ◌∷◌, ◌++◌, arith, length,
}
use c_lang_coding_projects.LinkedList.Memory.{Ptr, null, node, Heap, write, on_node, modify}
use c_lang_coding_projects.LinkedList.Chain.{
  Cells, owns, last, Chain, SameOutside, SameOutside-write, SameOutside-modify, Chain-write,
  Chain-modify, Chain-join, Chain-split, Halves, relink_back, relink_front, modify_other,
  write_other, owns_ne, owns-last_any, not-owns_of_Apart,
}
use c_lang_coding_projects.LinkedList.Invariant.{write_self, modify_self}

-- The heap after `malloc`, and after the new node's own pointers are set.
abbrev pub fresh_heap : Heap → Ptr → ℕ → Heap
fresh_heap h n x = write h n (some (node x null null))

abbrev pub next_heap : Heap → Ptr → ℕ → Ptr → Heap
next_heap h n x c = modify (fresh_heap h n x) n (λ m. record m { next = c })

abbrev pub node_heap : Heap → Ptr → ℕ → Ptr → Ptr → Heap
node_heap h n x b c = modify (next_heap h n x c) n (λ m. record m { prev = b })

abbrev pub half_heap : Heap → Ptr → ℕ → Ptr → Ptr → Heap
half_heap h n x b c = modify (node_heap h n x b c) b (λ m. record m { next = n })

-- The heap after both neighbours are linked to the new node too.
abbrev pub spliced : Heap → Ptr → ℕ → Ptr → Ptr → Heap
spliced h n x b c = modify (half_heap h n x b c) c (λ m. record m { prev = n })

module _ (h : Heap) (n x b c : ℕ) where
  pub node_heap_self : node_heap h n x b c n ≡ some (node x c b)
  node_heap_self =
      modify_self (next_heap h n x c) n _
      ∙ ap (on_node _) (modify_self (fresh_heap h n x) n _ ∙ ap (on_node _) (write_self h n _))

  pub next_heap_other : (a : Ptr) → n ≢ a → next_heap h n x c a ≡ h a
  next_heap_other a ne = modify_other (fresh_heap h n x) n a _ ne ∙ write_other h n a _ ne

  pub node_heap_other : (a : Ptr) → n ≢ a → node_heap h n x b c a ≡ h a
  node_heap_other a ne = modify_other (next_heap h n x c) n a _ ne ∙ next_heap_other a ne

  pub half_heap_self : b ≢ n → half_heap h n x b c n ≡ some (node x c b)
  half_heap_self ne = modify_other (node_heap h n x b c) b n _ ne ∙ node_heap_self

  pub spliced-SameOutside :
      (xs : Cells)
      → owns xs n ≡ true
      → owns xs b ≡ true
      → owns xs c ≡ true
      → SameOutside xs h (spliced h n x b c)
  spliced-SameOutside xs hn hb hc =
      SameOutside-modify xs h (half_heap h n x b c) c _
        (SameOutside-modify xs h (node_heap h n x b c) b _
          (SameOutside-modify xs h (next_heap h n x c) n _
            (SameOutside-modify xs h (fresh_heap h n x) n _
              (SameOutside-write xs h h n _ (λ d o. refl) hn) hn)
            hn)
          hb)
        hc

-- Between `xs` and `(c, w) ∷ ys` the new node closes the chain again.
pub Chain-splice :
    (h : Heap) (xs : Cells) (c w : ℕ) (ys : Cells) (n x b : ℕ)
    → Chain h null (xs ++ (c, w) ∷ ys) null
    → 0 < length xs
    → last xs null ≡ b
    → n ≢ null
    → owns xs n ≡ false
    → owns ((c, w) ∷ ys) n ≡ false
    → Chain (spliced h n x b c) null (xs ++ (n, x) ∷ (c, w) ∷ ys) null
Chain-splice h xs c w ys n x b ch pos e ne out_x out_y =
    Chain-join (spliced h n x b c) null xs ((n, x) ∷ (c, w) ∷ ys) null left (ne, at_n, out_y, right)
      (λ a i. ground (arith, halves.apart a, i, out_x))
  where
    halves : Halves h null xs ((c, w) ∷ ys) null
    halves = Chain-split h null xs ((c, w) ∷ ys) null ch

    b_in : owns xs b ≡ true
    b_in = subst (λ q. owns xs q ≡ true) e (owns-last_any xs null pos)

    c_out : owns xs c ≡ false
    c_out = not-owns_of_Apart xs ((c, w) ∷ ys) c halves.apart (ground arith)

    left : Chain (spliced h n x b c) null xs n
    left =
        Chain-modify (half_heap h n x b c) null xs n c _
          (subst
            (λ q. Chain (modify (node_heap h n x b c) q (λ m. record m { next = n })) null xs n) e
            (relink_back (node_heap h n x b c) null xs c n (
              Chain-modify _ null xs c n _
                (Chain-modify _ null xs c n _ (Chain-write h null xs c n _ halves.left out_x) out_x)
                out_x)))
          c_out

    right : Chain (spliced h n x b c) n ((c, w) ∷ ys) null
    right = relink_front (half_heap h n x b c) (last xs null) n ((c, w) ∷ ys) null null (
        Chain-modify (node_heap h n x b c) (last xs null) ((c, w) ∷ ys) null b _
          (Chain-modify _ (last xs null) ((c, w) ∷ ys) null n _
            (Chain-modify _ (last xs null) ((c, w) ∷ ys) null n _
              (Chain-write h (last xs null) ((c, w) ∷ ys) null n _ halves.right out_y) out_y)
            out_y)
          (halves.apart b b_in))

    at_n : spliced h n x b c n ≡ some (node x c (last xs null))
    at_n =
        modify_other (half_heap h n x b c) c n _ (owns_ne ((c, w) ∷ ys) n c out_y (ground arith))
        ∙ (half_heap_self h n x b c (owns_ne xs n b out_x b_in)
            ∙ ap (λ q. some (node x c q)) (sym e))
