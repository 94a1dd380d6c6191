-- ===== src/LinkedList/Walk.antt =====
-- The loops of List.c that only read or free: `equals`, `clear`, `freeList`.
use mathlib.Core.Path.{subst}
use c_lang_coding_projects.Prelude.{
  ℕ, zero, suc, ◌+◌, ◌<◌, ◌≡◌, ◌≢◌, ◌↔◌, refl, ap, Bool, Bool-cases, inl, inr, true, false, ◌&&◌,
  none, List, [], ◌∷◌, ◌++◌, arith, ◌==◌, if◌then◌else◌, length,
}
use c_lang_coding_projects.LinkedList.Memory.{Ptr, null, Heap, write, ok}
use c_lang_coding_projects.LinkedList.Chain.{Cells, owns, first, Chain, Chain-write}
use c_lang_coding_projects.LinkedList.Invariant.{Returns, IsList, load-ok, free_node-ok}
use c_lang_coding_projects.LinkedList.{
  ListObj, new_list, free_nodes, free_list, clear, equal_nodes, equals,
}

-- What the nodes hold, in order.
abbrev pub values : Cells → List ℕ
values [] = []
values ((a, v) ∷ xs) = v ∷ values xs

pub values-append : (xs ys : Cells) → values (xs ++ ys) ≡ values xs ++ values ys
values-append [] ys = refl
values-append ((a, v) ∷ xs) ys = ap (λ vs. v ∷ vs) (values-append xs ys)

abbrev pub list_eq : List ℕ → List ℕ → Bool
list_eq [] [] = true
list_eq [] (y ∷ ys) = false
list_eq (x ∷ xs) [] = false
list_eq (x ∷ xs) (y ∷ ys) = (x == y) && list_eq xs ys

list_eq-eq : (xs ys : List ℕ) → list_eq xs ys ≡ true → xs ≡ ys
list_eq-eq [] [] e = refl
list_eq-eq [] (y ∷ ys) e = cc
list_eq-eq (x ∷ xs) [] e = cc
list_eq-eq (x ∷ xs) (y ∷ ys) e = ground (arith, list_eq-eq xs ys)

list_eq_refl : (xs : List ℕ) → list_eq xs xs ≡ true
list_eq_refl [] = refl
list_eq_refl (x ∷ xs) = ground (arith, list_eq_refl xs)

list_eq_iff : (xs ys : List ℕ) → (list_eq xs ys ≡ true) ↔ (xs ≡ ys)
list_eq_iff xs ys = (list_eq-eq xs ys, λ e. subst (λ zs. list_eq xs zs ≡ true) e (list_eq_refl xs))

list_eq-length : (xs ys : Cells) → length xs ≢ length ys → list_eq (values xs) (values ys) ≡ false
list_eq-length [] [] ne = absurd (ne refl)
list_eq-length [] (y ∷ ys) ne = refl
list_eq-length (x ∷ xs) [] ne = refl
list_eq-length (x ∷ xs) (y ∷ ys) ne = ground (arith, list_eq-length xs ys (λ e. ne (ap suc e)))

module _ (h : Heap) where
  equal_nodes_lem :
      (fuel : ℕ) (p q : Ptr) (xs ys : Cells)
      → Chain h p xs null
      → Chain h q ys null
      → length xs ≡ length ys
      → length xs < fuel
      → equal_nodes fuel (first xs null) (first ys null) h ≡ ok (list_eq (values xs) (values ys)) h
  unfolding equal_nodes
  equal_nodes_lem zero p q xs ys c d e lt = elim lt [ ]
  equal_nodes_lem (suc fuel) p q [] [] c d e lt = refl
  equal_nodes_lem (suc fuel) p q [] (y ∷ ys) c d e lt = absurd (omega arith)
  equal_nodes_lem (suc fuel) p q (x ∷ xs) [] c d e lt = absurd (omega arith)
  equal_nodes_lem (suc fuel) p q ((a, v) ∷ xs) ((b, w) ∷ ys) c d e lt =
      let na : (a == null) ≡ false = ground (arith, c.0) in
      let nb : (b == null) ≡ false = ground (arith, d.0) in
      rw (na, nb, load-ok h a c.0 _ c.1, load-ok h b d.0 _ d.1)
        (elim (Bool-cases (v == w)) [
          | inl same ↦ rw same (equal_nodes_lem fuel a b xs ys c.3 d.3 (omega arith) (omega arith))
          | inr differ ↦ rw differ
        ])

  -- `equals` returns, leaves the heap, and tells whether the two lists hold the same values in the
  -- same order.
  pub equals_lem :
      (a b : ListObj) (xs ys : Cells)
      → IsList h a xs
      → IsList h b ys
      → Returns (equals a b h) (λ r g. ((r ≡ true) ↔ (values xs ≡ values ys)) × (g ≡ h))
  unfolding equals
  equals_lem a b xs ys is it =
      (list_eq (values xs) (values ys), h, run, (list_eq_iff (values xs) (values ys), refl))
    where
      run : equals a b h ≡ ok (list_eq (values xs) (values ys)) h
      run = elim (Bool-cases (a.length == b.length)) [
        | inl same ↦
            rw (same, is.front, it.front)
              (equal_nodes_lem (a.length + 1) null null xs ys is.chain it.chain
                (ground (arith, is.count, it.count)) (omega (arith, is.count)))
        | inr differ ↦
            rw (differ, list_eq-length xs ys (λ e. ground (arith, is.count, it.count, e)))
      ]

-- `g` is `h` without the nodes `xs`.
abbrev pub Without : Cells → Heap → Heap → Type 0
Without xs h g = (a : Ptr) → g a ≡ (if owns xs a then none else h a)

free_nodes_lem :
    (fuel : ℕ) (h : Heap) (p : Ptr) (xs : Cells)
    → Chain h p xs null
    → length xs < fuel
    → Returns (free_nodes fuel (first xs null) h) (λ _. Without xs h)
unfolding free_nodes write
free_nodes_lem zero h p xs c lt = elim lt [ ]
free_nodes_lem (suc fuel) h p [] c lt = (tt, h, refl, λ a. refl)
free_nodes_lem (suc fuel) h p ((a, v) ∷ xs) c lt =
    let na : (a == null) ≡ false = ground (arith, c.0) in
    let (u, g, run, gone) =
      free_nodes_lem fuel (write h a none) a xs (Chain-write h a xs null a none c.3 c.2)
        (omega arith) in
    (
      u,
      g,
      rw (na, load-ok h a c.0 _ c.1, free_node-ok h a c.0 _ c.1) run,
      λ b. ground (arith, gone b),
    )

module _ (h : Heap) (l : ListObj) (xs : Cells) (is : IsList h l xs) where
  fuel_enough : length xs < l.length + 1
  fuel_enough = omega (arith, is.count)

  freed_nodes : Returns (free_nodes (l.length + 1) l.front h) (λ _. Without xs h)
  freed_nodes = rw is.front (free_nodes_lem (l.length + 1) h null xs is.chain fuel_enough)

  -- `clear` returns an empty list and frees exactly the list's nodes.
  pub clear_lem : Returns (clear l h) (λ l' g. IsList g l' [] × (l'.index ≡ none) × Without xs h g)
  unfolding clear new_list
  clear_lem =
      let (u, g, run, gone) = freed_nodes in
      (
        new_list,
        g,
        rw run,
        (record { chain = tt; front = refl; back = refl; count = refl; placed = refl }, refl, gone),
      )

  -- `freeList` frees exactly the list's nodes: none is left and none is freed twice.
  pub free_list_lem : Returns (free_list l h) (λ _ g. Without xs h g)
  unfolding free_list
  free_list_lem = freed_nodes
