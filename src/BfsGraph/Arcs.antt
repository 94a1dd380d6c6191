-- ===== src/BfsGraph/Arcs.antt =====
-- `addArc` of Graph ADT with BFS & Shortest Paths/Graph.c.
use mathlib.Core.List.{Perm}
use mathlib.Core.List.Perm
use mathlib.Core.Path.{subst}
use native.Mathlib.Nat.{le_trans}
use c_lang_coding_projects.Prelude.{
  ℕ, ◌+◌, ◌≤◌, ◌≡◌, ◌≢◌, refl, sym, ap, inl, inr, Bool-cases, true, false, ◌||◌, none, some, List,
  [], ◌∷◌, ◌++◌, arith, ◌==◌, ltb, if◌then◌else◌, length,
}
use c_lang_coding_projects.Sequence.{Seq, append}
use c_lang_coding_projects.Sequence.Insertion.{insert_from_back, insert_from_back_lem}
use c_lang_coding_projects.Sequence.Sorted.{IsSorted, insert_last-IsSorted, insert_last-Perm}
use c_lang_coding_projects.Arrays.{put, put_self, put_other}
use c_lang_coding_projects.BfsGraph.{Graph, out_of_range, add_arc}

-- The adjacency list of `u`.
abbrev pub adjacent : Graph → ℕ → List ℕ
adjacent g u = (g.neighbors u).items

-- `u` is a vertex of `g`.
abbrev pub IsVertex : Graph → ℕ → Type 0
IsVertex g u = (1 ≤ u) × (u ≤ g.order)

pub in_range : (g : Graph) (u : ℕ) → IsVertex g u → out_of_range g u ≡ false
in_range g u h = ground (arith, h.0, h.1)

-- The new list of `addArc`, from the old one.
nil_of_length : (xs : List ℕ) → (length xs == 0) ≡ true → xs ≡ []
nil_of_length [] e = refl
nil_of_length (x ∷ xs) e = absurd (ground (arith, e))

add_arc-list :
    (l : Seq ℕ) (v : ℕ)
    → IsSorted ◌≤◌ l.items
    → (m : Seq ℕ) × ((if length l.items == 0
          then some (append l v)
          else insert_from_back (λ y. ltb v y) l v)
        ≡ some m)
      × IsSorted ◌≤◌ m.items
      × Perm m.items (v ∷ l.items)
unfolding append
add_arc-list l v s = elim (Bool-cases (length l.items == 0)) [
  | inl e ↦ rw e (
    append l v,
    refl,
    subst (λ xs. IsSorted ◌≤◌ (xs ++ v ∷ [])) (sym (nil_of_length l.items e)) (tt, tt),
    subst (λ xs. Perm (xs ++ v ∷ []) (v ∷ xs)) (sym (nil_of_length l.items e)) (Perm.refl (v ∷ [])),
  )
  | inr e ↦
      let (m, run, its) = insert_from_back_lem (λ y. ltb v y) l v (ground (arith, e)) in
      (
        m,
        rw e run,
        subst (IsSorted ◌≤◌) (sym its) (
            insert_last-IsSorted ◌≤◌ (λ y. ltb v y) v (λ y h. ground (arith, h))
              (λ y h. ground (arith, h)) (λ a b c p q. le_trans p q) l.items s),
        subst (λ xs. Perm xs (v ∷ l.items)) (sym its) (insert_last-Perm (λ y. ltb v y) v l.items),
      )
]

-- `addArc` at two vertices: the adjacency list of `u` gets `v` and stays in ascending order, no other
-- list changes, and the size grows by one.
pub add_arc_lem :
    (g : Graph) (u v : ℕ)
    → IsVertex g u
    → IsVertex g v
    → IsSorted ◌≤◌ (adjacent g u)
    → (g' : Graph) × (add_arc g u v ≡ some g')
      × IsSorted ◌≤◌ (adjacent g' u)
      × Perm (adjacent g' u) (v ∷ adjacent g u)
      × ((w : ℕ) → u ≢ w → adjacent g' w ≡ adjacent g w)
      × (g'.size ≡ g.size + 1)
unfolding add_arc
add_arc_lem g u v hu hv s =
    let (m, run, sorted, perm) = add_arc-list (g.neighbors u) v s in
    let self = ap (λ (l : Seq ℕ). l.items) (put_self g.neighbors u m) in
    (
      record g { neighbors = put g.neighbors u m; size = g.size + 1 },
      rw (in_range g u hu, in_range g v hv, run),
      subst (IsSorted ◌≤◌) (sym self) sorted,
      subst (λ xs. Perm xs (v ∷ adjacent g u)) (sym self) perm,
      λ w ne. ap (λ (l : Seq ℕ). l.items) (put_other g.neighbors u m w ne),
      refl,
    )

-- `addArc` at something that is no vertex ends the process.
pub add_arc-none :
    (g : Graph) (u v : ℕ) → ((IsVertex g u × IsVertex g v) → ⊥) → add_arc g u v ≡ none
unfolding add_arc
add_arc-none g u v out = elim (Bool-cases (out_of_range g u || out_of_range g v)) [
  | inl e ↦ rw e
  | inr e ↦ absurd (out ((ground arith, ground arith), (ground arith, ground arith)))
]
