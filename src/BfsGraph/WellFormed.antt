-- ===== src/BfsGraph/WellFormed.antt =====
-- The graphs that `newGraph`, `addArc` and `addEdge` build.
use mathlib.Core.Path.{subst}
use native.Mathlib.Nat.{le_trans}
use c_lang_coding_projects.Prelude.{
  ℕ, ◌+◌, ◌-◌, ◌≤◌, ◌≡◌, ◌≢◌, refl, sym, ap, ◌∙◌, inl, inr, Bool, Bool-cases, true, ◌||◌, ◌&&◌,
  none, some, List, [], ◌∷◌, ◌++◌, arith, ◌==◌, ltb, if◌then◌else◌, length,
}
use c_lang_coding_projects.Sequence.{Seq, append}
use c_lang_coding_projects.Sequence.Insertion.{
  insert_from_back, insert_from_back_lem, insert_last, all_above,
}
use c_lang_coding_projects.Sequence.Sorted.{IsSorted, insert_last-IsSorted}
use c_lang_coding_projects.Arrays.{put, put_self, put_other}
use c_lang_coding_projects.BfsGraph.{Graph, new_graph, add_arc, add_edge}
use c_lang_coding_projects.BfsGraph.Arcs.{adjacent, IsVertex, in_range}
use c_lang_coding_projects.BfsGraph.Walks.{has}
use c_lang_coding_projects.BfsGraph.Shortest.{IsGraph}

pub has-insert_last :
    (above : ℕ → Bool) (v : ℕ) (xs : List ℕ) (y : ℕ)
    → has (insert_last above v xs) y ≡ ((v == y) || has xs y)
unfolding insert_last
has-insert_last above v [] y = refl
has-insert_last above v (x ∷ xs) y = elim (Bool-cases (all_above above (x ∷ xs))) [
  | inl e ↦ rw e
  | inr e ↦ rw e (ground (arith, has-insert_last above v xs y))
]

-- `m` is the list `l` with `v`.
record Added (l : Seq ℕ) (v : ℕ) (m : Seq ℕ) : Type 0 where
  sorted : IsSorted ◌≤◌ m.items
  arcs : (y : ℕ) → has m.items y ≡ ((v == y) || has l.items y)

empty_of_length : (xs : List ℕ) → (length xs == 0) ≡ true → xs ≡ []
empty_of_length [] e = refl
empty_of_length (x ∷ xs) e = absurd (ground (arith, e))

added :
    (l : Seq ℕ) (v : ℕ)
    → IsSorted ◌≤◌ l.items
    → (m : Seq ℕ) × ((if length l.items == 0
          then some (append l v)
          else insert_from_back (λ y. ltb v y) l v)
        ≡ some m)
      × Added l v m
unfolding append
added l v s = elim (Bool-cases (length l.items == 0)) [
  | inl e ↦ rw e (
    append l v,
    refl,
    record {
      sorted = subst (λ xs. IsSorted ◌≤◌ (xs ++ v ∷ [])) (sym (empty_of_length l.items e)) (tt, tt);
      arcs = λ y.
          subst (λ xs. has (xs ++ v ∷ []) y ≡ ((v == y) || has xs y))
            (sym (empty_of_length l.items e)) refl;
    },
  )
  | inr e ↦
      let (m, run, its) = insert_from_back_lem (λ y. ltb v y) l v (ground (arith, e)) in
      (
        m,
        rw e run,
        record {
          sorted = subst (IsSorted ◌≤◌) (sym its) (
              insert_last-IsSorted ◌≤◌ (λ y. ltb v y) v (λ y h. ground (arith, h))
                (λ y h. ground (arith, h)) (λ a b c p q. le_trans p q) l.items s);
          arcs = λ y. ap (λ xs. has xs y) its ∙ has-insert_last (λ x. ltb v x) v l.items y;
        },
      )
]

-- A graph in which BFS may start, with its adjacency lists in ascending order.
pub record IsWellFormed (g : Graph) : Type 0 where
  pub graph : IsGraph g
  pub sorted : (u : ℕ) → IsSorted ◌≤◌ (adjacent g u)

-- `g'` is `g` with an arc from `u` to `v`.
abbrev pub WithArc : Graph → ℕ → ℕ → Graph → Type 0
WithArc g u v g' =
    (w y : ℕ) → has (adjacent g' w) y ≡ (((u == w) && (v == y)) || has (adjacent g w) y)

pub new_graph-IsWellFormed : (n : ℕ) → IsWellFormed (new_graph n)
unfolding new_graph
new_graph-IsWellFormed n = record {
  graph = record { arcs = λ u v h i. cc; cursors = λ u e. refl };
  sorted = λ u. tt;
}

-- What holds of each list of the array after one was replaced.
pub put_each :
    (P : ℕ → Seq ℕ → Type 0) (l : ℕ → Seq ℕ) (u : ℕ) (m : Seq ℕ)
    → P u m
    → ((w : ℕ) → u ≢ w → P w (l w))
    → (w : ℕ) → P w (put l u m w)
put_each P l u m here others w = elim (Bool-cases (u == w)) [
  | inl e ↦
      subst (λ z. P z (put l u m z)) (ground (arith, e)) (subst (P u) (sym (put_self l u m)) here)
  | inr e ↦
      let ne : u ≢ w = λ p. ground (arith, e, p) in
      subst (P w) (sym (put_other l u m w ne)) (others w ne)
]

module _ (g : Graph) (u v : ℕ) (m : Seq ℕ) (k : ℕ) where
  abbrev replaced : Graph
  replaced = record g { neighbors = put g.neighbors u m; size = k }

  WithArc-put : Added (g.neighbors u) v m → WithArc g u v replaced
  WithArc-put a =
      put_each (λ w t. (y : ℕ) → has t.items y ≡ (((u == w) && (v == y)) || has (adjacent g w) y))
        g.neighbors u m (λ y. a.arcs y ∙ ground arith) (λ w ne y. ground (arith, ne))

  not_empty : Added (g.neighbors u) v m → m.items ≡ [] → ⊥
  not_empty a e =
      let there : has m.items v ≡ true = a.arcs v ∙ ground arith in
      cc (there, ap (λ xs. has xs v) e)

  IsWellFormed-put :
      IsWellFormed g → Added (g.neighbors u) v m → IsVertex g v → IsWellFormed replaced
  IsWellFormed-put wf a hv = record {
    graph = record {
      arcs = λ w y hw i. elim (Bool-cases ((u == w) && (v == y))) [
        | inl e ↦ subst (IsVertex g) (ground (arith, e)) hv
        | inr e ↦ wf.graph.arcs w y hw (ground (arith, WithArc-put a w y, e, i))
      ];
      cursors =
          put_each (λ w t. t.items ≡ [] → t.place ≡ none) g.neighbors u m
            (λ e. absurd (not_empty a e)) (λ w ne. wf.graph.cursors w);
    };
    sorted = put_each (λ w t. IsSorted ◌≤◌ t.items) g.neighbors u m a.sorted (λ w ne. wf.sorted w);
  }

-- `addArc` at two vertices of a well-formed graph returns a well-formed graph with the same vertices,
-- the arcs that were there and the new one.
pub add_arc-IsWellFormed :
    (g : Graph) (u v : ℕ)
    → IsWellFormed g
    → IsVertex g u
    → IsVertex g v
    → (g' : Graph) × (add_arc g u v ≡ some g')
      × IsWellFormed g'
      × WithArc g u v g'
      × (g'.order ≡ g.order)
      × (g'.size ≡ g.size + 1)
unfolding add_arc
add_arc-IsWellFormed g u v wf hu hv =
    let (m, run, a) = added (g.neighbors u) v (wf.sorted u) in
    let g' : Graph = record g { neighbors = put g.neighbors u m; size = g.size + 1 } in
    (
      g',
      rw (in_range g u hu, in_range g v hv, run),
      IsWellFormed-put g u v m (g.size + 1) wf a hv,
      WithArc-put g u v m (g.size + 1) a,
      refl,
      refl,
    )

IsWellFormed-size : (g : Graph) (k : ℕ) → IsWellFormed g → IsWellFormed (record g { size = k })
IsWellFormed-size g k wf = record {
  graph = record { arcs = wf.graph.arcs; cursors = wf.graph.cursors };
  sorted = wf.sorted;
}

IsVertex-of_order : (g g' : Graph) (u : ℕ) → g'.order ≡ g.order → IsVertex g u → IsVertex g' u
IsVertex-of_order g g' u e h = (h.0, omega (arith, e, h.1))

-- `addEdge` at two vertices of a well-formed graph returns a well-formed graph with the same vertices
-- and the arcs from `u` to `v` and from `v` to `u` added; the size grows by one if `u` and `v` differ,
-- and else not at all.
pub add_edge-IsWellFormed :
    (g : Graph) (u v : ℕ)
    → IsWellFormed g
    → IsVertex g u
    → IsVertex g v
    → (g' : Graph) × (add_edge g u v ≡ some g')
      × IsWellFormed g'
      × ((w y : ℕ)
          → has (adjacent g' w) y
            ≡ (((u == w) && (v == y)) || (((v == w) && (u == y)) || has (adjacent g w) y)))
      × (g'.order ≡ g.order)
      × (g'.size ≡ (if u == v then g.size else g.size + 1))
unfolding add_edge
add_edge-IsWellFormed g u v wf hu hv = elim (Bool-cases (u == v)) [
  | inl e ↦
      let (g1, run, wf1, arcs, order, size) = add_arc-IsWellFormed g u v wf hu hv in
      (
        record g1 { size = g1.size - 1 },
        rw (in_range g u hu, in_range g v hv, e, run),
        IsWellFormed-size g1 (g1.size - 1) wf1,
        λ w y. ground (arith, arcs w y, e),
        order,
        ground (arith, e, size),
      )
  | inr e ↦
      let (g1, run, wf1, arcs, order, size) = add_arc-IsWellFormed g u v wf hu hv in
      let (g2, run', wf2, arcs', order', size') =
        add_arc-IsWellFormed g1 v u wf1 (IsVertex-of_order g g1 v order hv)
          (IsVertex-of_order g g1 u order hu) in
      (
        record g2 { size = g2.size - 1 },
        rw (in_range g u hu, in_range g v hv, e, run, run'),
        IsWellFormed-size g2 (g2.size - 1) wf2,
        λ w y. ground (arith, arcs w y, arcs' w y),
        order' ∙ order,
        ground (arith, e, size, size'),
      )
]
