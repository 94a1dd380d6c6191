-- ===== src/BfsGraph/Paths.antt =====
-- getPath of Graph ADT with BFS & Shortest Paths/Graph.c, behind BFS.
use mathlib.Core.Path.{subst}
use mathlib.Core.List.{append_assoc, append-nil}
use c_lang_coding_projects.Prelude.{
  ℕ, zero, suc, ◌+◌, ◌-◌, ◌≤◌, ◌<◌, ◌≡◌, ◌⊎◌, inl, inr, refl, sym, ap, ◌∙◌, Bool-cases, true, false,
  none, some, List, [], ◌∷◌, ◌++◌, arith, ◌==◌, length, length-append,
}
use c_lang_coding_projects.Sequence.{Seq, append, prepend, fresh_seq}
use c_lang_coding_projects.BfsGraph.{
  Graph, nil, is_white, out_of_range, has_path, prepend_path, get_path, bfs,
}
use c_lang_coding_projects.BfsGraph.Arcs.{adjacent, IsVertex}
use c_lang_coding_projects.BfsGraph.Walks.{has, depth, Walk}
use c_lang_coding_projects.BfsGraph.Rounds.{Inside}
use c_lang_coding_projects.BfsGraph.Shortest.{IsGraph, bfs_lem}
use c_lang_coding_projects.BfsGraph.Tree.{Child, Tree}
use c_lang_coding_projects.BfsGraph.Parents.{Left, Holds, Left, bfs-Tree}

-- The vertices from `s` to `v` along arcs.
pub data Route (adj : ℕ → List ℕ) (s : ℕ) : List ℕ → ℕ → Type 0 where
  alone : Route adj s (s ∷ []) s
  further :
      {xs : List ℕ} {u v : ℕ}
      → Route adj s xs u
      → has (adj u) v ≡ true
      → Route adj s (xs ++ v ∷ []) v

module _ (n : ℕ) (adj : ℕ → List ℕ) (s : ℕ) (g : Graph) (t : Tree n adj s g) where
  is_source : (v : ℕ) → v ≡ s → (v == g.source) ≡ true
  is_source v e = ground (arith, e, t.source)

  -- The ancestors of a vertex that was found lead to the source.
  has_path_lem :
      (fuel v d : ℕ)
      → Inside n v
      → is_white (g.color v) ≡ false
      → g.distance v ≡ some d
      → d < fuel
      → has_path fuel g v ≡ some true
  unfolding has_path
  has_path_lem zero v d hv e dist lt = elim lt [ ]
  has_path_lem (suc fuel) v d hv e dist lt =
      let no_nil : (v == nil) ≡ false = ground (arith, hv.0) in
      elim (Bool-cases (v == g.source)) [
        | inl p ↦ rw (no_nil, p) refl
        | inr p ↦ elim (t.tree v hv e) [
          | inl q ↦ absurd (cc (is_source v q, p))
          | inr ch ↦
              let deep = ap depth (sym dist ∙ ch.one_deeper) in
              rw (no_nil, p)
                (has_path_lem fuel (g.parent v) ch.above ch.parent_inside ch.parent_found
                  ch.parent_distance (omega (arith, lt, deep)))
        ]
      ]

  prepend_path_lem :
      (fuel : ℕ) (l : Seq ℕ) (v d : ℕ)
      → Inside n v
      → is_white (g.color v) ≡ false
      → g.distance v ≡ some d
      → d < fuel
      → (l' : Seq ℕ) × (path : List ℕ) × (prepend_path fuel g l v ≡ some l')
        × (l'.items ≡ path ++ l.items)
        × Route adj s path v
        × (length path ≡ suc d)
  unfolding prepend_path prepend
  prepend_path_lem zero l v d hv e dist lt = elim lt [ ]
  prepend_path_lem (suc fuel) l v d hv e dist lt = elim (Bool-cases (v == g.source)) [
    | inl p ↦
        let q : s ≡ v = ground (arith, p, t.source) in
        let zero_deep =
          ap depth (sym (subst (λ z. g.distance z ≡ some 0) q t.root_distance) ∙ dist) in
        (
          prepend l v,
          v ∷ [],
          rw p refl,
          refl,
          subst (λ z. Route adj s (z ∷ []) z) q alone,
          omega (arith, zero_deep),
        )
    | inr p ↦ elim (t.tree v hv e) [
      | inl q ↦ absurd (cc (is_source v q, p))
      | inr ch ↦
          let deep = ap depth (sym dist ∙ ch.one_deeper) in
          let (l', path, run, items, route, len) =
            prepend_path_lem fuel (prepend l v) (g.parent v) ch.above ch.parent_inside
              ch.parent_found ch.parent_distance (omega (arith, lt, deep)) in
          (
            l',
            path ++ v ∷ [],
            rw p run,
            items ∙ sym (append_assoc path (v ∷ []) l.items),
            further route ch.arc,
            omega (arith, len, deep, length-append path (v ∷ [])),
          )
    ]
  ]

  -- What getPath puts into an empty list.
  abbrev Got : ℕ → Type 0
  Got u =
      (l : Seq ℕ) × (get_path (fresh_seq []) g u ≡ some l)
      × ((Route adj s l.items u × ((d : ℕ) × (g.distance u ≡ some d) × (length l.items ≡ suc d)))
          ⊎ ((l.items ≡ nil ∷ []) × (g.distance u ≡ none)))

  has_path-nil : (fuel : ℕ) → 0 < fuel → has_path fuel g nil ≡ some false
  unfolding has_path
  has_path-nil zero lt = elim lt [ ]
  has_path-nil (suc fuel) lt = refl

  -- A vertex that was found and is not the source.
  found-Got :
      (u : ℕ)
      → Inside n u
      → out_of_range g u ≡ false
      → (g.source == nil) ≡ false
      → (u == g.source) ≡ false
      → is_white (g.color u) ≡ false
      → Child n adj g u
      → Got u
  unfolding get_path
  found-Got u hu in_range started p e ch =
      let few = t.few u hu e in
      let deep = ap depth ch.one_deeper in
      let way =
        has_path_lem (g.order + 1) (g.parent u) ch.above ch.parent_inside ch.parent_found
          ch.parent_distance (omega (arith, few, deep, t.order)) in
      let (l, path, run, items, route, len) =
        prepend_path_lem (g.order + 1) (fresh_seq []) u (suc ch.above) hu e ch.one_deeper
          (omega (arith, few, deep, t.order)) in
      let same : l.items ≡ path = items ∙ append-nil path in
      (
        l,
        rw (in_range, started, p, way) run,
        inl (
          subst (λ z. Route adj s z u) (sym same) route,
          (suc ch.above, ch.one_deeper, ap length same ∙ len),
        ),
      )

  white-Got :
      (u : ℕ)
      → Inside n u
      → out_of_range g u ≡ false
      → (g.source == nil) ≡ false
      → (u == g.source) ≡ false
      → is_white (g.color u) ≡ true
      → Got u
  unfolding get_path append
  white-Got u hu in_range started p w = (
    append (fresh_seq []) nil,
    rw (in_range, started, p, t.unfound u hu w, has_path-nil (g.order + 1) (omega arith)) refl,
    inr (refl, t.blank u hu w),
  )

  source-Got :
      (u : ℕ)
      → out_of_range g u ≡ false
      → (g.source == nil) ≡ false
      → (u == g.source) ≡ true
      → Got u
  unfolding get_path append
  source-Got u in_range started p =
      let q : s ≡ u = ground (arith, p, t.source) in
      (
        append (fresh_seq []) u,
        rw (in_range, started, p) refl,
        inl (
          subst (λ z. Route adj s (z ∷ []) z) q alone,
          (0, subst (λ z. g.distance z ≡ some 0) q t.root_distance, refl),
        ),
      )

  get_path-Got : (u : ℕ) → Inside n u → Got u
  get_path-Got u hu =
      let in_range : out_of_range g u ≡ false = ground (arith, hu.0, hu.1, t.order) in
      let started : (g.source == nil) ≡ false = ground (arith, t.source, t.root_inside.0) in
      elim (Bool-cases (u == g.source)) [
        | inl p ↦ source-Got u in_range started p
        | inr p ↦ elim (Bool-cases (is_white (g.color u))) [
          | inl w ↦ white-Got u hu in_range started p w
          | inr e ↦ elim (t.tree u hu e) [
            | inl q ↦ absurd (cc (is_source u q, p))
            | inr ch ↦ found-Got u hu in_range started p e ch
          ]
        ]
      ]

-- What `getPath` gives for a vertex `u`: a route from `s` with no more arcs than any walk, or NIL
-- where no walk leads to `u`.
abbrev pub IsShortest : (ℕ → List ℕ) → ℕ → ℕ → List ℕ → Type 0
IsShortest adj s u xs =
    (Route adj s xs u × ((k : ℕ) → Walk adj s u k → length xs ≤ suc k))
    ⊎ ((xs ≡ nil ∷ []) × ((k : ℕ) → Walk adj s u k → ⊥))

-- What BFS from `s` and getPath to `u` behind it give, with the distance.
abbrev pub Found : (ℕ → List ℕ) → ℕ → Graph → ℕ → Type 0
Found adj s g u =
    (l : Seq ℕ) × (get_path (fresh_seq []) g u ≡ some l)
    × IsShortest adj s u l.items
    × ((l.items ≡ nil ∷ []) ⊎ (g.distance u ≡ some (length l.items - 1)))

pub search_lem :
    (g : Graph) (s : ℕ)
    → IsGraph g
    → IsVertex g s
    → (g' : Graph) × (bfs g s ≡ some g')
      × Left g.order (adjacent g) s g'
      × ((u : ℕ) → IsVertex g u → Found (adjacent g) s g' u)
search_lem g s is hs =
    let (g', run, exact, shortest) = bfs_lem g s is hs in
    let (t, lists) : Left g.order (adjacent g) s g' =
      subst (λ o. Holds o (Left g.order (adjacent g) s)) run (bfs-Tree g s is hs) in
    (
      g',
      run,
      (t, lists),
      λ u hu.
          let (l, run', got) = get_path-Got g.order (adjacent g) s g' t u hu in
          (
            l,
            run',
            elim got [
              | inl (route, (d, dist, len)) ↦ inl (
                route,
                λ k w.
                    let (d', dist', le) = shortest u k w in
                    omega (arith, len, ap depth (sym dist ∙ dist'), le),
              )
              | inr (only, dist) ↦
                  inr (only, λ k w. let (d', dist', le) = shortest u k w in cc (dist, dist'))
            ],
            elim got [
              | inl (route, (d, dist, len)) ↦ inr (dist ∙ ap some (omega (arith, len)))
              | inr (only, dist) ↦ inl only
            ],
          ),
    )

-- In a graph whose arcs lead to vertices and whose empty lists have no cursor, BFS from a vertex
-- `s` returns, and behind it getPath returns for every vertex `u` and an empty list: the list is
-- then a route from `s` to `u` along arcs, and no walk from `s` to `u` has fewer, or it is NIL
-- alone, and no walk leads from `s` to `u`.
pub get_path_lem :
    (g : Graph) (s : ℕ)
    → IsGraph g
    → IsVertex g s
    → (g' : Graph) × (bfs g s ≡ some g')
      × ((u : ℕ)
          → IsVertex g u
          → (l : Seq ℕ) × (get_path (fresh_seq []) g' u ≡ some l)
            × IsShortest (adjacent g) s u l.items)
get_path_lem g s is hs =
    let (g', run, left, found) = search_lem g s is hs in
    (g', run, λ u hu. let (l, run', short, dist) = found u hu in (l, run', short))
