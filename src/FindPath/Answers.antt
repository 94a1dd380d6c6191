-- ===== src/FindPath/Answers.antt =====
-- What FindPath.c (Graph ADT with BFS & Shortest Paths) answers.
use mathlib.Core.Path.{subst, fun_ext}
use c_lang_coding_projects.Prelude.{
  ℕ, suc, ◌-◌, ◌≤◌, ◌≡◌, inl, inr, refl, sym, ap, ◌∙◌, Bool, true, false, ◌&&◌, ◌||◌, some, List,
  [], ◌∷◌, ◌++◌, arith, ◌==◌, length, get_elem?,
}
use c_lang_coding_projects.Sequence.{Seq, front}
use c_lang_coding_projects.BfsGraph.{Graph, nil, new_graph, get_dist, out_of_range}
use c_lang_coding_projects.BfsGraph.Arcs.{adjacent}
use c_lang_coding_projects.BfsGraph.Walks.{has, Walk}
use c_lang_coding_projects.BfsGraph.Rounds.{Inside}
use c_lang_coding_projects.BfsGraph.Shortest.{IsGraph, Lists}
use c_lang_coding_projects.BfsGraph.WellFormed.{
  IsWellFormed, new_graph-IsWellFormed, add_edge-IsWellFormed,
}
use c_lang_coding_projects.BfsGraph.Tree.{Tree}
use c_lang_coding_projects.BfsGraph.Paths.{Route, alone, further, Found, search_lem}
use c_lang_coding_projects.FindPath.{
  Answer, no_path, shortest_path, is_vertex, is_end, read_edges, answer, answer_queries, find_path,
}

-- Pairs of vertices.
abbrev pub Within : ℕ → List (ℕ × ℕ) → Type 0
Within n [] = Unit
Within n ((u, v) ∷ pairs) = Inside n u × Inside n v × Within n pairs

-- Whether an edge joins two vertices.
abbrev pub joined : List (ℕ × ℕ) → ℕ → ℕ → Bool
joined [] w y = false
joined ((u, v) ∷ edges) w y = ((u == w) && (v == y)) || (((v == w) && (u == y)) || joined edges w y)

-- The end of a list of pairs.
abbrev pub ended : List (ℕ × ℕ) → List (ℕ × ℕ) → List (ℕ × ℕ)
ended pairs rest = pairs ++ (0, 0) ∷ rest

or_assoc : (a b c d : Bool) → (c || (a || (b || d))) ≡ ((a || (b || c)) || d)
or_assoc true b c d = ground arith
or_assoc false true c d = ground arith
or_assoc false false c d = refl

or_false : (b : Bool) → (b || false) ≡ b
or_false true = refl
or_false false = refl

read_edges_lem :
    (n : ℕ) (g : Graph) (edges rest : List (ℕ × ℕ))
    → IsWellFormed g
    → g.order ≡ n
    → Within n edges
    → (g' : Graph) × (read_edges n g (ended edges rest) ≡ some (g', rest))
      × IsWellFormed g'
      × (g'.order ≡ n)
      × ((w y : ℕ) → has (adjacent g' w) y ≡ (joined edges w y || has (adjacent g w) y))
unfolding read_edges
read_edges_lem n g [] rest wf o h = (g, refl, wf, o, λ w y. refl)
read_edges_lem n g ((u, v) ∷ edges) rest wf o (hu, hv, h) =
    let valid : (is_vertex n u && is_vertex n v) ≡ true = ground (arith, hu.0, hu.1, hv.0, hv.1) in
    let (g1, run, wf1, arcs1, o1, size1) =
      add_edge-IsWellFormed g u v wf (subst (λ m. Inside m u) (sym o) hu)
        (subst (λ m. Inside m v) (sym o) hv) in
    let (g2, run2, wf2, o2, arcs2) = read_edges_lem n g1 edges rest wf1 (o1 ∙ o) h in
    (
      g2,
      rw (valid, run) run2,
      wf2,
      o2,
      λ w y.
          arcs2 w y
          ∙ (ap (λ b. joined edges w y || b) (arcs1 w y)
              ∙ or_assoc ((u == w) && (v == y)) ((v == w) && (u == y)) (joined edges w y)
                  (has (adjacent g w) y)),
    )

-- An answer is right: no walk leads from `u` to `v`, or the path is a route along arcs, the
-- distance is its number of arcs, and no walk has fewer.
abbrev pub IsAnswer : (ℕ → List ℕ) → ℕ → ℕ → Answer → Type 0
IsAnswer adj u v (no_path u' v') = (u' ≡ u) × (v' ≡ v) × ((k : ℕ) → Walk adj u v k → ⊥)
IsAnswer adj u v (shortest_path u' v' d xs) =
    (u' ≡ u)
    × (v' ≡ v)
    × Route adj u xs v
    × (d ≡ some (length xs - 1))
    × ((k : ℕ) → Walk adj u v k → length xs ≤ suc k)

-- There is one right answer for each query.
abbrev pub AreAnswers : (ℕ → List ℕ) → List (ℕ × ℕ) → List Answer → Type 0
AreAnswers adj [] [] = Unit
AreAnswers adj [] (a ∷ answers) = ⊥
AreAnswers adj (q ∷ queries) [] = ⊥
AreAnswers adj ((u, v) ∷ queries) (a ∷ answers) =
    IsAnswer adj u v a × AreAnswers adj queries answers

Route-first :
    {adj : ℕ → List ℕ} {s v : ℕ} {xs : List ℕ} → Route adj s xs v → (ys : List ℕ) × (xs ≡ s ∷ ys)
Route-first alone = ([], refl)
Route-first (further {v} r arc) =
    let (ys, e) = Route-first r in (ys ++ v ∷ [], ap (λ l. l ++ v ∷ []) e)

first_item : (l : Seq ℕ) (x : ℕ) (ys : List ℕ) → l.items ≡ x ∷ ys → front l ≡ some x
unfolding front
first_item l x ys e = ap (λ xs. get_elem? xs 0) e

module _ (n : ℕ) (adj : ℕ → List ℕ) (u v : ℕ) (g : Graph) (t : Tree n adj u g) (hu : Inside n u)
    (hv : Inside n v) where
  Answers : Type 0
  Answers = (a : Answer) × (answer g u v ≡ some a) × IsAnswer adj u v a

  get_dist_lem : get_dist g v ≡ some (g.distance v)
  unfolding get_dist
  get_dist_lem =
      let a : out_of_range g v ≡ false = ground (arith, hv.0, hv.1, t.order) in
      let b : (g.source == nil) ≡ false = ground (arith, t.source, hu.0) in rw (a, b) refl

  answer_lem : Found adj u g v → Answers
  unfolding Answers
  answer_lem (l, run, inr (only, no_walk), dist) =
      (no_path u v, rw (run, first_item l nil [] only) refl, (refl, refl, no_walk))
  answer_lem (l, run, inl (route, least), inl only) =
      let (ys, first) = Route-first route in
      let z : u ≡ 0 = cc (sym first ∙ only) in absurd (omega (arith, hu.0, z))
  answer_lem (l, run, inl (route, least), inr dist) =
      let (ys, first) = Route-first route in
      let real : (u == nil) ≡ false = ground (arith, hu.0) in
      let front_l : front l ≡ some u = first_item l u ys first in
      (
        shortest_path u v (g.distance v) l.items,
        rw (run, front_l, real, get_dist_lem) refl,
        (refl, refl, route, dist, least),
      )

module _ (n : ℕ) (adj : ℕ → List ℕ)
    (arcs : (u v : ℕ) → Inside n u → has (adj u) v ≡ true → Inside n v) where
  answer_queries_lem :
      (g : Graph) (queries rest : List (ℕ × ℕ))
      → Lists adj g.neighbors
      → g.order ≡ n
      → Within n queries
      → (answers : List Answer) × (answer_queries g (ended queries rest) ≡ some answers)
        × AreAnswers adj queries answers
  unfolding answer_queries Answers
  answer_queries_lem g [] rest lists o h = ([], refl, tt)
  answer_queries_lem g ((u, v) ∷ queries) rest lists o (hu, hv, h) =
      let same : adjacent g ≡ adj = fun_ext (λ w. (lists w).0) in
      let no_end : is_end u v ≡ false = ground (arith, hu.0) in
      let is : IsGraph g = record {
        arcs = λ w y hw i.
            subst (λ m. Inside m y) (sym o)
              (arcs w y (subst (λ m. Inside m w) o hw) (subst (λ l. has l y ≡ true) (lists w).0 i));
        cursors = λ w e. (lists w).1 e;
      } in
      let (g1, run, (t, lists1), found) = search_lem g u is (subst (λ m. Inside m u) (sym o) hu) in
      let hu' = subst (λ m. Inside m u) (sym o) hu in
      let hv' = subst (λ m. Inside m v) (sym o) hv in
      let (a, ra, ia) = answer_lem g.order (adjacent g) u v g1 t hu' hv' (found v hv') in
      let (answers, rs, right) =
        answer_queries_lem g1 queries rest (subst (λ l. Lists l g1.neighbors) same lists1)
          (t.order ∙ o) h in
      (a ∷ answers, rw (no_end, run, ra, rs) refl, (subst (λ l. IsAnswer l u v a) same ia, right))

-- For edges between the vertices 1 to `n`, a pair of zeros, queries for such vertices and a pair of
-- zeros, main comes to its end. There is a graph in which an arc leads from one vertex to another
-- exactly where an edge joins them, and for each query one answer in this graph: either that no
-- path exists, and then no walk leads from the source to the destination, or a distance and a path,
-- which is a route of that many arcs along arcs, and no walk has fewer.
pub find_path_lem :
    (n : ℕ) (edges queries rest : List (ℕ × ℕ))
    → Within n edges
    → Within n queries
    → (adj : ℕ → List ℕ) × (answers : List Answer) × (find_path n (ended edges (ended queries rest))
        ≡ some answers)
      × ((w y : ℕ) → has (adj w) y ≡ joined edges w y)
      × AreAnswers adj queries answers
unfolding find_path new_graph
find_path_lem n edges queries rest he hq =
    let (g, run, wf, o, arcs) =
      read_edges_lem n (new_graph n) edges (ended queries rest) (new_graph-IsWellFormed n) refl
        he in
    let (answers, run', right) =
      answer_queries_lem n (adjacent g)
        (λ u v hu i.
          subst (λ m. Inside m v) o (wf.graph.arcs u v (subst (λ m. Inside m u) (sym o) hu) i))
        g queries rest (λ w. (refl, wf.graph.cursors w)) o hq in
    (adjacent g, answers, rw run run', λ w y. arcs w y ∙ or_false (joined edges w y), right)
