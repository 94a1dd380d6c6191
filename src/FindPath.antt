-- ===== src/FindPath.antt =====
-- Graph ADT with BFS & Shortest Paths/FindPath.c. What fscanf reads is a list of pairs; a list that
-- ends is a read that fails, and the printed lines are answers. `none` is an exit with
-- EXIT_FAILURE.
pub mod Answers
use c_lang_coding_projects.Prelude.{
  ℕ, Bool, ◌&&◌, Option, none, some, List, [], ◌∷◌, ◌==◌, leb, if◌then◌else◌,
}
use c_lang_coding_projects.Sequence.{Seq, fresh_seq, front}
use c_lang_coding_projects.Sequence.Visit.{and_then}
use c_lang_coding_projects.BfsGraph.{Graph, nil, new_graph, add_edge, bfs, get_path, get_dist}

-- A query, with the infinite distance or with a distance and a path.
pub data Answer : Type 0 where
  no_path : ℕ → ℕ → Answer
  shortest_path : ℕ → ℕ → Option ℕ → List ℕ → Answer

abbrev pub is_vertex : ℕ → ℕ → Bool
is_vertex n u = leb 1 u && leb u n

abbrev pub is_end : ℕ → ℕ → Bool
is_end u v = u == 0 && v == 0

-- The loop over the edges, with the pairs behind them.
unfoldable pub read_edges : ℕ → Graph → List (ℕ × ℕ) → Option (Graph × List (ℕ × ℕ))
read_edges n g [] = none
read_edges n g ((u, v) ∷ pairs) =
    let rest = and_then (add_edge g u v) λ g'. read_edges n g' pairs in
    if is_vertex n u && is_vertex n v then rest else if is_end u v then some (g, pairs) else none

abbrev pub answer_of : Graph → ℕ → ℕ → List ℕ → ℕ → Option Answer
answer_of g u v path first =
    if first == nil
    then some (no_path u v)
    else and_then (get_dist g v) λ d. some (shortest_path u v d path)

-- One query on the graph behind BFS.
abbrev pub answer : Graph → ℕ → ℕ → Option Answer
answer g u v =
    and_then (get_path (fresh_seq []) g v) λ l. and_then (front l) λ x. answer_of g u v l.items x

abbrev pub with_answer : Option Answer → Option (List Answer) → Option (List Answer)
with_answer a rest = and_then a λ x. and_then rest λ xs. some (x ∷ xs)

-- The loop over the queries. BFS leaves its colors in the graph for the next one.
unfoldable pub answer_queries : Graph → List (ℕ × ℕ) → Option (List Answer)
answer_queries g [] = none
answer_queries g ((u, v) ∷ pairs) =
    let rest = and_then (bfs g u) λ g'. with_answer (answer g' u v) (answer_queries g' pairs) in
    if is_end u v then some [] else rest

abbrev pub queries_of : Option (Graph × List (ℕ × ℕ)) → Option (List Answer)
queries_of none = none
queries_of (some (g, pairs)) = answer_queries g pairs

-- `main`, for `n` vertices.
unfoldable pub find_path : ℕ → List (ℕ × ℕ) → Option (List Answer)
find_path n pairs = queries_of (read_edges n (new_graph n) pairs)
