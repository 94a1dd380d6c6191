-- ===== src/BfsGraph.antt =====
-- Graph ADT with BFS & Shortest Paths/Graph.c. `struct GraphObj` is a record; its lists are those of
-- the List ADT (Sequence), one for each vertex. `none` as a result is the end of the process
-- (`exit(EXIT_FAILURE)`). A distance of INF is `none`; NIL is 0.
pub mod Arcs
pub mod Walks
pub mod Discover
pub mod Rounds
pub mod Shortest
pub mod Tree
pub mod Parents
pub mod Paths
pub mod WellFormed
use c_lang_coding_projects.Prelude.{
  ℕ, zero, suc, ◌+◌, ◌-◌, Bool, true, false, not, ◌&&◌, ◌||◌, Option, none, some, List, [], ◌∷◌,
  ◌++◌, ◌==◌, ltb, if◌then◌else◌, length,
}
use c_lang_coding_projects.Sequence.{Seq, fresh_seq, front, append, prepend, delete_front}
use c_lang_coding_projects.Sequence.Insertion.{insert_from_back}
use c_lang_coding_projects.Sequence.Visit.{and_then, visit}
use c_lang_coding_projects.Arrays.{put, fill}

-- WHITE, GRAY and BLACK
pub data Color : Type 0 where
  white : Color
  gray : Color
  black : Color

-- `NIL`
abbrev pub nil : ℕ
nil = 0

-- `struct GraphObj`
pub record Graph : Type 0 where
  pub neighbors : ℕ → Seq ℕ
  pub color : ℕ → Color
  pub parent : ℕ → ℕ
  pub distance : ℕ → Option ℕ
  pub order : ℕ
  pub size : ℕ
  pub source : ℕ

-- `newGraph`
unfoldable pub new_graph : ℕ → Graph
new_graph n = record {
  neighbors = λ i. fresh_seq [];
  color = λ i. white;
  parent = λ i. nil;
  distance = λ i. none;
  order = n;
  size = 0;
  source = nil;
}

-- `u < 1 || u > getOrder(G)`
abbrev pub out_of_range : Graph → ℕ → Bool
out_of_range g u = ltb u 1 || ltb g.order u

-- `getParent`
unfoldable pub get_parent : Graph → ℕ → Option ℕ
get_parent g u =
    if out_of_range g u then none else if g.source == nil then some nil else some (g.parent u)

-- `getDist`
unfoldable pub get_dist : Graph → ℕ → Option (Option ℕ)
get_dist g u =
    if out_of_range g u then none else if g.source == nil then some none else some (g.distance u)

-- The loop of getPath that looks for the source among the ancestors: whether there is a path. `none`
-- is a loop that goes on after `fuel` rounds.
unfoldable pub has_path : ℕ → Graph → ℕ → Option Bool
has_path zero g p = none
has_path (suc fuel) g p =
    let rest = has_path fuel g (g.parent p) in
    if p == nil then some false else if p == g.source then some true else rest

-- The loop of getPath that prepends the path, with the prepend of the source behind it.
unfoldable pub prepend_path : ℕ → Graph → Seq ℕ → ℕ → Option (Seq ℕ)
prepend_path zero g l u = none
prepend_path (suc fuel) g l u =
    let rest = prepend_path fuel g (prepend l u) (g.parent u) in
    if u == g.source then some (prepend l u) else rest

-- `getPath`. An ancestor chain in a graph of `order` vertices has at most `order` links.
unfoldable pub get_path : Seq ℕ → Graph → ℕ → Option (Seq ℕ)
get_path l g u =
    if out_of_range g u
    then none
    else if g.source == nil
    then none
    else if u == g.source
    then some (append l u)
    else and_then (has_path (g.order + 1) g (g.parent u))
        λ found. if found then prepend_path (g.order + 1) g l u else some (append l nil)

-- `makeNull`
unfoldable pub make_null : Graph → Graph
make_null g = record g {
  neighbors = fill g.order g.neighbors (fresh_seq []);
  color = fill g.order g.color white;
  parent = fill g.order g.parent nil;
  distance = fill g.order g.distance none;
  size = 0;
  source = nil;
}

-- `addArc`
unfoldable pub add_arc : Graph → ℕ → ℕ → Option Graph
add_arc g u v =
    if out_of_range g u || out_of_range g v
    then none
    else and_then
        (if length (g.neighbors u).items == 0
          then some (append (g.neighbors u) v)
          else insert_from_back (λ y. ltb v y) (g.neighbors u) v)
        λ l. some (record g { neighbors = put g.neighbors u l; size = g.size + 1 })

-- `addEdge`
unfoldable pub add_edge : Graph → ℕ → ℕ → Option Graph
add_edge g u v =
    if out_of_range g u || out_of_range g v
    then none
    else and_then (if u == v then add_arc g u v else and_then (add_arc g u v) λ g'. add_arc g' v u)
        λ g'. some (record g' { size = g'.size - 1 })

abbrev pub is_white : Color → Bool
is_white white = true
is_white gray = false
is_white black = false

-- `G->distance[u] + 1`, where INF is -1.
abbrev pub next_distance : Option ℕ → Option ℕ
next_distance none = some 0
next_distance (some d) = some (suc d)

-- The body of the inner loop of BFS: the neighbor `v` of `u`, with the queue.
unfoldable pub discover : ℕ → Graph × Seq ℕ → ℕ → Option (Graph × Seq ℕ)
discover u (g, q) v = some (
    if is_white (g.color v)
    then (
      record g {
        color = put g.color v gray;
        distance = put g.distance v (next_distance (g.distance u));
        parent = put g.parent v u;
      },
      append q v,
    )
    else (g, q))

-- The outer loop of BFS. The inner loop leaves the cursor of the list of `u` undefined.
unfoldable pub bfs_loop : ℕ → Graph → Seq ℕ → Option Graph
bfs_loop zero g q = none
bfs_loop (suc fuel) g q =
    let rest = and_then (front q) λ u. and_then (delete_front q) λ q'.
      and_then (visit (discover u) (g.neighbors u) (g, q')) λ (g', q'').
        bfs_loop fuel
          (record g' {
            color = put g'.color u black;
            neighbors = put g'.neighbors u (fresh_seq (g'.neighbors u).items);
          })
          q'' in
    if ltb 0 (length q.items) then rest else some g

-- The assignments of BFS before its loop.
unfoldable pub bfs_start : Graph → ℕ → Graph
bfs_start g s = record g {
  color = put (fill g.order g.color white) s gray;
  distance = put (fill g.order g.distance none) s (some 0);
  parent = fill g.order g.parent nil;
  source = s;
}

-- `BFS`. Each vertex is in the queue at most once, so `order` rounds and a last test are enough.
unfoldable pub bfs : Graph → ℕ → Option Graph
bfs g s = bfs_loop (g.order + 1) (bfs_start g s) (append (fresh_seq []) s)
