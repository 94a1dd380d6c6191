-- ===== src/DfsGraph.antt =====
-- Graph ADT with DFS and Strongly Connected Components/Graph.c, as BfsGraph models its namesake.
-- UNDEF is `none`. `size` may fall below 0 (addEdge), so it is an integer.
pub mod Arcs
use c_lang_coding_projects.Prelude.{
  ℕ, zero, suc, ◌+◌, Bool, true, false, not, ◌||◌, Option, none, some, [], ◌==◌, ltb, if◌then◌else◌,
  length,
}
use c_lang_coding_projects.Int.{ℤ, pos, inc, dec}
use c_lang_coding_projects.Sequence.{Seq, fresh_seq, append, get, set_item, move_front, move_next}
use c_lang_coding_projects.Sequence.Insertion.{insert_from_back}
use c_lang_coding_projects.Sequence.Visit.{and_then, visit}
use c_lang_coding_projects.Arrays.{put, fill}

pub data Color : Type 0 where
  white : Color
  gray : Color
  black : Color

-- `NIL`
abbrev pub nil : ℕ
nil = 0

-- `struct GraphObj`
pub record Graph : Type 0 where
  pub neighbors : ℕ → Seq ℕ
  pub color : ℕ → Color
  pub parent : ℕ → ℕ
  pub order : ℕ
  pub size : ℤ
  pub discover : ℕ → Option ℕ
  pub finish : ℕ → Option ℕ

-- `newGraph`
unfoldable pub new_graph : ℕ → Graph
new_graph n = record {
  neighbors = λ i. fresh_seq [];
  color = λ i. white;
  parent = λ i. nil;
  order = n;
  size = pos 0;
  discover = λ i. none;
  finish = λ i. none;
}

-- `u < 1 || u > getOrder(G)`
abbrev pub out_of_range : Graph → ℕ → Bool
out_of_range g u = ltb u 1 || ltb g.order u

-- `getParent`, `getDiscover` and `getFinish`
unfoldable pub get_parent : Graph → ℕ → Option ℕ
get_parent g u = if out_of_range g u then none else some (g.parent u)

unfoldable pub get_discover : Graph → ℕ → Option (Option ℕ)
get_discover g u = if out_of_range g u then none else some (g.discover u)

unfoldable pub get_finish : Graph → ℕ → Option (Option ℕ)
get_finish g u = if out_of_range g u then none else some (g.finish u)

abbrev pub find_round :
    Seq ℕ → Option ℕ → Option ℕ → ℕ → Option (Bool × Seq ℕ) → Option (Bool × Seq ℕ)
find_round l none o v rest = some (false, l)
find_round l (some i) none v rest = none
find_round l (some i) (some x) v rest = if x == v then some (true, l) else rest

-- The search of addArc for `v`: whether it is there, and the list with the cursor on it or nowhere.
unfoldable pub find_arc : ℕ → Seq ℕ → ℕ → Option (Bool × Seq ℕ)
find_arc zero l v = none
find_arc (suc fuel) l v =
    let rest = find_arc fuel (move_next l) v in find_round l l.place (get l) v rest

abbrev pub with_arc : Graph → ℕ → Seq ℕ → Graph
with_arc g u l = record g { neighbors = put g.neighbors u l; size = inc g.size }

-- addArc behind its search: an arc that is there already changes no list and no size.
abbrev pub add_found : Graph → ℕ → ℕ → Bool × Seq ℕ → Option Graph
add_found g u v (true, l) = some (record g { neighbors = put g.neighbors u l })
add_found g u v (false, l) =
    and_then (insert_from_back (λ y. ltb v y) l v) λ l'. some (with_arc g u l')

-- `addArc`
unfoldable pub add_arc : Graph → ℕ → ℕ → Option Graph
add_arc g u v =
    if out_of_range g u || out_of_range g v
    then none
    else if length (g.neighbors u).items == 0
    then some (with_arc g u (append (g.neighbors u) v))
    else and_then (find_arc (length (g.neighbors u).items + 1) (move_front (g.neighbors u)) v)
        (add_found g u v)

-- `addEdge`
unfoldable pub add_edge : Graph → ℕ → ℕ → Option Graph
add_edge g u v =
    if out_of_range g u || out_of_range g v
    then none
    else and_then (if u == v then add_arc g u v else and_then (add_arc g u v) λ g'. add_arc g' v u)
        λ g'. some (record g' { size = dec g'.size })

abbrev pub is_white : Color → Bool
is_white white = true
is_white gray = false
is_white black = false

-- The start and the end of DFS_Visit.
unfoldable pub open_vertex : Graph → ℕ → ℕ → Graph
open_vertex g u time = record g {
  discover = put g.discover u (some time);
  color = put g.color u gray;
}

unfoldable pub close_vertex : Graph → ℕ → ℕ → Graph
close_vertex g u time = record g {
  finish = put g.finish u (some time);
  color = put g.color u black;
}

-- The loop over the neighbors of `u`, with the recursive call as an argument; the cursor of the list
-- is undefined behind it.
unfoldable pub visit_neighbors :
    (Graph → ℕ → ℕ → Option (Graph × ℕ)) → Graph → ℕ → ℕ → Option (Graph × ℕ)
visit_neighbors recurse g u time =
    if ltb 0 (length (g.neighbors u).items)
    then and_then
        (visit
          (λ (g', t) v.
            if is_white (g'.color v)
            then recurse (record g' { parent = put g'.parent v u }) v t
            else some (g', t))
          (g.neighbors u) (g, time))
        (λ (g', t).
          some (record g' { neighbors = put g'.neighbors u (fresh_seq (g'.neighbors u).items) }, t))
    else some (g, time)

-- `DFS_Visit`; the calls that are open at once are on distinct vertices, so `order` bounds their
-- number.
unfoldable pub dfs_visit : ℕ → Graph → ℕ → ℕ → Option (Graph × ℕ)
dfs_visit zero g u time = none
dfs_visit (suc fuel) g u time =
    and_then (visit_neighbors (dfs_visit fuel) (open_vertex g u (time + 1)) u (time + 1))
      (λ (g', t). some (close_vertex g' u (t + 1), t + 1))

-- The assignments of DFS before its first loop.
unfoldable pub dfs_start : Graph → Graph
dfs_start g = record g {
  color = fill g.order g.color white;
  parent = fill g.order g.parent nil;
  discover = fill g.order g.discover none;
  finish = fill g.order g.finish none;
}

-- The first loop of DFS.
unfoldable pub dfs_forest : Graph → Seq ℕ → Option (Graph × ℕ)
dfs_forest g s =
    visit (λ (g', t) u. if is_white (g'.color u) then dfs_visit g'.order g' u t else some (g', t)) s
      (dfs_start g, 0)

-- `G->finish[a] < G->finish[b]`, where UNDEF is -1.
abbrev pub finish_lt : Option ℕ → Option ℕ → Bool
finish_lt a none = false
finish_lt none (some m) = true
finish_lt (some n) (some m) = ltb n m

-- The second loop of DFS: the vertices of S in a new list, the greatest finishing time in front.
unfoldable pub by_finish : Graph → Seq ℕ → Option (Seq ℕ)
by_finish g s =
    visit (λ l v. insert_from_back (λ y. finish_lt (g.finish y) (g.finish v)) l v) s (fresh_seq [])

abbrev pub copy_round : Seq ℕ → Option ℕ → Option ℕ → (Seq ℕ → Option (Seq ℕ)) → Option (Seq ℕ)
copy_round s none o next = some s
copy_round s (some i) none next = none
copy_round s (some i) (some x) next = and_then (set_item s x) next

-- The third loop of DFS: the items of L over those of S.
unfoldable pub copy_items : ℕ → Seq ℕ → Seq ℕ → Option (Seq ℕ)
copy_items zero l s = none
copy_items (suc fuel) l s =
    copy_round s l.place (get l) λ s'. copy_items fuel (move_next l) (move_next s')

-- `DFS`: the graph and the list S behind it.
unfoldable pub dfs : Graph → Seq ℕ → Option (Graph × Seq ℕ)
dfs g s =
    if not (length s.items == g.order)
    then none
    else and_then (dfs_forest g s) λ (g', t). and_then (by_finish g' s) λ l.
      and_then (copy_items (length l.items + 1) (move_front l) (move_front s)) λ s'. some (g', s')

-- The loop of transpose over the vertices from `i` on, `rounds` of them: the arcs of `g` turned round
-- in `g1`, and the attributes of `g`.
unfoldable pub transpose_loop : ℕ → ℕ → Graph → Graph → Option Graph
transpose_loop zero i g g1 = some g1
transpose_loop (suc rounds) i g g1 =
    and_then
      (if ltb 0 (length (g.neighbors i).items)
        then visit (λ g' v. add_arc g' v i) (g.neighbors i) g1
        else some g1)
      λ g'. transpose_loop rounds (i + 1) g (record g' {
        color = put g'.color i (g.color i);
        parent = put g'.parent i (g.parent i);
        discover = put g'.discover i (g.discover i);
        finish = put g'.finish i (g.finish i);
      })

-- `transpose`
unfoldable pub transpose : Graph → Option Graph
transpose g =
    and_then (transpose_loop g.order 1 g (new_graph g.order))
      λ g1. some (record g1 { size = g.size; order = g.order })

-- The loop of copyGraph.
unfoldable pub copy_loop : ℕ → ℕ → Graph → Graph → Graph
copy_loop zero i g g1 = g1
copy_loop (suc rounds) i g g1 = copy_loop rounds (i + 1) g (record g1 {
  neighbors = put g1.neighbors i (fresh_seq (g.neighbors i).items);
  color = put g1.color i (g.color i);
  parent = put g1.parent i (g.parent i);
  discover = put g1.discover i (g.discover i);
  finish = put g1.finish i (g.finish i);
})

-- `copyGraph`
unfoldable pub copy_graph : Graph → Graph
copy_graph g =
    let g1 = copy_loop g.order 1 g (new_graph g.order) in
    record g1 { size = g.size; order = g.order }
