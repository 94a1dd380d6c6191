-- ===== src/Examples/Dfs.antt =====
-- Concrete graphs of Graph ADT with DFS and Strongly Connected Components/Graph.c.
use c_lang_coding_projects.Prelude.{
  ℕ, ◌≡◌, refl, arith, ◌&&◌, ◌||◌, some, [], ◌∷◌, ◌==◌, if◌then◌else◌,
}
use c_lang_coding_projects.Int.{inc}
use c_lang_coding_projects.Sequence.{fresh_seq}
use c_lang_coding_projects.BfsGraph.Walks.{has}
use c_lang_coding_projects.DfsGraph.{Graph, new_graph, add_arc}
use c_lang_coding_projects.DfsGraph.Arcs.{adjacent, IsVertex, IsDistinct, add_arc-IsDistinct}

-- Three vertices, with arcs from 1 to 1 and to 3.
abbrev arcs_of_one : Graph
arcs_of_one = record (new_graph 3) {
  neighbors = λ i. if i == 1 then fresh_seq (1 ∷ 3 ∷ []) else fresh_seq [];
}

one-IsVertex : IsVertex arcs_of_one 1
unfolding new_graph
one-IsVertex = (omega arith, omega arith)

three-IsVertex : IsVertex arcs_of_one 3
unfolding new_graph
three-IsVertex = (omega arith, omega arith)

add_arc-IsDistinct_example :
    (g' : Graph) × (add_arc arcs_of_one 1 3 ≡ some g')
    × IsDistinct (adjacent g' 1)
    × ((w y : ℕ)
        → has (adjacent g' w) y ≡ (((1 == w) && (3 == y)) || has (adjacent arcs_of_one w) y))
    × (g'.size
        ≡ (if has (adjacent arcs_of_one 1) 3 then arcs_of_one.size else inc arcs_of_one.size))
add_arc-IsDistinct_example =
    add_arc-IsDistinct arcs_of_one 1 3 one-IsVertex three-IsVertex (refl, (refl, tt))
