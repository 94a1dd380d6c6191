-- ===== src/Examples/Clients.antt =====
-- Concrete inputs of the programs that use the List ADT.
use mathlib.Core.List.{Perm}
use c_lang_coding_projects.Prelude.{
  ◌<◌, ◌*◌, ◌&&◌, ◌||◌, map, Bool-cases, inl, inr, ℕ, ◌+◌, ◌≤◌, ◌≡◌, arith, Bool, true, false, none,
  some, List, [], ◌∷◌, ◌==◌, ltb, if◌then◌else◌,
}
use c_lang_coding_projects.Sequence.{Seq, fresh_seq}
use c_lang_coding_projects.Sequence.Insertion.{insert_from_back, insert_last, insert_from_back_lem}
use c_lang_coding_projects.Sequence.Sorted.{IsSorted}
use c_lang_coding_projects.Sequence.Visit.{visit, fold_option, visit_lem}
use c_lang_coding_projects.Lex.{sorted_output, print_line, line_count}
use c_lang_coding_projects.Lex.Order.{IsTotal, upfrom, sorted_output_lem, line_count-pos}
use c_lang_coding_projects.BfsGraph.{Graph, new_graph, add_arc, add_edge, bfs, get_path}
use c_lang_coding_projects.BfsGraph.Walks.{has, Walk}
use c_lang_coding_projects.BfsGraph.Shortest.{IsGraph, bfs_lem}
use c_lang_coding_projects.BfsGraph.Paths.{IsShortest, get_path_lem}
use c_lang_coding_projects.BfsGraph.WellFormed.{
  IsWellFormed, WithArc, add_arc-IsWellFormed, add_edge-IsWellFormed,
}
use c_lang_coding_projects.BfsGraph.Arcs.{adjacent, IsVertex}
use c_lang_coding_projects.Matrix.{Doubles, MatrixObj, change_entry, Entry, nonzero}
use c_lang_coding_projects.Matrix.Whole.{entries, IsMatrix, value_at, change_entry_lem}
use c_lang_coding_projects.Matrix.Row.{Rising}

-- A list with its cursor on the second of three items.
abbrev row_of_three : Seq ℕ
row_of_three = record { items = 1 ∷ 4 ∷ 7 ∷ []; place = some 1 }

insert_from_back_lem_example :
    (t : Seq ℕ) × (insert_from_back (λ y. ltb 5 y) row_of_three 5 ≡ some t)
    × (t.items ≡ insert_last (λ y. ltb 5 y) 5 (1 ∷ 4 ∷ 7 ∷ []))
insert_from_back_lem_example = insert_from_back_lem (λ y. ltb 5 y) row_of_three 5 (omega arith)

visit_lem_example :
    visit (print_line ltb (λ j. j + 10)) row_of_three []
    ≡ fold_option (print_line ltb (λ j. j + 10)) [] (1 ∷ 4 ∷ 7 ∷ [])
visit_lem_example = visit_lem (print_line ltb (λ j. j + 10)) row_of_three [] (λ e. cc)

-- Lines that are numbers, in falling order in the array.
abbrev greater : ℕ → ℕ → Bool
greater a b = ltb b a

greater-IsTotal : IsTotal greater
greater-IsTotal = record {
  antisym = λ a b e. ground (arith, e);
  trans = λ a b c e f. ground (arith, e, f);
}

abbrev falling : ℕ → ℕ
falling i = if i == 0 then 9 else if i == 1 then 5 else 2

sorted_output_lem_example :
    (out : List ℕ) × (sorted_output greater falling 3 ≡ some out)
    × IsSorted (λ a b. greater a b ≡ false) out
    × Perm out (map falling (upfrom 0 3))
sorted_output_lem_example = sorted_output_lem greater falling greater-IsTotal 2

-- Three vertices, with arcs from 1 to 1 and to 3.
abbrev two_arcs : Graph
two_arcs = record (new_graph 3) {
  neighbors = λ i. if i == 1 then fresh_seq (1 ∷ 3 ∷ []) else fresh_seq [];
  size = 2;
}

two_arcs-IsSorted : IsSorted ◌≤◌ (adjacent two_arcs 1)
two_arcs-IsSorted = ((omega arith, tt), (tt, tt))

no_vertex : (IsVertex two_arcs 1 × IsVertex two_arcs 4) → ⊥
unfolding new_graph
no_vertex h = omega (arith, h.1.1)

two_arcs-IsGraph : IsGraph two_arcs
unfolding new_graph
two_arcs-IsGraph = record {
  arcs = λ u v h i. elim (Bool-cases (u == 1)) [
    | inl e ↦ ground (arith, e, i)
    | inr e ↦ ground (arith, e, i)
  ];
  cursors = λ u e. elim (Bool-cases (u == 1)) [
    | inl d ↦ ground (arith, d, e)
    | inr d ↦ ground (arith, d, e)
  ];
}

one-IsVertex : IsVertex two_arcs 1
unfolding new_graph
one-IsVertex = (omega arith, omega arith)

bfs_lem_example :
    (g' : Graph) × (bfs two_arcs 1 ≡ some g')
    × ((v d : ℕ) → IsVertex two_arcs v → g'.distance v ≡ some d → Walk (adjacent two_arcs) 1 v d)
    × ((v k : ℕ) → Walk (adjacent two_arcs) 1 v k → (d : ℕ) × (g'.distance v ≡ some d) × (d ≤ k))
bfs_lem_example = bfs_lem two_arcs 1 two_arcs-IsGraph one-IsVertex

get_path_lem_example :
    (g' : Graph) × (bfs two_arcs 1 ≡ some g')
    × ((u : ℕ)
        → IsVertex two_arcs u
        → (l : Seq ℕ) × (get_path (fresh_seq []) g' u ≡ some l)
          × IsShortest (adjacent two_arcs) 1 u l.items)
get_path_lem_example = get_path_lem two_arcs 1 two_arcs-IsGraph one-IsVertex

IsSorted-if :
    (b : Bool) → IsSorted ◌≤◌ (if b then fresh_seq {A = ℕ} (1 ∷ 3 ∷ []) else fresh_seq []).items
IsSorted-if true = ((omega arith, tt), (tt, tt))
IsSorted-if false = tt

two_arcs-IsWellFormed : IsWellFormed two_arcs
two_arcs-IsWellFormed = record { graph = two_arcs-IsGraph; sorted = λ u. IsSorted-if (u == 1) }

two-IsVertex : IsVertex two_arcs 2
unfolding new_graph
two-IsVertex = (omega arith, omega arith)

add_arc-IsWellFormed_example :
    (g' : Graph) × (add_arc two_arcs 1 2 ≡ some g')
    × IsWellFormed g'
    × WithArc two_arcs 1 2 g'
    × (g'.order ≡ two_arcs.order)
    × (g'.size ≡ 3)
add_arc-IsWellFormed_example =
    add_arc-IsWellFormed two_arcs 1 2 two_arcs-IsWellFormed one-IsVertex two-IsVertex

add_edge-IsWellFormed_example :
    (g' : Graph) × (add_edge two_arcs 1 2 ≡ some g')
    × IsWellFormed g'
    × ((w y : ℕ)
        → has (adjacent g' w) y
          ≡ (((1 == w) && (2 == y)) || (((2 == w) && (1 == y)) || has (adjacent two_arcs w) y)))
    × (g'.order ≡ two_arcs.order)
    × (g'.size ≡ 3)
add_edge-IsWellFormed_example =
    add_edge-IsWellFormed two_arcs 1 2 two_arcs-IsWellFormed one-IsVertex two-IsVertex

-- Numbers that stand for doubles.
abbrev numbers : Doubles
numbers = record {
  Double = ℕ;
  zero_d = 0;
  one_d = 1;
  two_d = 2;
  minus_one_d = 1;
  eq_d = ◌==◌;
  add_d = ◌+◌;
  mul_d = ◌*◌;
}

abbrev row_of_two : Seq (Entry numbers)
row_of_two = record {
  items = record { col = 2; value = 5 } ∷ record { col = 6; value = 8 } ∷ [];
  place = none;
}

Rising-if : (b : Bool) → Rising numbers (if b then row_of_two else fresh_seq []).items
Rising-if true = ((omega arith, tt), (tt, tt))
Rising-if false = tt

-- A matrix with two entries in its second row.
abbrev two_entries : MatrixObj numbers
two_entries = record {
  rows = λ i. if i == 2 then row_of_two else fresh_seq [];
  dimension = 8;
  nnz = 2;
}

two_entries-IsMatrix : IsMatrix numbers two_entries
unfolding entries
two_entries-IsMatrix = record { rising = λ i lo hi. Rising-if (i == 2); counted = omega arith }

change_entry_lem_example :
    (m' : MatrixObj numbers) × (change_entry numbers two_entries 2 4 7 ≡ some m')
    × IsMatrix numbers m'
    × (m'.dimension ≡ 8)
    × ((a b : ℕ)
        → value_at numbers m' a b ≡ (
            if (2 == a) && (b == 4)
            then (if nonzero numbers 7 then some 7 else none)
            else value_at numbers two_entries a b))
change_entry_lem_example =
    change_entry_lem numbers two_entries 2 4 7 two_entries-IsMatrix (omega arith, omega arith)
      (omega arith, omega arith)

line_count-pos_example : 0 < line_count []
line_count-pos_example = line_count-pos []
