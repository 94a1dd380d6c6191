-- ===== src/Examples/Paths.antt =====
-- Witnesses for FindPath.c (Graph ADT with BFS & Shortest Paths).
use c_lang_coding_projects.Prelude.{ℕ, ◌≡◌, arith, some, List, [], ◌∷◌}
use c_lang_coding_projects.BfsGraph.Walks.{has}
use c_lang_coding_projects.FindPath.{Answer, find_path}
use c_lang_coding_projects.FindPath.Answers.{joined, ended, AreAnswers, find_path_lem}

-- A line of three vertices, and one vertex alone.
abbrev two_edges : List (ℕ × ℕ)
two_edges = (1, 2) ∷ (3, 2) ∷ []

abbrev two_queries : List (ℕ × ℕ)
two_queries = (1, 3) ∷ (1, 4) ∷ []

find_path_lem_example :
    (adj : ℕ → List ℕ) × (answers : List Answer) × (find_path 4
        (ended two_edges (ended two_queries []))
      ≡ some answers)
    × ((w y : ℕ) → has (adj w) y ≡ joined two_edges w y)
    × AreAnswers adj two_queries answers
find_path_lem_example = find_path_lem 4 two_edges two_queries [] (omega arith) (omega arith)
