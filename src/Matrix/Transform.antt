-- ===== src/Matrix/Transform.antt =====
-- `transpose`, `scalarMult` and `copy` of Matrix ADT with Sparse Matrix Operations/Matrix.c.
use c_lang_coding_projects.Prelude.{ℕ, zero, suc, ◌+◌, Option, some, if◌then◌else◌}
use c_lang_coding_projects.Sequence.{append}
use c_lang_coding_projects.Sequence.Visit.{and_then, visit}
use c_lang_coding_projects.Arrays.{put}
use c_lang_coding_projects.Matrix.{Doubles, Entry, new_entry, MatrixObj, new_matrix}

module _ (d : Doubles) where
  open d use {Double, zero_d, one_d, two_d, minus_one_d, eq_d, add_d, mul_d}

  -- `transpose`: the entries of row `i` of `a` go to the ends of the rows of `b`.
  unfoldable pub transpose_row : ℕ → MatrixObj d → Entry d → Option (MatrixObj d)
  transpose_row i b e =
      some (record b { rows = put b.rows e.col (append (b.rows e.col) (new_entry d i e.value)) })

  unfoldable pub transpose_from : ℕ → ℕ → MatrixObj d → MatrixObj d → Option (MatrixObj d)
  transpose_from zero i a b = some b
  transpose_from (suc rounds) i a b =
      and_then (visit (transpose_row i) (a.rows i) b) (transpose_from rounds (i + 1) a)

  unfoldable pub transpose : MatrixObj d → Option (MatrixObj d)
  transpose a =
      and_then (transpose_from a.dimension 1 a (new_matrix d a.dimension))
        λ b. some (record b { dimension = a.dimension; nnz = a.nnz })

  -- `scalarMult`
  unfoldable pub scale_row : ℕ → Double → MatrixObj d → Entry d → Option (MatrixObj d)
  scale_row i x b e =
      some
        (record b { rows = put b.rows i (append (b.rows i) (new_entry d e.col (mul_d e.value x))) })

  unfoldable pub scale_from : ℕ → ℕ → Double → MatrixObj d → MatrixObj d → Option (MatrixObj d)
  scale_from zero i x a b = some b
  scale_from (suc rounds) i x a b =
      and_then (visit (scale_row i x) (a.rows i) b) (scale_from rounds (i + 1) x a)

  unfoldable pub scalar_mult : Double → MatrixObj d → Option (MatrixObj d)
  scalar_mult x a =
      if eq_d x zero_d
      then some (new_matrix d a.dimension)
      else and_then (scale_from a.dimension 1 x a (new_matrix d a.dimension))
          λ b. some (record b { dimension = a.dimension; nnz = a.nnz })

  -- `copy`
  unfoldable pub copy : MatrixObj d → Option (MatrixObj d)
  copy a = scalar_mult one_d a
