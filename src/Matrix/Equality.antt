-- ===== src/Matrix/Equality.antt =====
-- `equals` of Matrix ADT with Sparse Matrix Operations/Matrix.c.
use c_lang_coding_projects.Prelude.{
  ℕ, zero, suc, ◌+◌, Bool, true, false, not, ◌||◌, Option, none, some, ◌==◌, if◌then◌else◌, length,
}
use c_lang_coding_projects.Sequence.{Seq, get, move_front, move_next}
use c_lang_coding_projects.Sequence.Visit.{and_then}
use c_lang_coding_projects.Matrix.{Doubles, Entry, MatrixObj}

module _ (d : Doubles) where
  open d use {Double, zero_d, one_d, two_d, minus_one_d, eq_d, add_d, mul_d}

  -- The loop of equals over two rows.
  abbrev pub equal_at :
      Option ℕ → Option ℕ → Option (Entry d) → Option (Entry d) → Option Bool → Option Bool
  equal_at none q e f rest = some true
  equal_at (some k) none e f rest = some true
  equal_at (some k) (some l) none f rest = none
  equal_at (some k) (some l) (some e) none rest = none
  equal_at (some k) (some l) (some e) (some f) rest =
      if not (e.col == f.col) || not (eq_d e.value f.value) then some false else rest

  unfoldable pub equal_rows : ℕ → Seq (Entry d) → Seq (Entry d) → Option Bool
  equal_rows zero a b = none
  equal_rows (suc fuel) a b =
      let rest = equal_rows fuel (move_next a) (move_next b) in
      equal_at a.place b.place (get a) (get b) rest

  unfoldable pub equal_from : ℕ → ℕ → MatrixObj d → MatrixObj d → Option Bool
  equal_from zero i a b = some true
  equal_from (suc rounds) i a b =
      let rest = equal_from rounds (i + 1) a b in
      if not (length (a.rows i).items == length (b.rows i).items)
      then some false
      else and_then
          (equal_rows (length (a.rows i).items + 1) (move_front (a.rows i)) (move_front (b.rows i)))
          λ same. if same then rest else some false

  -- `equals`
  unfoldable pub equals : MatrixObj d → MatrixObj d → Option Bool
  equals a b =
      if not (a.dimension == b.dimension) || not (a.nnz == b.nnz)
      then some false
      else equal_from a.dimension 1 a b
