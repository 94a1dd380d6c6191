-- ===== src/Matrix.antt =====
-- Matrix ADT with Sparse Matrix Operations/Matrix.c. A row is a list of the List ADT (Sequence) whose
-- items are the entries: an entry stands in one list only, so an assignment to its `data` is one to
-- the item. The C type double and its operations are a parameter. `none` is the end of the process.
pub mod Row
pub mod Whole
pub mod Equality
pub mod Transform
pub mod Arithmetic
use c_lang_coding_projects.Prelude.{
  ℕ, zero, suc, ◌+◌, ◌-◌, Bool, true, false, not, ◌&&◌, ◌||◌, Option, none, some, List, [], ◌∷◌,
  ◌++◌, ◌==◌, ltb, if◌then◌else◌, length,
}
use c_lang_coding_projects.Sequence.{
  Seq, fresh_seq, append, get, set_item, move_front, move_next, insert_before, delete,
}
use c_lang_coding_projects.Sequence.Visit.{and_then, visit, visit_from}
use c_lang_coding_projects.Arrays.{put, fill}

-- double, with `==`, `+`, `*` and the constants that Matrix.c uses.
pub record Doubles : Type 1 where
  pub Double : Type 0
  pub zero_d : Double
  pub one_d : Double
  pub two_d : Double
  pub minus_one_d : Double
  pub eq_d : Double → Double → Bool
  pub add_d : Double → Double → Double
  pub mul_d : Double → Double → Double

module _ (d : Doubles) where
  open d use {Double, zero_d, one_d, two_d, minus_one_d, eq_d, add_d, mul_d}

  -- `struct EntryObj`
  pub record Entry : Type 0 where
    pub col : ℕ
    pub value : Double

  abbrev pub new_entry : ℕ → Double → Entry
  new_entry j x = record { col = j; value = x }

  -- `struct MatrixObj`
  pub record MatrixObj : Type 0 where
    pub rows : ℕ → Seq Entry
    pub dimension : ℕ
    pub nnz : ℕ

  -- `x != 0.0`
  abbrev pub nonzero : Double → Bool
  nonzero x = not (eq_d x zero_d)

  -- `newMatrix`
  unfoldable pub new_matrix : ℕ → MatrixObj
  new_matrix n = record { rows = λ i. fresh_seq []; dimension = n; nnz = 0 }

  -- `makeZero`
  unfoldable pub make_zero : MatrixObj → MatrixObj
  make_zero m = record m { rows = fill m.dimension m.rows (fresh_seq []); nnz = 0 }

  -- What changeEntry makes of a row, and of `nnz`.
  pub data Change : Type 0 where
    kept : Seq Entry → Change
    grown : Seq Entry → Change
    shrunk : Seq Entry → Change

  abbrev pub shrunk_row : Option (Seq Entry) → Option Change
  shrunk_row none = none
  shrunk_row (some r) = some (shrunk r)

  abbrev pub kept_row : Option (Seq Entry) → Option Change
  kept_row none = none
  kept_row (some r) = some (kept r)

  abbrev pub grown_row : Option (Seq Entry) → Option Change
  grown_row none = none
  grown_row (some r) = some (grown r)

  -- Behind the loop of changeEntry: the new entry goes to the end of the row.
  abbrev pub append_entry : Seq Entry → ℕ → Double → Change
  append_entry row j x = if nonzero x then grown (append row (new_entry j x)) else kept row

  abbrev pub change_at :
      Seq Entry → ℕ → Double → Option ℕ → Option Entry → Option Change → Option Change
  change_at row j x none o rest = some (append_entry row j x)
  change_at row j x (some k) none rest = none
  change_at row j x (some k) (some e) rest =
      if j == e.col
      then (if eq_d x zero_d
          then shrunk_row (delete row)
          else kept_row (set_item row (record e { value = x })))
      else if ltb j e.col
      then (if nonzero x then grown_row (insert_before row (new_entry j x)) else some (kept row))
      else rest

  -- The loop of changeEntry.
  unfoldable pub change_loop : ℕ → Seq Entry → ℕ → Double → Option Change
  change_loop zero row j x = none
  change_loop (suc fuel) row j x =
      let rest = change_loop fuel (move_next row) j x in change_at row j x row.place (get row) rest

  unfoldable pub change_row : Seq Entry → ℕ → Double → Option Change
  change_row row j x =
      if length row.items == 0
      then some (append_entry row j x)
      else change_loop (length row.items + 1) (move_front row) j x

  abbrev pub with_change : MatrixObj → ℕ → Change → MatrixObj
  with_change m i (kept row) = record m { rows = put m.rows i row }
  with_change m i (grown row) = record m { rows = put m.rows i row; nnz = m.nnz + 1 }
  with_change m i (shrunk row) = record m { rows = put m.rows i row; nnz = m.nnz - 1 }

  -- `i < 1 || i > size(M)`
  abbrev pub out_of_range : MatrixObj → ℕ → Bool
  out_of_range m i = ltb i 1 || ltb m.dimension i

  -- `changeEntry`
  unfoldable pub change_entry : MatrixObj → ℕ → ℕ → Double → Option MatrixObj
  change_entry m i j x =
      if out_of_range m i || out_of_range m j
      then none
      else and_then (change_row (m.rows i) j x) λ c. some (with_change m i c)
