-- ===== src/Matrix/Arithmetic.antt =====
-- `sum`, `diff`, `vectorDot` and `product` of Matrix ADT with Sparse Matrix Operations/Matrix.c.
use c_lang_coding_projects.Prelude.{
  ℕ, zero, suc, ◌+◌, Bool, false, not, Option, none, some, ◌==◌, ltb, if◌then◌else◌, length,
}
use c_lang_coding_projects.Sequence.{Seq, get, move_front, move_next}
use c_lang_coding_projects.Sequence.Visit.{and_then, visit_from}
use c_lang_coding_projects.Matrix.{Doubles, Entry, MatrixObj, nonzero, new_matrix, change_entry}
use c_lang_coding_projects.Matrix.Transform.{transpose, scalar_mult}

module _ (d : Doubles) where
  open d use {Double, zero_d, one_d, two_d, minus_one_d, eq_d, add_d, mul_d}

  -- The first loop of sum over a pair of rows: the result so far, and the rows with their cursors.
  abbrev pub Merge : Type 0
  Merge = MatrixObj d × Seq (Entry d) × Seq (Entry d)

  -- The call of changeEntry for one round of that loop, and which cursors move on.
  pub data Turn : Type 0 where
    both : ℕ → Double → Turn
    left : ℕ → Double → Turn
    right : ℕ → Double → Turn
    over : Turn
    broken : Turn

  abbrev pub turn : Option ℕ → Option ℕ → Option (Entry d) → Option (Entry d) → Turn
  turn none q e f = over
  turn (some k) none e f = over
  turn (some k) (some l) none f = broken
  turn (some k) (some l) (some e) none = broken
  turn (some k) (some l) (some e) (some f) =
      if e.col == f.col
      then both e.col (add_d e.value f.value)
      else if ltb e.col f.col
      then left e.col e.value
      else right f.col f.value

  unfoldable pub sum_both : ℕ → ℕ → MatrixObj d → Seq (Entry d) → Seq (Entry d) → Option Merge
  sum_both zero i c a b = none
  sum_both (suc fuel) i c a b = elim (turn a.place b.place (get a) (get b)) [
    | both j x ↦
        and_then (change_entry d c i j x) λ c'. sum_both fuel i c' (move_next a) (move_next b)
    | left j x ↦ and_then (change_entry d c i j x) λ c'. sum_both fuel i c' (move_next a) b
    | right j x ↦ and_then (change_entry d c i j x) λ c'. sum_both fuel i c' a (move_next b)
    | over ↦ some (c, a, b)
    | broken ↦ none
  ]

  -- The two loops over what is left of a row.
  unfoldable pub add_left : ℕ → MatrixObj d → Entry d → Option (MatrixObj d)
  add_left i c e = change_entry d c i e.col e.value

  unfoldable pub sum_row : ℕ → Seq (Entry d) → Seq (Entry d) → MatrixObj d → Option (MatrixObj d)
  sum_row i a b c =
      and_then (sum_both (length a.items + length b.items + 1) i c (move_front a) (move_front b))
        λ (c', a', b').
          and_then (visit_from (length a.items + 1) (add_left i) a' c')
            λ c''. visit_from (length b.items + 1) (add_left i) b' c''

  unfoldable pub sum_from : ℕ → ℕ → MatrixObj d → MatrixObj d → MatrixObj d → Option (MatrixObj d)
  sum_from zero i a b c = some c
  sum_from (suc rounds) i a b c =
      and_then (sum_row i (a.rows i) (b.rows i) c) (sum_from rounds (i + 1) a b)

  -- `sum`; `same` tells whether the two arguments are one object (`A == B`).
  unfoldable pub sum : Bool → MatrixObj d → MatrixObj d → Option (MatrixObj d)
  sum same a b =
      if not (a.dimension == b.dimension)
      then none
      else if same
      then scalar_mult d two_d a
      else and_then (sum_from a.dimension 1 a b (new_matrix d a.dimension))
          λ c. some (record c { dimension = a.dimension })

  -- `diff`
  unfoldable pub diff : Bool → MatrixObj d → MatrixObj d → Option (MatrixObj d)
  diff same a b =
      if not (a.dimension == b.dimension)
      then none
      else if same
      then some (new_matrix d a.dimension)
      else and_then (scalar_mult d minus_one_d b) (sum false a)

  -- `vectorDot`
  unfoldable pub dot_loop : ℕ → Seq (Entry d) → Seq (Entry d) → Double → Option Double
  dot_loop zero p q result = none
  dot_loop (suc fuel) p q result = elim (turn p.place q.place (get p) (get q)) [
    | both j x ↦ and_then (get p) λ e.
        and_then (get q)
          λ f. dot_loop fuel (move_next p) (move_next q) (add_d result (mul_d e.value f.value))
    | left j x ↦ dot_loop fuel (move_next p) q result
    | right j x ↦ dot_loop fuel p (move_next q) result
    | over ↦ some result
    | broken ↦ none
  ]

  unfoldable pub vector_dot : Seq (Entry d) → Seq (Entry d) → Option Double
  vector_dot p q =
      dot_loop (length p.items + length q.items + 1) (move_front p) (move_front q) zero_d

  -- `product`
  unfoldable pub product_row :
      ℕ → ℕ → ℕ → Seq (Entry d) → MatrixObj d → MatrixObj d → Option (MatrixObj d)
  product_row zero i j row t r = some r
  product_row (suc rounds) i j row t r = and_then (vector_dot row (t.rows j)) λ x.
      and_then (if nonzero d x then change_entry d r i j x else some r)
        (product_row rounds i (j + 1) row t)

  unfoldable pub product_from :
      ℕ → ℕ → MatrixObj d → MatrixObj d → MatrixObj d → Option (MatrixObj d)
  product_from zero i a t r = some r
  product_from (suc rounds) i a t r =
      and_then (product_row a.dimension i 1 (a.rows i) t r) (product_from rounds (i + 1) a t)

  unfoldable pub product : MatrixObj d → MatrixObj d → Option (MatrixObj d)
  product a b =
      if not (a.dimension == b.dimension)
      then none
      else and_then (transpose d b) λ t. product_from a.dimension 1 a t (new_matrix d a.dimension)
