-- ===== src/Matrix/Whole.antt =====
-- changeEntry of Matrix ADT with Sparse Matrix Operations/Matrix.c on a whole matrix.
use mathlib.Core.Path.{subst}
use c_lang_coding_projects.Prelude.{
  ℕ, zero, suc, ◌+◌, ◌≤◌, ◌<◌, ◌≡◌, inl, inr, refl, sym, ap, ◌∙◌, Bool-cases, false, ◌&&◌, ◌||◌,
  Option, none, some, [], arith, ◌==◌, if◌then◌else◌, length,
}
use c_lang_coding_projects.Sequence.{Seq, fresh_seq}
use c_lang_coding_projects.Arrays.{put, put_self, put_other}
use c_lang_coding_projects.Matrix.{
  Doubles, Entry, MatrixObj, Change, kept, grown, shrunk, nonzero, with_change, out_of_range,
  change_entry, new_matrix,
}
use c_lang_coding_projects.Matrix.Row.{row_of, Counted, Rising, lookup, change_row-lookup}

module _ (d : Doubles) where
  open d use {Double}

  -- The entries of the rows 1 to `n`.
  unfoldable pub entries : ℕ → (ℕ → Seq (Entry d)) → ℕ
  entries zero rows = 0
  entries (suc n) rows = entries n rows + length (rows (suc n)).items

  entries-above :
      (n : ℕ) (rows : ℕ → Seq (Entry d)) (i : ℕ) (r : Seq (Entry d))
      → n < i
      → entries n (put rows i r) ≡ entries n rows
  unfolding entries put
  entries-above zero rows i r lt = refl
  entries-above (suc n) rows i r lt =
      let ne : (i == suc n) ≡ false = ground (arith, lt) in
      rw (ne, entries-above n rows i r (omega (arith, lt))) refl

  entries-put :
      (n : ℕ) (rows : ℕ → Seq (Entry d)) (i : ℕ) (r : Seq (Entry d))
      → 1 ≤ i
      → i ≤ n
      → entries n (put rows i r) + length (rows i).items ≡ entries n rows + length r.items
  unfolding entries put
  entries-put zero rows i r lo hi = absurd (omega (arith, lo, hi))
  entries-put (suc n) rows i r lo hi = elim (Bool-cases (i == suc n)) [
    | inl e ↦
        let same : i ≡ suc n = ground (arith, e) in
        rw (e, entries-above n rows i r (omega (arith, same)))
          (omega (arith, ap (λ z. length (rows z).items) same))
    | inr e ↦ rw e (omega (arith, entries-put n rows i r lo (ground (arith, e, hi))))
  ]

  -- The columns of each row rise, and `nnz` counts the entries.
  pub record IsMatrix (m : MatrixObj d) : Type 0 where
    pub rising : (i : ℕ) → 1 ≤ i → i ≤ m.dimension → Rising d (m.rows i).items
    pub counted : m.nnz ≡ entries m.dimension m.rows

  -- The value at a place; none is 0.
  abbrev pub value_at : MatrixObj d → ℕ → ℕ → Option Double
  value_at m i j = lookup d j (m.rows i).items

  Rising-put :
      (m : MatrixObj d) (i : ℕ) (r : Seq (Entry d))
      → IsMatrix m
      → Rising d r.items
      → (k : ℕ) → 1 ≤ k
      → k ≤ m.dimension
      → Rising d (put m.rows i r k).items
  Rising-put m i r ok new k lo hi = elim (Bool-cases (i == k)) [
    | inl e ↦
        let same : i ≡ k = ground (arith, e) in
        subst (λ z. Rising d (put m.rows i r z).items) same
          (subst (λ (t : Seq (Entry d)). Rising d t.items) (sym (put_self m.rows i r)) new)
    | inr e ↦
        subst (λ (t : Seq (Entry d)). Rising d t.items)
          (sym (put_other m.rows i r k (λ q. ground (arith, e, q)))) (ok.rising k lo hi)
  ]

  with_change-IsMatrix :
      (m : MatrixObj d) (i : ℕ) (c : Change d)
      → IsMatrix m
      → 1 ≤ i
      → i ≤ m.dimension
      → Rising d (row_of d c).items
      → Counted d c (m.rows i).items
      → IsMatrix (with_change d m i c)
  with_change-IsMatrix m i (kept r) ok lo hi new n = record {
    rising = Rising-put m i r ok new;
    counted = omega (arith, entries-put m.dimension m.rows i r lo hi, n, ok.counted);
  }
  with_change-IsMatrix m i (grown r) ok lo hi new n = record {
    rising = Rising-put m i r ok new;
    counted = omega (arith, entries-put m.dimension m.rows i r lo hi, n, ok.counted);
  }
  with_change-IsMatrix m i (shrunk r) ok lo hi new n = record {
    rising = Rising-put m i r ok new;
    counted = omega (arith, entries-put m.dimension m.rows i r lo hi, n, ok.counted);
  }

  with_change-rows :
      (m : MatrixObj d) (i : ℕ) (c : Change d)
      → ((with_change d m i c).rows ≡ put m.rows i (row_of d c))
        × ((with_change d m i c).dimension ≡ m.dimension)
  with_change-rows m i (kept r) = (refl, refl)
  with_change-rows m i (grown r) = (refl, refl)
  with_change-rows m i (shrunk r) = (refl, refl)

  changed_value :
      (m : MatrixObj d) (i j : ℕ) (r : Seq (Entry d)) (o : Option Double)
      → ((k : ℕ) → lookup d k r.items ≡ (if k == j then o else lookup d k (m.rows i).items))
      → (a b : ℕ)
      → lookup d b (put m.rows i r a).items ≡ (if (i == a) && (b == j) then o else value_at m a b)
  changed_value m i j r o h a b = elim (Bool-cases (i == a)) [
    | inl e ↦
        let same : i ≡ a = ground (arith, e) in
        rw e (
          subst (λ z. lookup d b (put m.rows i r z).items ≡ (if b == j then o else value_at m z b))
            same (ap (λ (t : Seq (Entry d)). lookup d b t.items) (put_self m.rows i r) ∙ h b))
    | inr e ↦ rw e (
        ap (λ (t : Seq (Entry d)). lookup d b t.items)
          (put_other m.rows i r a (λ q. ground (arith, e, q))))
  ]

  -- A new matrix is one: it has no entries.
  pub new_matrix-IsMatrix : (n : ℕ) → IsMatrix (new_matrix d n)
  unfolding new_matrix entries
  new_matrix-IsMatrix n = record { rising = λ i lo hi. tt; counted = sym (no_entries n) }
    where
      no_entries : (n : ℕ) → entries n (λ i. fresh_seq []) ≡ 0
      no_entries zero = refl
      no_entries (suc n) = omega (arith, no_entries n)

  -- In a matrix whose columns rise in every row and whose `nnz` counts its entries, changeEntry at
  -- a place `(i, j)` returns such a matrix of the same dimension: it has the value `x` at the
  -- place, or no entry if `x` is 0, and at every other place what it had.
  pub change_entry_lem :
      (m : MatrixObj d) (i j : ℕ) (x : Double)
      → IsMatrix m
      → (1 ≤ i) × (i ≤ m.dimension)
      → (1 ≤ j) × (j ≤ m.dimension)
      → (m' : MatrixObj d) × (change_entry d m i j x ≡ some m')
        × IsMatrix m'
        × (m'.dimension ≡ m.dimension)
        × ((a b : ℕ)
            → value_at m' a b ≡ (
                if (i == a) && (b == j)
                then (if nonzero d x then some x else none)
                else value_at m a b))
  unfolding change_entry
  change_entry_lem m i j x ok hi hj =
      let inside : (out_of_range d m i || out_of_range d m j) ≡ false =
        ground (arith, hi.0, hi.1, hj.0, hj.1) in
      let (c, run, new, values, n) = change_row-lookup d (m.rows i) j x (ok.rising i hi.0 hi.1) in
      let (rows, dimension) = with_change-rows m i c in
      (
        with_change d m i c,
        rw (inside, run) refl,
        with_change-IsMatrix m i c ok hi.0 hi.1 new n,
        dimension,
        λ a b.
            ap (λ (f : ℕ → Seq (Entry d)). lookup d b (f a).items) rows
            ∙ changed_value m i j (row_of d c) (if nonzero d x then some x else none) values a b,
      )
