-- ===== src/Matrix/Row.antt =====
-- What `changeEntry` does to a row.
use mathlib.Core.List.{append_assoc, append-nil}
use mathlib.Core.Path.{subst}
use c_lang_coding_projects.Prelude.{
  ℕ, zero, suc, ◌+◌, ◌-◌, ◌<◌, ◌≤◌, ◌≡◌, refl, sym, ap, ◌∙◌, inl, inr, Bool-cases, true, false,
  Option, none, some, List, [], ◌∷◌, ◌++◌, arith, ◌==◌, ltb, if◌then◌else◌, length, length-append,
  set,
}
use c_lang_coding_projects.Sequence.{
  Seq, append, get, set_item, move_front, move_next, insert_before, insert_at, delete, erase_at,
}
use c_lang_coding_projects.Sequence.Visit.{get_middle}
use c_lang_coding_projects.Matrix.{
  Doubles, Entry, new_entry, nonzero, Change, kept, grown, shrunk, append_entry, change_loop,
  change_row,
}

insert_at_middle {ℓ} :
    {A : Type ℓ} (xs ys : List A) (y x : A)
    → insert_at (xs ++ y ∷ ys) (length xs) x ≡ xs ++ x ∷ y ∷ ys
insert_at_middle [] ys y x = refl
insert_at_middle (z ∷ xs) ys y x = ap (λ l. z ∷ l) (insert_at_middle xs ys y x)

erase_at_middle {ℓ} :
    {A : Type ℓ} (xs ys : List A) (y : A) → erase_at (xs ++ y ∷ ys) (length xs) ≡ xs ++ ys
erase_at_middle [] ys y = refl
erase_at_middle (z ∷ xs) ys y = ap (λ l. z ∷ l) (erase_at_middle xs ys y)

set_middle {ℓ} :
    {A : Type ℓ} (xs ys : List A) (y x : A) → set (xs ++ y ∷ ys) (length xs) x ≡ xs ++ x ∷ ys
set_middle [] ys y x = refl
set_middle (z ∷ xs) ys y x = ap (λ l. z ∷ l) (set_middle xs ys y x)

module _ (d : Doubles) where
  open d use {Double, zero_d, eq_d}

  -- The entries of a row, and those behind one of them.
  abbrev Entries : Type 0
  Entries = List (Entry d)

  -- The row with the value `x` in column `j`: no entry if `x` is 0.
  unfoldable pub change_list : ℕ → Double → List (Entry d) → List (Entry d)
  change_list j x [] = if nonzero d x then new_entry d j x ∷ [] else []
  change_list j x (e ∷ es) =
      if j == e.col
      then (if eq_d x zero_d then es else record e { value = x } ∷ es)
      else if ltb j e.col
      then (if nonzero d x then new_entry d j x ∷ e ∷ es else e ∷ es)
      else e ∷ change_list j x es

  abbrev pub row_of : Change d → Seq (Entry d)
  row_of (kept r) = r
  row_of (grown r) = r
  row_of (shrunk r) = r

  -- The number of entries, as `nnz` follows it.
  abbrev pub Counted : Change d → List (Entry d) → Type 0
  Counted (kept r) es = length r.items ≡ length es
  Counted (grown r) es = length r.items ≡ length es + 1
  Counted (shrunk r) es = length r.items + 1 ≡ length es

  abbrev pub Changed : Option (Change d) → List (Entry d) → List (Entry d) → Type 0
  Changed o es new = (c : Change d) × (o ≡ some c) × ((row_of c).items ≡ new) × Counted c es

  at : List (Entry d) → ℕ → Seq (Entry d)
  at es k = record { items = es; place = some k }

  append_entry_lem :
      (row : Seq (Entry d)) (j : ℕ) (x : Double)
      → Changed (some (append_entry d row j x)) row.items (row.items ++ change_list j x [])
  unfolding change_list append
  append_entry_lem row j x = elim (Bool-cases (nonzero d x)) [
    | inl e ↦ rw e (
      grown (append row (new_entry d j x)),
      refl,
      refl,
      omega (arith, length-append row.items (new_entry d j x ∷ [])),
    )
    | inr e ↦ rw e (kept row, refl, sym (append-nil row.items), refl)
  ]

  module _ (j : ℕ) (x : Double) where
    -- One round at the entry `e`, from what the next rounds do.
    change_loop_round :
        (fuel : ℕ) (xs : Entries) (e : Entry d) (es : Entries)
        → Changed
            (change_loop d fuel (move_next (at (xs ++ e ∷ es) (length xs))) j x)
            (xs ++ e ∷ es)
            (xs ++ e ∷ change_list j x es)
        → Changed
            (change_loop d (suc fuel) (at (xs ++ e ∷ es) (length xs)) j x)
            (xs ++ e ∷ es)
            (xs ++ change_list j x (e ∷ es))
    unfolding change_loop change_list at get move_next delete set_item insert_before
    change_loop_round fuel xs e es next = rw (get_middle xs e es) (elim (Bool-cases (j == e.col)) [
      | inl same ↦ rw same (elim (Bool-cases (eq_d x zero_d)) [
        | inl gone ↦ rw gone (
          _,
          refl,
          erase_at_middle xs es e,
          omega (
            arith,
            ap length (erase_at_middle xs es e),
            length-append xs es,
            length-append xs (e ∷ es),
          ),
        )
        | inr new ↦ rw new (
          _,
          refl,
          set_middle xs es e _,
          ap length (set_middle xs es e (record e { value = x }))
              ∙ omega (
                arith,
                length-append xs (record e { value = x } ∷ es),
                length-append xs (e ∷ es),
              ),
        )
      ])
      | inr differ ↦ rw differ (elim (Bool-cases (ltb j e.col)) [
        | inl below ↦ rw below (elim (Bool-cases (nonzero d x)) [
          | inl new ↦ rw new (
            _,
            refl,
            insert_at_middle xs es e _,
            ap length (insert_at_middle xs es e (new_entry d j x))
                ∙ omega
                    (arith, length-append xs (new_entry d j x ∷ e ∷ es), length-append xs (e ∷ es)),
          )
          | inr nothing ↦ rw nothing (_, refl, refl, refl)
        ])
        | inr above ↦ rw above next
      ])
    ])

    change_loop_lem :
        (fuel : ℕ) (xs : Entries) (e : Entry d) (es : Entries)
        → suc (length es) < fuel
        → Changed
            (change_loop d fuel (at (xs ++ e ∷ es) (length xs)) j x)
            (xs ++ e ∷ es)
            (xs ++ change_list j x (e ∷ es))
    unfolding move_next at
    change_loop_lem zero xs e es lt = elim lt [ ]
    change_loop_lem (suc zero) xs e es lt = absurd (omega arith)
    change_loop_lem (suc (suc fuel)) xs e [] lt =
        let last_one : (length xs == length (xs ++ e ∷ []) - 1) ≡ true =
          ground (arith, length-append xs (e ∷ [])) in
        change_loop_round (suc fuel) xs e [] (
          unfold change_loop in
          rw last_one (
            let (c, run, its, n) =
              append_entry_lem (record { items = xs ++ e ∷ []; place = none }) j x in
            (c, run, its ∙ append_assoc xs (e ∷ []) (change_list j x []), n)))
    change_loop_lem (suc (suc fuel)) xs e (f ∷ fs) lt =
        let more : (length xs == length (xs ++ e ∷ f ∷ fs) - 1) ≡ false =
          ground (arith, length-append xs (e ∷ f ∷ fs)) in
        let joined = append_assoc xs (e ∷ []) in
        let long : length (xs ++ e ∷ []) ≡ suc (length xs) =
          omega (arith, length-append xs (e ∷ [])) in
        let (c, run, its, n) = change_loop_lem (suc fuel) (xs ++ e ∷ []) f fs (omega arith) in
        change_loop_round (suc fuel) xs e (f ∷ fs) (
          rw more (
            c,
            subst
                (λ zs.
                  change_loop d (suc fuel) (record { items = zs; place = some (suc (length xs)) }) j
                    x
                  ≡ some c)
                (joined (f ∷ fs))
                (subst
                  (λ m.
                    change_loop d (suc fuel)
                      (record { items = (xs ++ e ∷ []) ++ f ∷ fs; place = some m }) j x
                    ≡ some c)
                  long run),
            its ∙ joined (change_list j x (f ∷ fs)),
            subst (Counted c) (joined (f ∷ fs)) n,
          ))

    Changed-change_row :
        (es : Entries) (p : Option ℕ)
        → Changed (change_row d (record { items = es; place = p }) j x) es (change_list j x es)
    unfolding change_row move_front at
    Changed-change_row [] p = append_entry_lem (record { items = []; place = p }) j x
    Changed-change_row (e ∷ es) p =
        let full : (length (e ∷ es) == 0) ≡ false = ground arith in
        let some_entries : ltb 0 (length (e ∷ es)) ≡ true = ground arith in
        rw (full, some_entries) (change_loop_lem (length (e ∷ es) + 1) [] e es (omega arith))

    -- `changeEntry` returns a row with the entries of `change_list`, and counts the entries that come
    -- and go.
    pub change_row_lem :
        (row : Seq (Entry d)) → Changed (change_row d row j x) row.items (change_list j x row.items)
    change_row_lem row = Changed-change_row row.items row.place

  -- The value in column `k`, if there is an entry.
  abbrev pub lookup : ℕ → List (Entry d) → Option Double
  lookup k [] = none
  lookup k (e ∷ es) = if k == e.col then some e.value else lookup k es

  -- All entries stand in columns behind `j`.
  abbrev pub Behind : ℕ → List (Entry d) → Type 0
  Behind j [] = Unit
  Behind j (e ∷ es) = (j < e.col) × Behind j es

  -- The columns rise.
  abbrev pub Rising : List (Entry d) → Type 0
  Rising [] = Unit
  Rising (e ∷ es) = Behind e.col es × Rising es

  Behind-mono : (i j : ℕ) (es : List (Entry d)) → i ≤ j → Behind j es → Behind i es
  Behind-mono i j [] le b = tt
  Behind-mono i j (e ∷ es) le b = (omega (arith, b.0), Behind-mono i j es le b.1)

  lookup-Behind : (j : ℕ) (es : List (Entry d)) → Behind j es → lookup j es ≡ none
  lookup-Behind j [] b = refl
  lookup-Behind j (e ∷ es) b = ground (arith, b.0, lookup-Behind j es b.1)

  Behind-change :
      (i j : ℕ) (x : Double) (es : List (Entry d))
      → i < j
      → Behind i es
      → Behind i (change_list j x es)
  unfolding change_list
  Behind-change i j x [] lt b = elim (Bool-cases (nonzero d x)) [
    | inl e ↦ rw e (lt, tt)
    | inr e ↦ rw e tt
  ]
  Behind-change i j x (f ∷ es) lt b = elim (Bool-cases (j == f.col)) [
    | inl same ↦ rw same (elim (Bool-cases (eq_d x zero_d)) [ inl e ↦ rw e b.1 | inr e ↦ rw e b ])
    | inr differ ↦ rw differ (elim (Bool-cases (ltb j f.col)) [
      | inl below ↦
          rw below (elim (Bool-cases (nonzero d x)) [ inl e ↦ rw e (lt, b) | inr e ↦ rw e b ])
      | inr above ↦ rw above (b.0, Behind-change i j x es lt b.1)
    ])
  ]

  Rising-change :
      (j : ℕ) (x : Double) (es : List (Entry d)) → Rising es → Rising (change_list j x es)
  unfolding change_list
  Rising-change j x [] r = elim (Bool-cases (nonzero d x)) [
    | inl e ↦ rw e (tt, tt)
    | inr e ↦ rw e tt
  ]
  Rising-change j x (f ∷ es) r = elim (Bool-cases (j == f.col)) [
    | inl same ↦ rw same (elim (Bool-cases (eq_d x zero_d)) [ inl e ↦ rw e r.1 | inr e ↦ rw e r ])
    | inr differ ↦ rw differ (elim (Bool-cases (ltb j f.col)) [
      | inl below ↦ rw below (elim (Bool-cases (nonzero d x)) [
        | inl e ↦
            rw e ((ground (arith, below), Behind-mono j f.col es (ground (arith, below)) r.0), r)
        | inr e ↦ rw e r
      ])
      | inr above ↦
          rw above (
            Behind-change f.col j x es (ground (arith, differ, above)) r.0,
            Rising-change j x es r.1,
          )
    ])
  ]

  lookup-change :
      (j k : ℕ) (x : Double) (es : List (Entry d))
      → Rising es
      → lookup k (change_list j x es)
        ≡ (if k == j then (if nonzero d x then some x else none) else lookup k es)
  unfolding change_list
  lookup-change j k x [] r = elim (Bool-cases (nonzero d x)) [
    | inl e ↦ rw e refl
    | inr e ↦ rw e (ground arith)
  ]
  lookup-change j k x (f ∷ es) r = elim (Bool-cases (j == f.col)) [
    | inl same ↦
        let none_behind = lookup-Behind f.col es r.0 in
        rw same (elim (Bool-cases (eq_d x zero_d)) [
          | inl e ↦ rw e (ground (arith, same, none_behind))
          | inr e ↦ rw e (ground (arith, same))
        ])
    | inr differ ↦ rw differ (elim (Bool-cases (ltb j f.col)) [
      | inl below ↦
          let lt : j < f.col = ground (arith, below) in
          let none_here =
            lookup-Behind j (f ∷ es) (lt, Behind-mono j f.col es (ground (arith, lt)) r.0) in
          rw below (elim (Bool-cases (nonzero d x)) [
            | inl e ↦ rw e refl
            | inr e ↦ rw e (ground (arith, none_here))
          ])
      | inr above ↦ rw above (ground (arith, differ, lookup-change j k x es r.1))
    ])
  ]

  -- `changeEntry` at column `j` of a row whose columns rise: the row's columns rise again, column `j`
  -- has the value `x`, or no entry if `x` is 0, and every other column is as it was.
  pub change_row-lookup :
      (row : Seq (Entry d)) (j : ℕ) (x : Double)
      → Rising row.items
      → (c : Change d) × (change_row d row j x ≡ some c)
        × Rising (row_of c).items
        × ((k : ℕ)
            → lookup k (row_of c).items
              ≡ (if k == j then (if nonzero d x then some x else none) else lookup k row.items))
        × Counted c row.items
  change_row-lookup row j x r =
      let (c, run, its, n) = change_row_lem j x row in
      (
        c,
        run,
        subst Rising (sym its) (Rising-change j x row.items r),
        λ k. ap (lookup k) its ∙ lookup-change j k x row.items r,
        n,
      )
