-- ===== src/Sequence.antt =====
-- The List ADT as List.h promises it: a sequence of items and the place of a cursor. The functions
-- of List.c are compared with these in Sequence.Refinement and Sequence.Movement, and the clients
-- (the graphs, the sorting program, the matrix) are modelled over them. `none` as a result is a
-- call outside its precondition, where List.c ends the process.
pub mod Insertion
pub mod Sorted
pub mod Visit
pub mod Refinement
pub mod Movement
use c_lang_coding_projects.Prelude.{
  ℕ, zero, suc, ◌+◌, ◌-◌, Bool, true, false, Option, none, some, List, [], ◌∷◌, ◌++◌, ◌==◌, ltb,
  if◌then◌else◌, length, get_elem?, set,
}

pub record Seq {ℓ} (A : Type ℓ) : Type ℓ where
  pub items : List A
  pub place : Option ℕ

abbrev pub place_prev : Option ℕ → Option ℕ
place_prev none = none
place_prev (some zero) = none
place_prev (some (suc i)) = some i

abbrev pub place_next : ℕ → Option ℕ → Option ℕ
place_next n none = none
place_next n (some i) = if i == n - 1 then none else some (suc i)

abbrev pub place_shift : Option ℕ → Option ℕ
place_shift none = none
place_shift (some i) = some (suc i)

module _ {ℓ} {A : Type ℓ} where
  abbrev pub fresh_seq : List A → Seq A
  fresh_seq xs = record { items = xs; place = none }

  -- `xs` with `x` before its item number `i`.
  abbrev pub insert_at : List A → ℕ → A → List A
  insert_at [] i x = x ∷ []
  insert_at (y ∷ ys) zero x = x ∷ y ∷ ys
  insert_at (y ∷ ys) (suc i) x = y ∷ insert_at ys i x

  abbrev pub tail_of : List A → List A
  tail_of [] = []
  tail_of (x ∷ xs) = xs

  unfoldable pub front : Seq A → Option A
  front s = get_elem? s.items 0

  abbrev pub get_place : List A → Option ℕ → Option A
  get_place xs none = none
  get_place xs (some i) = get_elem? xs i

  unfoldable pub get : Seq A → Option A
  get s = get_place s.items s.place

  unfoldable pub move_front : Seq A → Seq A
  move_front s = if ltb 0 (length s.items) then record s { place = some 0 } else s

  unfoldable pub move_back : Seq A → Seq A
  move_back s = if ltb 0 (length s.items) then record s { place = some (length s.items - 1) } else s

  unfoldable pub move_prev : Seq A → Seq A
  move_prev s = record s { place = place_prev s.place }

  unfoldable pub move_next : Seq A → Seq A
  move_next s = record s { place = place_next (length s.items) s.place }

  unfoldable pub prepend : Seq A → A → Seq A
  prepend s x = record { items = x ∷ s.items; place = place_shift s.place }

  unfoldable pub append : Seq A → A → Seq A
  append s x = record s { items = s.items ++ x ∷ [] }

  abbrev pub insert_after_place : Seq A → Option ℕ → A → Option (Seq A)
  insert_after_place s none x = none
  insert_after_place s (some i) x = some (record s { items = insert_at s.items (suc i) x })

  unfoldable pub insert_after : Seq A → A → Option (Seq A)
  insert_after s x = insert_after_place s s.place x

  abbrev pub insert_before_place : Seq A → Option ℕ → A → Option (Seq A)
  insert_before_place s none x = none
  insert_before_place s (some i) x =
      some (record { items = insert_at s.items i x; place = some (suc i) })

  unfoldable pub insert_before : Seq A → A → Option (Seq A)
  insert_before s x = insert_before_place s s.place x

  abbrev pub dropped : List A → Option ℕ → Option (Seq A)
  dropped [] i = none
  dropped (x ∷ xs) i = some (record { items = xs; place = place_prev i })

  unfoldable pub delete_front : Seq A → Option (Seq A)
  delete_front s = dropped s.items s.place

  abbrev pub set_place : Seq A → Option ℕ → A → Option (Seq A)
  set_place s none x = none
  set_place s (some i) x = some (record s { items = set s.items i x })

  -- `set(L, x)`
  unfoldable pub set_item : Seq A → A → Option (Seq A)
  set_item s x = set_place s s.place x

  abbrev pub erase_at : List A → ℕ → List A
  erase_at [] i = []
  erase_at (x ∷ xs) zero = xs
  erase_at (x ∷ xs) (suc i) = x ∷ erase_at xs i

  abbrev pub delete_place : Seq A → Option ℕ → Option (Seq A)
  delete_place s none = none
  delete_place s (some i) = some (record { items = erase_at s.items i; place = none })

  -- `delete(L)` as List.h promises it, with the cursor undefined behind it. LinkedList.Delete has what
  -- List.c does with `index` there.
  unfoldable pub delete : Seq A → Option (Seq A)
  delete s = delete_place s s.place
