-- ===== src/Lex/Order.antt =====
-- The output of Lex.c is the input's lines in order.
use mathlib.Core.Path.{subst}
use mathlib.Core.List.{Perm, perm_middle, append_assoc, append-nil}
use mathlib.Core.List.Perm
use c_lang_coding_projects.Prelude.{
  ℕ, zero, suc, ◌+◌, ◌-◌, ◌<◌, ◌≡◌, refl, sym, ap, ◌∙◌, Bool, Bool-cases, inl, inr, true, false,
  Option, some, List, [], ◌∷◌, ◌++◌, map, arith, length, ◌==◌, if◌then◌else◌,
}
use c_lang_coding_projects.Sequence.{Seq, fresh_seq, append}
use c_lang_coding_projects.Sequence.Insertion.{insert_from_back_lem, insert_last}
use c_lang_coding_projects.Sequence.Sorted.{All, IsSorted, insert_last-IsSorted, insert_last-Perm}
use c_lang_coding_projects.Sequence.Visit.{and_then, visit, visit_lem, fold_option}
use c_lang_coding_projects.Lex.{
  newline, count_bytes, line_count, sort_loop, sort_lines, print_line, sorted_output,
}

-- What the sorting loop relies on in `strcmp(a, b) > 0`: it is the strict part of a total preorder.
pub record IsTotal {Line : Type 0} (gt : Line → Line → Bool) : Type 0 where
  pub antisym : (a b : Line) → gt a b ≡ true → gt b a ≡ false
  pub trans : (a b c : Line) → gt a b ≡ false → gt b c ≡ false → gt a c ≡ false

-- The numbers from `i` on, `n` of them.
abbrev pub upfrom : ℕ → ℕ → List ℕ
upfrom i zero = []
upfrom i (suc n) = i ∷ upfrom (i + 1) n

module _ {Line : Type 0} (gt : Line → Line → Bool) (arr : ℕ → Line) where
  -- Line `a` may stand Before line `b`.
  abbrev pub Before : ℕ → ℕ → Type 0
  Before a b = gt (arr a) (arr b) ≡ false

  length-insert_last :
      (above : ℕ → Bool) (x : ℕ) (xs : List ℕ) → 0 < length (insert_last above x xs)
  unfolding insert_last
  length-insert_last above x [] = omega arith
  length-insert_last above x (y ∷ ys) = ground arith

  sort_loop_lem :
      IsTotal gt
      → (rounds i : ℕ) (l : Seq ℕ) → 0 < length l.items
      → IsSorted Before l.items
      → (t : Seq ℕ) × (sort_loop gt arr rounds i l ≡ some t)
        × IsSorted Before t.items
        × Perm t.items (l.items ++ upfrom i rounds)
        × (0 < length t.items)
  unfolding sort_loop
  sort_loop_lem o zero i l pos s =
      (l, refl, s, subst (Perm l.items) (sym (append-nil l.items)) (Perm.refl l.items), pos)
  sort_loop_lem o (suc rounds) i l pos s =
      let above : ℕ → Bool = λ j. gt (arr j) (arr i) in
      let (m, run, its) = insert_from_back_lem above l i pos in
      let sorted =
        insert_last-IsSorted Before above i (λ y e. o.antisym (arr y) (arr i) e) (λ y e. e)
          (λ a b c p q. o.trans (arr a) (arr b) (arr c) p q) l.items s in
      let some_items : 0 < length m.items =
        subst (λ xs. 0 < length xs) (sym its) (length-insert_last above i l.items) in
      let (t, run', sorted', perm, pos') =
        sort_loop_lem o rounds (i + 1) m some_items (subst (IsSorted Before) (sym its) sorted) in
      let added : Perm (m.items ++ upfrom (i + 1) rounds) (i ∷ l.items ++ upfrom (i + 1) rounds) =
        subst (λ xs. Perm (xs ++ upfrom (i + 1) rounds) (i ∷ l.items ++ upfrom (i + 1) rounds))
          (sym its)
          (Perm.append (insert_last-Perm above i l.items) (Perm.refl (upfrom (i + 1) rounds))) in
      (
        t,
        rw run run',
        sorted',
        Perm.trans perm
            (Perm.trans added (Perm.symm (perm_middle l.items (upfrom (i + 1) rounds)))),
        pos',
      )

  print-map :
      (out : List Line) (xs : List ℕ)
      → fold_option (print_line gt arr) out xs ≡ some (out ++ map arr xs)
  unfolding print_line
  print-map out [] = ap (λ o. some o) (sym (append-nil out))
  print-map out (x ∷ xs) =
      print-map (out ++ arr x ∷ []) xs
      ∙ ap (λ o. some o) (append_assoc out (arr x ∷ []) (map arr xs))

  All-map : (P : Line → Type 0) (xs : List ℕ) → All (λ j. P (arr j)) xs → All P (map arr xs)
  All-map P [] h = tt
  All-map P (x ∷ xs) h = (h.0, All-map P xs h.1)

  IsSorted-map : (xs : List ℕ) → IsSorted Before xs → IsSorted (λ a b. gt a b ≡ false) (map arr xs)
  IsSorted-map [] s = tt
  IsSorted-map (x ∷ xs) s = (All-map (λ b. gt (arr x) b ≡ false) xs s.0, IsSorted-map xs s.1)

  -- If `strcmp` orders the lines totally and the array holds at least one, the program comes to its
  -- end, and what it prints is the array's lines, each as often as it is there, in an order in which
  -- no line is greater than one behind it.
  pub sorted_output_lem :
      IsTotal gt
      → (n : ℕ)
      → (out : List Line) × (sorted_output gt arr (suc n) ≡ some out)
        × IsSorted (λ a b. gt a b ≡ false) out
        × Perm out (map arr (upfrom 0 (suc n)))
  unfolding sorted_output sort_lines append
  sorted_output_lem o n =
      let zero_place : Seq ℕ = append (fresh_seq []) 0 in
      let show : Seq ℕ → Option (List Line) = λ l. visit (print_line gt arr) l [] in
      let round : suc n - 1 ≡ n = omega arith in
      let (l, run, sorted, perm, pos) = sort_loop_lem o n 1 zero_place (omega arith) (tt, tt) in
      (
        map arr l.items,
        ap (λ r. and_then (sort_loop gt arr r 1 zero_place) show) round
            ∙ (ap (λ o. and_then o show) run
                ∙ (visit_lem (print_line gt arr) l []
                      (λ e. absurd (omega (arith, ap length e, pos)))
                    ∙ print-map [] l.items)),
        IsSorted-map l.items sorted,
        Perm.map arr perm,
      )

count_bytes_last :
    (bs : List ℕ) (lines last : ℕ)
    → ((last == newline) ≡ true → 0 < lines)
    → ((count_bytes bs lines last).1 == newline) ≡ true
    → 0 < (count_bytes bs lines last).0
unfolding count_bytes
count_bytes_last [] lines last h e = h e
count_bytes_last (b ∷ bs) lines last h e =
    count_bytes_last bs (if b == newline then lines + 1 else lines) b (λ q. ground arith) e

-- `lineCount` is above 0 for every input, also for an empty one: the early return of main for an input
-- without lines is not reached.
pub line_count-pos : (bytes : List ℕ) → 0 < line_count bytes
unfolding line_count
line_count-pos bytes = elim (Bool-cases ((count_bytes bytes 0 0).1 == newline)) [
  | inl e ↦ rw e (count_bytes_last bytes 0 0 (λ q. ground arith) e)
  | inr e ↦ rw e (omega arith)
]
