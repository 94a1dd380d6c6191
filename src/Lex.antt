-- ===== src/Lex.antt =====
-- main of Lexicographic Sorting with Custom List ADT/Lex.c: the count of lines, the sorting loop over
-- a list of line numbers, and the loop that prints the lines.
pub mod Order
use c_lang_coding_projects.Prelude.{
  ℕ, zero, suc, ◌+◌, ◌-◌, Bool, true, false, not, Option, none, some, List, [], ◌∷◌, ◌++◌, ◌==◌,
  if◌then◌else◌,
}
use c_lang_coding_projects.Sequence.{Seq, fresh_seq, append}
use c_lang_coding_projects.Sequence.Insertion.{insert_from_back}
use c_lang_coding_projects.Sequence.Visit.{and_then, visit}

-- `'\n'`
abbrev pub newline : ℕ
newline = 10

-- The loop over the bytes of the input: `lineCount` and `lastChar`.
unfoldable pub count_bytes : List ℕ → ℕ → ℕ → ℕ × ℕ
count_bytes [] lines last = (lines, last)
count_bytes (c ∷ cs) lines last = count_bytes cs (if c == newline then lines + 1 else lines) c

-- `lineCount`, as the rest of main has it.
unfoldable pub line_count : List ℕ → ℕ
line_count bytes =
    let (lines, last) = count_bytes bytes 0 0 in if not (last == newline) then lines + 1 else lines

module _ {Line : Type 0} (strcmp_gt : Line → Line → Bool) (arr : ℕ → Line) where
  -- `for (int i = 1; i < lineCount; i++)`, with `rounds` rounds left.
  unfoldable pub sort_loop : ℕ → ℕ → Seq ℕ → Option (Seq ℕ)
  sort_loop zero i l = some l
  sort_loop (suc rounds) i l =
      and_then (insert_from_back (λ j. strcmp_gt (arr j) (arr i)) l i) (sort_loop rounds (i + 1))

  -- `newList`, `append(L, 0)` and the loop.
  unfoldable pub sort_lines : ℕ → Option (Seq ℕ)
  sort_lines count = sort_loop (count - 1) 1 (append (fresh_seq []) 0)

  -- The loop that prints: the lines written so far, and then `arr[get(L)]`.
  unfoldable pub print_line : List Line → ℕ → Option (List Line)
  print_line out j = some (out ++ arr j ∷ [])

  -- What main writes to the output for an array of `count` lines.
  unfoldable pub sorted_output : ℕ → Option (List Line)
  sorted_output count = and_then (sort_lines count) (λ l. visit print_line l [])
