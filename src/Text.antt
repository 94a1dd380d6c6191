-- ===== src/Text.antt =====
-- Comparison of C strings, and decimal numbers as strtoul reads them, for FileMemory and HttpServer.
use c_lang_coding_projects.Prelude.{
  ℕ, ◌+◌, ◌-◌, ◌*◌, ◌^◌, Bool, true, false, ◌&&◌, ◌==◌, List, [], ◌∷◌, ltb, leb, if◌then◌else◌,
  Option, none, some,
}

-- Texts that strcmp finds equal.
abbrev pub same_text : List ℕ → List ℕ → Bool
same_text [] [] = true
same_text [] (y ∷ ys) = false
same_text (x ∷ xs) [] = false
same_text (x ∷ xs) (y ∷ ys) = let rest = same_text xs ys in x == y && rest

abbrev pub is_digit : ℕ → Bool
is_digit x = leb b'0' x && leb x b'9'

-- The value of the digits that a text starts with, behind `acc`.
abbrev pub number : ℕ → List ℕ → ℕ
number acc [] = acc
number acc (x ∷ xs) =
    let rest = number (acc * 10 + (x - b'0')) xs in if is_digit x then rest else acc

-- How strtoul returns a value: none where errno becomes ERANGE
unfoldable pub in_range : ℕ → Option ℕ
in_range n = if ltb n (2 ^ 64) then some n else none
