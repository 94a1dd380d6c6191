-- ===== src/FileMemory/Request.antt =====
-- What `main` of Command-Line Memory/memory.c reads of its input. `stat` is a parameter, as the
-- test whether a location is a directory. Behind the bytes that were read the buffer holds zeros,
-- but not where it is full: strtok then reads past its end.
use c_lang_coding_projects.Text.{same_text, number, in_range}
use c_lang_coding_projects.FileMemory.{buffer_size}
use c_lang_coding_projects.Prelude.{
  false, ℕ, ◌+◌, ◌-◌, ◌^◌, ◌%◌, Bool, not, ◌&&◌, ◌||◌, List, [], ◌∷◌, ◌++◌, ◌==◌, ltb, leb,
  if◌then◌else◌, length, drop, Option, none, some,
}

abbrev pub newline : ℕ
newline = b'\n'

-- `PATH_MAX` of Linux
abbrev pub path_max : ℕ
path_max = 4096

-- A text that strtok works on: the bytes behind it, as it left them, and those ahead.
pub record Scan : Type 0 where
  pub passed : List ℕ
  pub ahead : List ℕ

-- The bytes up to a newline or a 0.
abbrev pub token : List ℕ → List ℕ
token [] = []
token (x ∷ xs) = let rest = x ∷ token xs in if x == newline || x == 0 then [] else rest

-- The token as strtok leaves it: a 0 takes the newline's place.
abbrev pub cut : List ℕ → List ℕ
cut [] = []
cut (x ∷ xs) = let rest = x ∷ cut xs in if x == newline then 0 ∷ [] else if x == 0 then [] else rest

-- What is behind the token.
abbrev pub behind : List ℕ → List ℕ
behind [] = []
behind (x ∷ xs) =
    let rest = behind xs in if x == newline then xs else if x == 0 then x ∷ xs else rest

-- Whether a newline or a 0 ends the token.
abbrev pub has_end : List ℕ → Bool
has_end [] = false
has_end (x ∷ xs) = let rest = has_end xs in x == newline || x == 0 || rest

-- What strtok returns: NULL, or a token with what it leaves; or it reads past the end of the buffer.
pub data Token : Type 0 where
  no_token : Token
  a_token : List ℕ → Scan → Token
  past_end : Token

abbrev pub token_of : Bool → List ℕ → List ℕ → Token
token_of full passed xs =
    if full && not (has_end xs)
    then past_end
    else a_token (token xs) (record { passed = passed ++ cut xs; ahead = behind xs })

-- strtok(…, "\n"); `full` says that the buffer has no byte behind the list.
abbrev pub strtok_from : Bool → List ℕ → List ℕ → Token
strtok_from full passed [] = if full then past_end else no_token
strtok_from full passed (x ∷ xs) =
    let skipped = strtok_from full (passed ++ x ∷ []) xs in
    let found = token_of full passed (x ∷ xs) in
    if x == newline then skipped else if x == 0 then no_token else found

unfoldable pub strtok : Bool → Scan → Token
strtok full s = strtok_from full s.passed s.ahead

abbrev pub is_space : ℕ → Bool
is_space x = x == b' ' || leb b'\t' x && leb x b'\r'

unfoldable pub negated : Option ℕ → Option ℕ
negated none = none
negated (some n) = some ((2 ^ 64 - n) % 2 ^ 64)

abbrev pub strtoul : List ℕ → Option ℕ
strtoul [] = some 0
strtoul (x ∷ xs) =
    let rest = strtoul xs in
    if is_space x
    then rest
    else if x == b'-'
    then negated (in_range (number 0 xs))
    else if x == b'+'
    then in_range (number 0 xs)
    else in_range (number 0 (x ∷ xs))

abbrev pub get_name : List ℕ
get_name = b'g' ∷ b'e' ∷ b't' ∷ []

abbrev pub set_name : List ℕ
set_name = b's' ∷ b'e' ∷ b't' ∷ []

abbrev pub validate_command : List ℕ → Bool
validate_command command = same_text command get_name || same_text command set_name

abbrev pub validate_location : (List ℕ → Bool) → List ℕ → Bool
validate_location is_dir location = ltb (length location) path_max && not (is_dir location)

-- The calls that `main` makes: `execute_get` with the location; `execute_set` with the location,
-- `content_length`, `buf_index`, and the buffer from there on.
pub data Request : Type 0 where
  get_request : List ℕ → Request
  set_request : List ℕ → ℕ → ℕ → List ℕ → Request

-- What becomes of the buffer: a call, "Invalid Command", or a read past its end.
pub data Parsed : Type 0 where
  requests : Request → Parsed
  invalid : Parsed
  reads_past : Parsed

-- `main` from the third token on, with `content_length`.
abbrev pub set_checked : ℕ → List ℕ → ℕ → List ℕ → Option ℕ → Parsed
set_checked result location buf_index buffer none = invalid
set_checked result location buf_index buffer (some content_length) =
    if ltb result buf_index
    then invalid
    else requests (set_request location content_length buf_index (drop buf_index buffer))

abbrev pub set_parsed : ℕ → List ℕ → ℕ → Token → Parsed
set_parsed result location buf_index no_token = invalid
set_parsed result location buf_index past_end = reads_past
set_parsed result location buf_index (a_token content_length_str s) =
    set_checked result location (buf_index + length content_length_str + 1) (s.passed ++ s.ahead)
      (strtoul content_length_str)

abbrev pub get_parsed : ℕ → List ℕ → ℕ → Parsed
get_parsed result location buf_index =
    if buf_index == result then requests (get_request location) else invalid

-- `main` from the second token on, in a buffer of `result` bytes, `full` or not.
abbrev pub location_parsed : (List ℕ → Bool) → Bool → ℕ → List ℕ → ℕ → Token → Parsed
location_parsed is_dir full result command buf_index no_token = invalid
location_parsed is_dir full result command buf_index past_end = reads_past
location_parsed is_dir full result command buf_index (a_token location s) =
    if not (validate_location is_dir location)
    then invalid
    else if same_text command set_name
    then set_parsed result location (buf_index + length location + 1) (strtok full s)
    else get_parsed result location (buf_index + length location + 1)

abbrev pub command_parsed : (List ℕ → Bool) → Bool → ℕ → Token → Parsed
command_parsed is_dir full result no_token = invalid
command_parsed is_dir full result past_end = reads_past
command_parsed is_dir full result (a_token command s) =
    if validate_command command
    then location_parsed is_dir full result command (length command + 1) (strtok full s)
    else invalid

-- What `main` does with the bytes that it read, at most as many as the buffer holds.
unfoldable pub parse : (List ℕ → Bool) → List ℕ → Parsed
parse is_dir xs =
    let full = length xs == buffer_size in
    command_parsed is_dir full (length xs) (strtok full (record { passed = []; ahead = xs }))
