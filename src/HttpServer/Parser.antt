-- ===== src/HttpServer/Parser.antt =====
-- parse_req_line, parse_header_field and parse_req of HTTP Server/httpserver.c, with the regular
-- expressions of HTTP Server/protocol.h written out. `no_memory` says that regcomp or regexec fails.
use c_lang_coding_projects.Prelude.{
  ℕ, ◌-◌, Bool, true, false, not, ◌&&◌, ◌||◌, List, [], ◌∷◌, ◌++◌, ◌==◌, leb, if◌then◌else◌, length,
  take, Option, none, some,
}
use c_lang_coding_projects.Text.{same_text, is_digit, number, in_range}
use c_lang_coding_projects.HttpServer.{
  bad_request, internal_server_error, is_ok, HttpReq, minus_one, is_alpha, to_upper,
  convert_to_upper,
}

-- A character of URI_REGEX and of HEADER_FIELD_REGEX.
abbrev pub is_name_char : ℕ → Bool
is_name_char x = is_alpha x || is_digit x || x == b'.' || x == b'-'

-- One of HEADER_VALUE_REGEX.
abbrev pub is_value_char : ℕ → Bool
is_value_char x = leb b' ' x && leb x b'~'

abbrev pub take_while : (ℕ → Bool) → List ℕ → List ℕ
take_while p [] = []
take_while p (x ∷ xs) = let rest = x ∷ take_while p xs in if p x then rest else []

abbrev pub drop_while : (ℕ → Bool) → List ℕ → List ℕ
drop_while p [] = []
drop_while p (x ∷ xs) = let rest = drop_while p xs in if p x then rest else x ∷ xs

abbrev pub within : ℕ → ℕ → ℕ → Bool
within lo hi n = leb lo n && leb n hi

-- HTTP_REGEX and the end of the line, with REG_ICASE.
abbrev pub is_version : List ℕ → Bool
is_version (h ∷ t ∷ u ∷ p ∷ s ∷ x ∷ d ∷ y ∷ []) =
    to_upper h == b'H'
    && to_upper t == b'T'
    && to_upper u == b'T'
    && to_upper p == b'P'
    && s == b'/'
    && is_digit x
    && d == b'.'
    && is_digit y
is_version other = false

-- What stands behind a given character.
abbrev pub behind : ℕ → List ℕ → Option (List ℕ)
behind c [] = none
behind c (x ∷ xs) = if x == c then some xs else none

-- The three groups of the request line's expression.
pub record Groups : Type 0 where
  pub type : List ℕ
  pub uri : List ℕ
  pub http : List ℕ

abbrev pub match_version : List ℕ → List ℕ → Option (List ℕ) → Option Groups
match_version m u none = none
match_version m u (some v) =
    if is_version v then some (record { type = m; uri = u; http = v }) else none

abbrev pub match_uri : List ℕ → Option (List ℕ) → Option Groups
match_uri m none = none
match_uri m (some r) =
    if within 1 63 (length (take_while is_name_char r))
    then match_version m (take_while is_name_char r) (behind b' ' (drop_while is_name_char r))
    else none

abbrev pub match_slash : List ℕ → Option (List ℕ) → Option Groups
match_slash m none = none
match_slash m (some r) = match_uri m (behind b'/' r)

abbrev pub match_line : List ℕ → Option Groups
match_line line =
    if within 1 8 (length (take_while is_alpha line))
    then match_slash (take_while is_alpha line) (behind b' ' (drop_while is_alpha line))
    else none

abbrev pub with_groups : HttpReq → Option Groups → HttpReq
with_groups req none = record req { status = bad_request }
with_groups req (some g) = record req {
  method = convert_to_upper g.type;
  uri = g.uri;
  version = g.http;
}

unfoldable pub parse_req_line : Bool → HttpReq → List ℕ → HttpReq
parse_req_line no_memory req line =
    if no_memory
    then record req { status = internal_server_error }
    else with_groups req (match_line line)

-- The field and the value of a header that starts here.
abbrev pub field_and_value : List ℕ → List ℕ → Option (List ℕ × List ℕ)
field_and_value field [] = none
field_and_value field (x ∷ xs) = some (field, x ∷ xs)

abbrev pub header_value : List ℕ → Option (List ℕ) → Option (List ℕ × List ℕ)
header_value field none = none
header_value field (some r) = field_and_value field (take 128 (take_while is_value_char r))

abbrev pub header_space : List ℕ → Option (List ℕ) → Option (List ℕ × List ℕ)
header_space field none = none
header_space field (some r) = header_value field (behind b' ' r)

abbrev pub header_at : List ℕ → Option (List ℕ × List ℕ)
header_at xs =
    if within 1 128 (length (take_while is_name_char xs))
    then header_space (take_while is_name_char xs) (behind b':' (drop_while is_name_char xs))
    else none

abbrev pub or_else : Option (List ℕ × List ℕ) → Option (List ℕ × List ℕ) → Option (List ℕ × List ℕ)
or_else none other = other
or_else (some h) other = some h

-- The first place where a header starts.
abbrev pub match_header : List ℕ → Option (List ℕ × List ℕ)
match_header [] = none
match_header (x ∷ xs) = or_else (header_at (x ∷ xs)) (match_header xs)

abbrev pub all_digits : List ℕ → Bool
all_digits [] = true
all_digits (x ∷ xs) = let rest = all_digits xs in is_digit x && rest

-- "CONTENT-LENGTH"
abbrev pub content_length_name : List ℕ
content_length_name =
    b'C' ∷ b'O' ∷ b'N' ∷ b'T' ∷ b'E' ∷ b'N' ∷ b'T' ∷ b'-' ∷ b'L' ∷ b'E' ∷ b'N' ∷ b'G' ∷ b'T' ∷ b'H'
    ∷ []

-- `stale` says that errno is ERANGE before the call: the call does not reset it.
abbrev pub with_length : Bool → HttpReq → Option ℕ → HttpReq
with_length stale req none = record req { content_length = minus_one; status = bad_request }
with_length stale req (some n) =
    if stale
    then record req { content_length = n; status = bad_request }
    else record req { content_length = n }

abbrev pub with_header : Bool → HttpReq → Option (List ℕ × List ℕ) → HttpReq
with_header stale req none = record req { status = bad_request }
with_header stale req (some (field, value)) =
    if not (same_text (convert_to_upper field) content_length_name)
    then req
    else if not (all_digits value)
    then record req { status = bad_request }
    else with_length stale req (in_range (number 0 value))

unfoldable pub parse_header_field : Bool → Bool → HttpReq → List ℕ → HttpReq
parse_header_field no_memory stale req line =
    if no_memory
    then record req { status = internal_server_error }
    else with_header stale req (match_header line)

-- The lines that end with "\r\n". `line` is what was read of the line, and `cr` says that it ends with
-- a '\r'.
abbrev pub lines_from : List ℕ → Bool → List ℕ → List (List ℕ)
lines_from line cr [] = []
lines_from line cr (x ∷ xs) =
    let ends = cr && x == b'\n' in
    let rest = lines_from (if ends then [] else line ++ x ∷ []) (not ends && x == b'\r') xs in
    if ends then take (length line - 1) line ∷ rest else rest

-- The loop of `parse_req` over the header lines.
abbrev pub headers_loop : Bool → Bool → HttpReq → List (List ℕ) → HttpReq
headers_loop no_memory stale req [] = req
headers_loop no_memory stale req (line ∷ lines) =
    let next = parse_header_field no_memory stale req line in
    let rest = headers_loop no_memory stale next lines in if is_ok next.status then rest else next

-- `parse_req`; with no "\r\n" in the buffer it would write through NULL.
abbrev pub parse_lines : Bool → Bool → HttpReq → List (List ℕ) → Option HttpReq
parse_lines no_memory stale req [] = none
parse_lines no_memory stale req (line ∷ lines) =
    let next = parse_req_line no_memory req line in
    let rest = headers_loop no_memory stale next lines in
    if is_ok next.status then some rest else some next

unfoldable pub parse_req : Bool → Bool → HttpReq → List ℕ → Option HttpReq
parse_req no_memory stale req buffer = parse_lines no_memory stale req (lines_from [] false buffer)
