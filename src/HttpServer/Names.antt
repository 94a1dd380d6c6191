-- ===== src/HttpServer/Names.antt =====
-- The names that a parsed request can have (parse_req of HTTP Server/httpserver.c).
use mathlib.Core.Path.{subst}
use c_lang_coding_projects.Prelude.{
  ℕ, ◌≤◌, ◌≡◌, refl, sym, ◌∙◌, Bool, Bool-cases, true, false, inl, inr, List, [], ◌∷◌, arith,
  length, Option, none, some,
}
use c_lang_coding_projects.Text.{number, in_range}
use c_lang_coding_projects.HttpServer.{is_ok, is_alpha, HttpReq}
use c_lang_coding_projects.HttpServer.Parser.{
  is_name_char, take_while, within, Groups, match_line, match_slash, match_uri, match_version,
  behind, with_groups, parse_req_line, parse_header_field, with_header, match_header, with_length,
  headers_loop, parse_lines, drop_while, is_version,
}

abbrev pub All : (ℕ → Bool) → List ℕ → Type 0
All p [] = Unit
All p (x ∷ xs) = (p x ≡ true) × All p xs

-- A name of 1 to 63 letters, digits, dots and dashes, and so without a slash.
pub record IsName (uri : List ℕ) : Type 0 where
  pub chars : All is_name_char uri
  pub some_char : 1 ≤ length uri
  pub short : length uri ≤ 63

pub take_while-All : (p : ℕ → Bool) (xs : List ℕ) → All p (take_while p xs)
take_while-All p [] = tt
take_while-All p (x ∷ xs) = elim (Bool-cases (p x)) [
  | inl e ↦ rw e (e, take_while-All p xs)
  | inr e ↦ rw e tt
]

abbrev Named : Option Groups → Type 0
Named none = Unit
Named (some g) = IsName g.uri

match_version-Named : (m u : List ℕ) (v : Option (List ℕ)) → IsName u → Named (match_version m u v)
match_version-Named m u none name = tt
match_version-Named m u (some v) name = elim (Bool-cases (is_version v)) [
  | inl e ↦ rw e name
  | inr e ↦ rw e tt
]

match_uri-Named : (m : List ℕ) (r : Option (List ℕ)) → Named (match_uri m r)
match_uri-Named m none = tt
match_uri-Named m (some r) = elim (Bool-cases (within 1 63 (length (take_while is_name_char r)))) [
  | inl e ↦ rw e (
      match_version-Named m (take_while is_name_char r) (behind b' ' (drop_while is_name_char r))
        (record {
          chars = take_while-All is_name_char r;
          some_char = ground (arith, e);
          short = ground (arith, e);
        }))
  | inr e ↦ rw e tt
]

match_slash-Named : (m : List ℕ) (r : Option (List ℕ)) → Named (match_slash m r)
match_slash-Named m none = tt
match_slash-Named m (some r) = match_uri-Named m (behind b'/' r)

match_line-Named : (line : List ℕ) → Named (match_line line)
match_line-Named line = elim (Bool-cases (within 1 8 (length (take_while is_alpha line)))) [
  | inl e ↦
      rw e (match_slash-Named (take_while is_alpha line) (behind b' ' (drop_while is_alpha line)))
  | inr e ↦ rw e tt
]

-- A request that is not refused has a name.
abbrev pub HasName : HttpReq → Type 0
HasName req = is_ok req.status ≡ true → IsName req.uri

with_groups-HasName : (req : HttpReq) (g : Option Groups) → Named g → HasName (with_groups req g)
with_groups-HasName req none name e = cc e
with_groups-HasName req (some g) name e = name

parse_req_line-HasName :
    (no_memory : Bool) (req : HttpReq) (line : List ℕ) → HasName (parse_req_line no_memory req line)
unfolding parse_req_line
parse_req_line-HasName true req line e = cc e
parse_req_line-HasName false req line e =
    with_groups-HasName req (match_line line) (match_line-Named line) e

-- A header field changes neither the name nor a refusal into something else.
with_length-uri :
    (stale : Bool) (req : HttpReq) (n : Option ℕ) → (with_length stale req n).uri ≡ req.uri
with_length-uri stale req none = refl
with_length-uri true req (some n) = refl
with_length-uri false req (some n) = refl

with_header-uri :
    (stale : Bool) (req : HttpReq) (h : Option (List ℕ × List ℕ))
    → (with_header stale req h).uri ≡ req.uri
with_header-uri stale req none = refl
with_header-uri stale req (some (field, value)) =
    ground (arith, with_length-uri stale req (in_range (number 0 value)))

parse_header_field-uri :
    (no_memory stale : Bool) (req : HttpReq) (line : List ℕ)
    → (parse_header_field no_memory stale req line).uri ≡ req.uri
unfolding parse_header_field
parse_header_field-uri true stale req line = refl
parse_header_field-uri false stale req line = with_header-uri stale req (match_header line)

headers_loop-uri :
    (no_memory stale : Bool) (req : HttpReq) (lines : List (List ℕ))
    → (headers_loop no_memory stale req lines).uri ≡ req.uri
headers_loop-uri no_memory stale req [] = refl
headers_loop-uri no_memory stale req (line ∷ lines) =
    let same = parse_header_field-uri no_memory stale req line in
    let next = parse_header_field no_memory stale req line in
    elim (Bool-cases (is_ok next.status)) [
      | inl e ↦ rw e (headers_loop-uri no_memory stale next lines ∙ same)
      | inr e ↦ rw e same
    ]

-- What a request that was parsed has.
abbrev pub ParsedName : Option HttpReq → Type 0
ParsedName none = ⊥
ParsedName (some req) = HasName req

pub parse_lines-ParsedName :
    (no_memory stale : Bool) (req : HttpReq) (line : List ℕ) (lines : List (List ℕ))
    → ParsedName (parse_lines no_memory stale req (line ∷ lines))
parse_lines-ParsedName no_memory stale req line lines =
    let next = parse_req_line no_memory req line in
    elim (Bool-cases (is_ok next.status)) [
      | inl e ↦ rw e (λ d.
          subst IsName (sym (headers_loop-uri no_memory stale next lines))
            (parse_req_line-HasName no_memory req line e))
      | inr e ↦ rw e (λ d. cc (e, d))
    ]
