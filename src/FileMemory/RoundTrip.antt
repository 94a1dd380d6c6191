-- ===== src/FileMemory/RoundTrip.antt =====
-- The two commands of Command-Line Memory/README.md as texts, and `main` on them.
use mathlib.Core.Path.{subst}
use mathlib.Core.List.{append_assoc}
use c_lang_coding_projects.FileMemory.{buffer_size}
use c_lang_coding_projects.Prelude.{
  ◌-◌, ◌==◌, refl, sym, ap, ◌∙◌, take, take-append, take_of_length_le, ℕ, ◌+◌, ◌^◌, ◌<◌, ◌≤◌, ◌≡◌,
  Bool, true, false, List, [], ◌∷◌, ◌++◌, arith, length, length-append, drop, drop-append, some,
}
use c_lang_coding_projects.FileMemory.Request.{
  newline, path_max, get_name, set_name, validate_location, Request, requests, get_request,
  set_request, set_checked, get_parsed, parse,
}
use c_lang_coding_projects.FileMemory.Parsing.{
  Plain, line, decimal, strtok-line, strtoul-decimal, Plain-decimal, decimal_pos,
}

-- A command that a user gives: a location, and for a set the number of bytes and the bytes.
pub data Command : Type 0 where
  get_command : List ℕ → Command
  set_command : List ℕ → ℕ → List ℕ → Command

unfoldable pub print : Command → List ℕ
print (get_command location) = line get_name (line location [])
print (set_command location n content) = line set_name (line location (line (decimal n) content))

abbrev pub header : List ℕ → ℕ → ℕ
header location n = 4 + length location + 1 + length (decimal n) + 1

-- A location that a command can name.
pub record IsLocation (is_dir : List ℕ → Bool) (location : List ℕ) : Type 0 where
  pub plain : Plain location
  pub some_byte : 0 < length location
  pub short : length location < path_max
  pub no_dir : is_dir location ≡ false

abbrev pub IsCommand : (List ℕ → Bool) → Command → Type 0
IsCommand is_dir (get_command location) = IsLocation is_dir location
IsCommand is_dir (set_command location n content) = IsLocation is_dir location × (n < 2 ^ 64)

abbrev pub request_of : Command → Request
request_of (get_command location) = get_request location
request_of (set_command location n content) = set_request location n (header location n) content

get_Plain : Plain get_name
get_Plain = omega arith

set_Plain : Plain set_name
set_Plain = omega arith

valid :
    {is_dir : List ℕ → Bool} {location : List ℕ}
    → IsLocation is_dir location
    → validate_location is_dir location ≡ true
valid l = ground (arith, l.short, l.no_dir)

get_parsed_lem :
    (result : ℕ) (location : List ℕ) (buf_index : ℕ)
    → buf_index ≡ result
    → get_parsed result location buf_index ≡ requests (get_request location)
get_parsed_lem result location buf_index e = ground (arith, e)

set_checked_lem :
    (result : ℕ) (location : List ℕ) (buf_index n : ℕ) (passed content : List ℕ)
    → buf_index ≤ result
    → length passed ≡ buf_index
    → set_checked result location buf_index (passed ++ content) (some n)
      ≡ requests (set_request location n buf_index content)
set_checked_lem result location buf_index n passed content le e =
    let bytes : drop buf_index (passed ++ content) ≡ content =
      subst (λ k. drop k (passed ++ content) ≡ content) e (drop-append passed content) in
    rw bytes (ground (arith, le))

-- A text that fits the buffer, also one that fills it.
pub parse_whole :
    (is_dir : List ℕ → Bool) (command : Command)
    → IsCommand is_dir command
    → parse is_dir (print command) ≡ requests (request_of command)
unfolding parse print
parse_whole is_dir (get_command location) l =
    let full = length (print (get_command location)) == buffer_size in
    rw
      (
        strtok-line full [] get_name (line location []) get_Plain (omega arith),
        strtok-line full (get_name ++ 0 ∷ []) location [] l.plain l.some_byte,
        valid l,
      )
      (get_parsed_lem _ location _ (omega (arith, length-append location (newline ∷ []))))
parse_whole is_dir (set_command location n content) (l, lt) =
    let full = length (print (set_command location n content)) == buffer_size in
    rw
      (
        strtok-line full [] set_name (line location (line (decimal n) content)) set_Plain
            (omega arith),
        strtok-line full (set_name ++ 0 ∷ []) location (line (decimal n) content) l.plain
            l.some_byte,
        valid l,
        strtok-line full ((set_name ++ 0 ∷ []) ++ (location ++ 0 ∷ [])) (decimal n) content
            (Plain-decimal n) (decimal_pos n),
        strtoul-decimal n lt,
      )
      (set_checked_lem (length (print (set_command location n content))) location
        (header location n) n
        (((set_name ++ 0 ∷ []) ++ (location ++ 0 ∷ [])) ++ (decimal n ++ 0 ∷ [])) content
        (omega (
          arith,
          length-append location (newline ∷ line (decimal n) content),
          length-append (decimal n) (newline ∷ content),
        ))
        (omega (
          arith,
          length-append location (0 ∷ []),
          length-append (decimal n) (0 ∷ []),
          length-append (location ++ 0 ∷ []) (decimal n ++ 0 ∷ []),
        )))

take-append_length :
    (n : ℕ) (xs ys : List ℕ) → length xs ≤ n → take n (xs ++ ys) ≡ xs ++ take (n - length xs) ys
take-append_length n xs ys le =
    take-append n xs ys ∙ ap (λ l. l ++ take (n - length xs) ys) (take_of_length_le n xs le)

-- The lines of a set command before its content.
abbrev pub head_text : List ℕ → ℕ → List ℕ
head_text location n = line set_name (line location (line (decimal n) []))

pub print_set :
    (location : List ℕ) (n : ℕ) (content : List ℕ)
    → print (set_command location n content) ≡ head_text location n ++ content
unfolding print
print_set location n content =
    rw
      (
        append_assoc location (newline ∷ (decimal n ++ newline ∷ [])) content,
        append_assoc (decimal n) (newline ∷ []) content,
      )
      refl

pub length-head_text :
    (location : List ℕ) (n : ℕ) → length (head_text location n) ≡ header location n
length-head_text location n = omega (
  arith,
  length-append location (newline ∷ (decimal n ++ newline ∷ [])),
  length-append (decimal n) (newline ∷ []),
)

-- How many bytes of the text must stand in the buffer: those of its lines.
abbrev pub lines_length : Command → ℕ
lines_length (get_command location) = 4 + length location + 1
lines_length (set_command location n content) = header location n

-- The command as far as it stands in the buffer: the content may go on behind.
abbrev pub in_buffer : Command → Command
in_buffer (get_command location) = get_command location
in_buffer (set_command location n content) =
    set_command location n (take (buffer_size - header location n) content)

length-print_get :
    (location : List ℕ) → length (print (get_command location)) ≡ 4 + length location + 1
unfolding print
length-print_get location = omega (arith, length-append location (newline ∷ []))

take-print :
    (command : Command)
    → lines_length command ≤ buffer_size
    → take buffer_size (print command) ≡ print (in_buffer command)
take-print (get_command location) le =
    take_of_length_le buffer_size (print (get_command location))
      (omega (arith, le, length-print_get location))
take-print (set_command location n content) le =
    ap (take buffer_size) (print_set location n content)
    ∙ (take-append_length buffer_size (head_text location n) content
          (omega (arith, le, length-head_text location n))
        ∙ (ap (λ k. head_text location n ++ take (buffer_size - k) content)
              (length-head_text location n)
            ∙ sym (print_set location n (take (buffer_size - header location n) content))))

-- What `main` reads of the text of a command, in a buffer that holds its first 4096 bytes, is the
-- command: the location, the number, and for a set the buffer from the content on, as far as it
-- stands there. The lines of the command, less the content of a set, fit the buffer; the location
-- is not empty, has no newline and no 0, is shorter than PATH_MAX and is no directory, and the
-- number fits 64 bits.
pub parse-print :
    (is_dir : List ℕ → Bool) (command : Command)
    → IsCommand is_dir command
    → lines_length command ≤ buffer_size
    → parse is_dir (take buffer_size (print command)) ≡ requests (request_of (in_buffer command))
parse-print is_dir (get_command location) ok le =
    ap (parse is_dir) (take-print (get_command location) le)
    ∙ parse_whole is_dir (get_command location) ok
parse-print is_dir (set_command location n content) ok le =
    ap (parse is_dir) (take-print (set_command location n content) le)
    ∙ parse_whole is_dir (in_buffer (set_command location n content)) ok
