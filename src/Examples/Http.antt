-- ===== src/Examples/Http.antt =====
-- Witnesses for HTTP Server/httpserver.c.
use Prim.Native.Nat.{min}
use c_lang_coding_projects.Prelude.{
  ℕ, ◌≡◌, ◌↔◌, refl, Bool, true, false, List, [], ◌∷◌, Option, some, inr,
}
use c_lang_coding_projects.HttpServer.{ok, HttpReq, created}
use c_lang_coding_projects.HttpServer.Parser.{
  Groups, match_line, parse_req, parse_req_line, parse_header_field,
}
use c_lang_coding_projects.Text.{in_range}
use c_lang_coding_projects.HttpServer.Handlers.{
  Env, FileKind, absent, Opened, opened, truncates, writes, passes_in, responds, put_name,
  http_version, handle_put, validate_req,
}
use c_lang_coding_projects.HttpServer.Connection.{Recv, received, again, handle_connection, ends}
use c_lang_coding_projects.HttpServer.Names.{IsName}
use c_lang_coding_projects.HttpServer.Flow.{Ends}
use c_lang_coding_projects.HttpServer.Answers.{Answered, responses, OnFiles, answer_lem, files_lem}
use c_lang_coding_projects.HttpServer.RequestLine.{IsRequestLine, text_of, match_line_iff}
use c_lang_coding_projects.HttpServer.Put.{IsPass, Put, file_after, handle_put_lem}

abbrev new_file : List ℕ → FileKind
new_file uri = absent

abbrev allowed : List ℕ → Bool
allowed uri = true

abbrev opens : List ℕ → Opened
opens uri = opened

-- What pass_n_bytes returns where two bytes are still to come.
abbrev pass_two : ℕ → Option ℕ
pass_two n = some (min n 2)

-- A directory without files, in which everything may be done.
abbrev empty_directory : Env
empty_directory = record {
  stat = new_file;
  stat_opened = new_file;
  unset_is_dir = false;
  readable = allowed;
  writable = allowed;
  open_read = opens;
  open_write = opens;
  write_fails = false;
  pass = pass_two;
  stale = false;
  no_memory = false;
}

-- "PUT /a HTTP/1.1" and "Content-Length: 3", in two parts, with the first byte of the body
abbrev put_events : List Recv
put_events =
    received (b'P' ∷ b'U' ∷ b'T' ∷ b' ' ∷ b'/' ∷ b'a' ∷ b' ' ∷ http_version)
    ∷ again
    ∷ received (
        b'\r' ∷ b'\n' ∷ b'C' ∷ b'o' ∷ b'n' ∷ b't' ∷ b'e' ∷ b'n' ∷ b't' ∷ b'-' ∷ b'L' ∷ b'e' ∷ b'n'
        ∷ b'g' ∷ b't' ∷ b'h' ∷ b':' ∷ b' ' ∷ b'3' ∷ b'\r' ∷ b'\n' ∷ b'\r' ∷ b'\n' ∷ b'x' ∷ [])
    ∷ []

answer_lem_example : Ends (handle_connection empty_directory put_events) Answered
answer_lem_example = answer_lem empty_directory put_events

files_lem_example : Ends (handle_connection empty_directory put_events) (OnFiles IsName)
files_lem_example = files_lem empty_directory put_events

put_runs :
    handle_connection empty_directory put_events
    ≡ ends (
        truncates (b'a' ∷ [])
        ∷ writes (b'a' ∷ []) (b'x' ∷ []) 1
        ∷ passes_in (b'a' ∷ []) 2 (some 2)
        ∷ responds created
        ∷ [])
unfolding handle_connection parse_req parse_req_line parse_header_field validate_req handle_put
    in_range
put_runs = refl

abbrev put_a : Groups
put_a = record { type = put_name; uri = b'a' ∷ []; http = http_version }

match_line_iff_example :
    (match_line (text_of put_a) ≡ some put_a)
    ↔ (IsRequestLine put_a × (text_of put_a ≡ text_of put_a))
match_line_iff_example = match_line_iff (text_of put_a) put_a

abbrev put_req : HttpReq
put_req = record {
  method = put_name;
  uri = b'a' ∷ [];
  version = http_version;
  content_length = 3;
  status = ok;
}

abbrev first_byte : List ℕ
first_byte = b'x' ∷ []

more_bytes-IsPass : IsPass pass_two (b'y' ∷ b'z' ∷ [])
more_bytes-IsPass = λ n. inr refl

handle_put_lem_example :
    OnFiles (λ uri. uri ≡ b'a' ∷ []) (handle_put empty_directory put_req first_byte)
    × Put empty_directory put_req first_byte
        (b'y' ∷ b'z' ∷ [])
        []
        opened
        (handle_put empty_directory put_req first_byte)
handle_put_lem_example =
    handle_put_lem empty_directory put_req first_byte (b'y' ∷ b'z' ∷ []) [] refl more_bytes-IsPass

-- The connection ends two bytes behind the first: a put of four bytes leaves three, and is answered
-- with 201.
abbrev short_req : HttpReq
short_req = record put_req { content_length = 4 }

short_file :
    file_after (b'y' ∷ b'z' ∷ []) [] (handle_put empty_directory short_req first_byte)
    ≡ b'x' ∷ b'y' ∷ b'z' ∷ []
unfolding handle_put
short_file = refl

short_answer : responses (handle_put empty_directory short_req first_byte) ≡ created ∷ []
unfolding handle_put
short_answer = refl
