-- ===== src/HttpServer/Handlers.antt =====
-- validate_req, handle_err, handle_get, handle_put and handle_connection of HTTP Server/httpserver.c.
-- What the system calls return is a parameter (Env, Recv); what the functions do to files and to the
-- connection is a list of effects.
use c_lang_coding_projects.Prelude.{
  ℕ, ◌+◌, ◌-◌, ◌%◌, Bool, not, ◌&&◌, ◌||◌, List, [], ◌∷◌, ◌==◌, ltb, if◌then◌else◌, length, Option,
  none, some,
}
use c_lang_coding_projects.Text.{same_text}
use c_lang_coding_projects.HttpServer.{
  Status, ok, created, bad_request, forbidden, not_found, internal_server_error, not_implemented,
  version_not_supported, HttpReq, minus_one, is_negative,
}

-- What stat returns: -1, S_ISDIR, or the size.
pub data FileKind : Type 0 where
  absent : FileKind
  directory : FileKind
  plain : ℕ → FileKind

-- What open returns; -1 with errno EACCES, EISDIR or another.
pub data Opened : Type 0 where
  opened : Opened
  denied : Opened
  not_a_file : Opened
  open_failed : Opened

-- `stat_opened` is stat as it is called once the file is open, and `unset_is_dir` what S_ISDIR says
-- of the uninitialised `path_stat` where that call fails; `pass` is what pass_n_bytes returns where
-- it is asked for so many bytes of the connection, none for -1; the last two say whether errno is
-- ERANGE before the connection, and whether the regular expressions fail.
pub record Env : Type 0 where
  pub stat : List ℕ → FileKind
  pub stat_opened : List ℕ → FileKind
  pub unset_is_dir : Bool
  pub readable : List ℕ → Bool
  pub writable : List ℕ → Bool
  pub open_read : List ℕ → Opened
  pub open_write : List ℕ → Opened
  pub write_fails : Bool
  pub pass : ℕ → Option ℕ
  pub stale : Bool
  pub no_memory : Bool

-- In turn: a response whose body is the status; a response with a length, for a file; the bytes of
-- a file go to the connection; a file is opened and truncated; so many bytes from those given are
-- written to a file; so many are to go from the connection to a file, with what pass_n_bytes
-- returns.
pub data Effect : Type 0 where
  responds : Status → Effect
  responds_file : Status → ℕ → Effect
  passes_out : List ℕ → ℕ → Effect
  truncates : List ℕ → Effect
  writes : List ℕ → List ℕ → ℕ → Effect
  passes_in : List ℕ → ℕ → Option ℕ → Effect

abbrev pub get_name : List ℕ
get_name = b'G' ∷ b'E' ∷ b'T' ∷ []

abbrev pub put_name : List ℕ
put_name = b'P' ∷ b'U' ∷ b'T' ∷ []

abbrev pub http_version : List ℕ
http_version = b'H' ∷ b'T' ∷ b'T' ∷ b'P' ∷ b'/' ∷ b'1' ∷ b'.' ∷ b'1' ∷ []

abbrev pub validate_get : Env → HttpReq → FileKind → HttpReq
validate_get env req absent = record req { status = not_found }
validate_get env req directory = record req { status = forbidden }
validate_get env req (plain size) =
    if not (env.readable req.uri)
    then record req { status = forbidden }
    else record req { content_length = size }

abbrev pub validate_put : Env → HttpReq → FileKind → HttpReq
validate_put env req absent = req
validate_put env req directory = record req { status = forbidden }
validate_put env req (plain size) =
    if not (env.writable req.uri) then record req { status = forbidden } else req

unfoldable pub validate_req : Env → HttpReq → HttpReq
validate_req env req =
    if not (same_text req.method get_name) && not (same_text req.method put_name)
    then record req { status = not_implemented }
    else if not (same_text req.version http_version)
    then record req { status = version_not_supported }
    else if same_text req.method get_name
    then validate_get env req (env.stat req.uri)
    else if req.content_length == minus_one
    then record req { status = bad_request }
    else validate_put env req (env.stat req.uri)

abbrev pub get_status : Env → HttpReq → FileKind → Status
get_status env req absent = if env.unset_is_dir then forbidden else req.status
get_status env req directory = forbidden
get_status env req (plain size) = req.status

abbrev pub got : Env → HttpReq → Opened → List Effect
got env req opened =
    responds_file (get_status env req (env.stat_opened req.uri)) req.content_length
    ∷ passes_out req.uri req.content_length
    ∷ []
got env req denied = responds forbidden ∷ []
got env req not_a_file = responds internal_server_error ∷ []
got env req open_failed = responds internal_server_error ∷ []

unfoldable pub handle_get : Env → HttpReq → List Effect
handle_get env req = got env req (env.open_read req.uri)

-- `file_exists ? OK : CREATED`
abbrev pub put_status : FileKind → Status
put_status absent = created
put_status directory = ok
put_status (plain size) = ok

-- `body_length`, of which no more than `content_length` is the file's.
abbrev pub bounded_body : ℕ → ℕ → ℕ
bounded_body content_length body_length =
    if is_negative content_length || ltb content_length body_length
    then content_length
    else body_length

-- `content_length - body_length` as a size_t
abbrev pub left_to_pass : ℕ → ℕ → ℕ
left_to_pass content_length body_length =
    (content_length + (18446744073709551616 - body_length)) % 18446744073709551616

-- The response behind pass_n_bytes: it is told apart from -1 only.
abbrev pub passed_response : Env → HttpReq → Option ℕ → List Effect
passed_response env req none = responds internal_server_error ∷ []
passed_response env req (some k) = responds (put_status (env.stat req.uri)) ∷ []

abbrev pub pass_rest : Env → HttpReq → ℕ → List Effect
pass_rest env req body_length =
    let n = left_to_pass req.content_length body_length in
    passes_in req.uri n (env.pass n) ∷ passed_response env req (env.pass n)

abbrev pub put_body : Env → HttpReq → List ℕ → List Effect
put_body env req [] = pass_rest env req 0
put_body env req (x ∷ xs) =
    writes req.uri (x ∷ xs) (bounded_body req.content_length (length (x ∷ xs)))
    ∷ (if env.write_fails
        then responds internal_server_error ∷ []
        else pass_rest env req (bounded_body req.content_length (length (x ∷ xs))))

abbrev pub put_opened : Env → HttpReq → List ℕ → Opened → List Effect
put_opened env req body opened = truncates req.uri ∷ put_body env req body
put_opened env req body denied = responds forbidden ∷ []
put_opened env req body not_a_file = responds forbidden ∷ []
put_opened env req body open_failed = responds internal_server_error ∷ []

-- `body` is what `bodyptr` points to, of `body_length` bytes.
unfoldable pub handle_put : Env → HttpReq → List ℕ → List Effect
handle_put env req body = put_opened env req body (env.open_write req.uri)
