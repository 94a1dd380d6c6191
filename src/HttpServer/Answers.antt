-- ===== src/HttpServer/Answers.antt =====
-- What handle_connection of HTTP Server/httpserver.c does, whatever the client sends and the system calls
-- return.
use mathlib.Core.Path.{subst}
use c_lang_coding_projects.Prelude.{
  ℕ, ◌≡◌, ◌⊎◌, refl, sym, Bool-cases, inl, inr, List, [], ◌∷◌, arith, length, Option, none, some,
}
use c_lang_coding_projects.Text.{same_text}
use c_lang_coding_projects.HttpServer.{
  Status, ok, created, internal_server_error, is_ok, HttpReq, convert_to_upper,
}
use c_lang_coding_projects.HttpServer.Handlers.{
  Env, FileKind, absent, directory, plain, Opened, opened, denied, not_a_file, open_failed, Effect,
  responds, responds_file, passes_out, truncates, writes, passes_in, get_name, validate_get,
  validate_put, validate_req, handle_get, handle_put, got, put_opened, put_body, pass_rest,
  passed_response, left_to_pass, put_status, bounded_body,
}
use c_lang_coding_projects.HttpServer.Connection.{Recv, dispatch, checked, handle_connection}
use c_lang_coding_projects.HttpServer.Names.{IsName, HasName}
use c_lang_coding_projects.HttpServer.Flow.{Ends, connection_lem}

-- The statuses of the responses that are sent.
abbrev pub responses : List Effect → List Status
responses [] = []
responses (responds s ∷ es) = s ∷ responses es
responses (responds_file s n ∷ es) = s ∷ responses es
responses (passes_out uri n ∷ es) = responses es
responses (truncates uri ∷ es) = responses es
responses (writes uri xs n ∷ es) = responses es
responses (passes_in uri n k ∷ es) = responses es

-- The files that are changed.
abbrev pub changes : List Effect → List (List ℕ)
changes [] = []
changes (responds s ∷ es) = changes es
changes (responds_file s n ∷ es) = changes es
changes (passes_out uri n ∷ es) = changes es
changes (truncates uri ∷ es) = uri ∷ changes es
changes (writes uri xs n ∷ es) = uri ∷ changes es
changes (passes_in uri n k ∷ es) = uri ∷ changes es

-- Each file that is changed, or whose bytes are sent, has the property.
abbrev pub OnFiles : (List ℕ → Type 0) → List Effect → Type 0
OnFiles P [] = Unit
OnFiles P (responds s ∷ es) = OnFiles P es
OnFiles P (responds_file s n ∷ es) = OnFiles P es
OnFiles P (passes_out uri n ∷ es) = P uri × OnFiles P es
OnFiles P (truncates uri ∷ es) = P uri × OnFiles P es
OnFiles P (writes uri xs n ∷ es) = P uri × OnFiles P es
OnFiles P (passes_in uri n k ∷ es) = P uri × OnFiles P es

-- The statuses of a connection that may have changed a file.
pub data Changing : Status → Type 0 where
  when_ok : Changing ok
  when_created : Changing created
  when_failed : Changing internal_server_error

abbrev pub Answered : List Effect → Type 0
Answered es = (s : Status) × (responses es ≡ s ∷ []) × ((changes es ≡ []) ⊎ Changing s)

get-Answered : (env : Env) (req : HttpReq) (o : Opened) → Answered (got env req o)
get-Answered env req opened = (_, refl, inl refl)
get-Answered env req denied = (_, refl, inl refl)
get-Answered env req not_a_file = (_, refl, inl refl)
get-Answered env req open_failed = (_, refl, inl refl)

put_status-Changing : (k : FileKind) → Changing (put_status k)
put_status-Changing absent = when_created
put_status-Changing directory = when_ok
put_status-Changing (plain size) = when_ok

-- One response, with a status of a connection that may have changed a file.
abbrev Changed : List Effect → Type 0
Changed es = (s : Status) × (responses es ≡ s ∷ []) × Changing s

passed-Changed : (env : Env) (req : HttpReq) (o : Option ℕ) → Changed (passed_response env req o)
passed-Changed env req none = (_, refl, when_failed)
passed-Changed env req (some k) = (_, refl, put_status-Changing (env.stat req.uri))

pass-Changed : (env : Env) (req : HttpReq) (n : ℕ) → Changed (pass_rest env req n)
pass-Changed env req n = passed-Changed env req (env.pass (left_to_pass req.content_length n))

body-Changed : (env : Env) (req : HttpReq) (body : List ℕ) → Changed (put_body env req body)
body-Changed env req [] = pass-Changed env req 0
body-Changed env req (x ∷ xs) = elim (Bool-cases env.write_fails) [
  | inl e ↦ rw e (_, refl, when_failed)
  | inr e ↦ rw e (pass-Changed env req (bounded_body req.content_length (length (x ∷ xs))))
]

put-Answered :
    (env : Env) (req : HttpReq) (body : List ℕ) (o : Opened) → Answered (put_opened env req body o)
put-Answered env req body opened = let (s, one, c) = body-Changed env req body in (s, one, inr c)
put-Answered env req body denied = (_, refl, inl refl)
put-Answered env req body not_a_file = (_, refl, inl refl)
put-Answered env req body open_failed = (_, refl, inl refl)

dispatch-Answered : (env : Env) (req : HttpReq) (body : List ℕ) → Answered (dispatch env req body)
unfolding handle_get handle_put
dispatch-Answered env req body = elim (Bool-cases (is_ok req.status)) [
  | inl e ↦ elim (Bool-cases (same_text (convert_to_upper req.method) get_name)) [
    | inl g ↦ rw (e, g) (get-Answered env req (env.open_read req.uri))
    | inr g ↦ rw (e, g) (put-Answered env req body (env.open_write req.uri))
  ]
  | inr e ↦ rw e (_, refl, inl refl)
]

-- handle_connection never writes through NULL, and where it ends it has sent exactly one response. A
-- connection whose status is not 200, 201 or 500 has changed no file.
pub answer_lem : (env : Env) (events : List Recv) → Ends (handle_connection env events) Answered
answer_lem env events =
    connection_lem Answered (_, refl, inl refl)
      (λ env req body name. dispatch-Answered env (checked env req) body) env events

get-OnFiles :
    (env : Env) (req : HttpReq) (o : Opened) → IsName req.uri → OnFiles IsName (got env req o)
get-OnFiles env req opened name = (name, tt)
get-OnFiles env req denied name = tt
get-OnFiles env req not_a_file name = tt
get-OnFiles env req open_failed name = tt

module _ (P : List ℕ → Type 0) (env : Env) (req : HttpReq) (name : P req.uri) where
  passed-OnFiles : (o : Option ℕ) → OnFiles P (passed_response env req o)
  passed-OnFiles none = tt
  passed-OnFiles (some k) = tt

  pass-OnFiles : (n : ℕ) → OnFiles P (pass_rest env req n)
  pass-OnFiles n = (name, passed-OnFiles (env.pass (left_to_pass req.content_length n)))

  body-OnFiles : (body : List ℕ) → OnFiles P (put_body env req body)
  body-OnFiles [] = pass-OnFiles 0
  body-OnFiles (x ∷ xs) = elim (Bool-cases env.write_fails) [
    | inl e ↦ rw e (name, tt)
    | inr e ↦ rw e (name, pass-OnFiles (bounded_body req.content_length (length (x ∷ xs))))
  ]

  pub put-OnFiles : (body : List ℕ) (o : Opened) → OnFiles P (put_opened env req body o)
  put-OnFiles body opened = (name, body-OnFiles body)
  put-OnFiles body denied = tt
  put-OnFiles body not_a_file = tt
  put-OnFiles body open_failed = tt

dispatch-OnFiles :
    (env : Env) (req : HttpReq) (body : List ℕ)
    → HasName req
    → OnFiles IsName (dispatch env req body)
unfolding handle_get handle_put
dispatch-OnFiles env req body name = elim (Bool-cases (is_ok req.status)) [
  | inl e ↦ elim (Bool-cases (same_text (convert_to_upper req.method) get_name)) [
    | inl g ↦ rw (e, g) (get-OnFiles env req (env.open_read req.uri) (name e))
    | inr g ↦ rw (e, g) (put-OnFiles IsName env req (name e) body (env.open_write req.uri))
  ]
  | inr e ↦ rw e tt
]

validate_get-uri :
    (env : Env) (req : HttpReq) (k : FileKind) → (validate_get env req k).uri ≡ req.uri
validate_get-uri env req absent = refl
validate_get-uri env req directory = refl
validate_get-uri env req (plain size) = ground arith

validate_put-uri :
    (env : Env) (req : HttpReq) (k : FileKind) → (validate_put env req k).uri ≡ req.uri
validate_put-uri env req absent = refl
validate_put-uri env req directory = refl
validate_put-uri env req (plain size) = ground arith

validate_req-uri : (env : Env) (req : HttpReq) → (validate_req env req).uri ≡ req.uri
unfolding validate_req
validate_req-uri env req = ground (
  arith,
  validate_get-uri env req (env.stat req.uri),
  validate_put-uri env req (env.stat req.uri),
)

checked-HasName : (env : Env) (req : HttpReq) → HasName req → HasName (checked env req)
checked-HasName env req name = elim (Bool-cases (is_ok req.status)) [
  | inl e ↦ rw e (λ d. subst IsName (sym (validate_req-uri env req)) (name e))
  | inr e ↦ rw e (λ d. cc (e, d))
]

-- handle_connection never writes through NULL, and where it ends it has changed and has sent only
-- files whose name has 1 to 63 letters, digits, dots and dashes.
pub files_lem :
    (env : Env) (events : List Recv) → Ends (handle_connection env events) (OnFiles IsName)
files_lem env events =
    connection_lem (OnFiles IsName) tt
      (λ env req body name.
        dispatch-OnFiles env (checked env req) body (checked-HasName env req name))
      env events
