-- ===== src/HttpServer/Connection.antt =====
-- handle_connection of HTTP Server/httpserver.c. What recv returns, call by call, is a list of events; a
-- list that ends stands for a client that sends nothing more.
use c_lang_coding_projects.Prelude.{
  ℕ, Bool, false, ◌&&◌, List, [], ◌∷◌, ◌++◌, ◌==◌, ltb, if◌then◌else◌, length, drop, Option, none,
  some,
}
use c_lang_coding_projects.Text.{same_text}
use c_lang_coding_projects.HttpServer.{ok, bad_request, is_ok, HttpReq, minus_one, convert_to_upper}
use c_lang_coding_projects.HttpServer.Parser.{parse_req}
use c_lang_coding_projects.HttpServer.Handlers.{
  Env, Effect, responds, get_name, validate_req, handle_get, handle_put,
}

abbrev pub max_header_len : ℕ
max_header_len = 2048

-- What a call of recv returns: bytes, none at the end; -1 with errno EAGAIN or EWOULDBLOCK; -1 otherwise.
pub data Recv : Type 0 where
  received : List ℕ → Recv
  again : Recv
  recv_failed : Recv

abbrev pub is_end : List ℕ → Bool
is_end (a ∷ b ∷ c ∷ d ∷ xs) = a == b'\r' && b == b'\n' && c == b'\r' && d == b'\n'
is_end other = false

-- strstr(buffer, "\r\n\r\n"): the header, up to its first "\r\n", and what is behind the second.
abbrev pub find_end : List ℕ → List ℕ → Option (List ℕ × List ℕ)
find_end passed [] = none
find_end passed (x ∷ xs) =
    let rest = find_end (passed ++ x ∷ []) xs in
    if is_end (x ∷ xs)
    then some (passed ++ b'\r' ∷ b'\n' ∷ [], drop 4 (x ∷ xs))
    else if x == 0
    then none
    else rest

-- How the loop that receives the header ends.
pub data Head : Type 0 where
  complete : List ℕ → List ℕ → Head
  rejected : Head
  waiting : Head

-- Behind a call that returned bytes, with the buffer, and the loop from there on.
abbrev pub head_of : List ℕ → Option (List ℕ × List ℕ) → Head → Head
head_of buffer (some (header, body)) rest = complete header body
head_of buffer none rest = if ltb (length buffer) max_header_len then rest else rejected

abbrev pub recv_loop : List ℕ → List Recv → Head
recv_loop buffer [] = waiting
recv_loop buffer (received [] ∷ events) = rejected
recv_loop buffer (received (x ∷ xs) ∷ events) =
    head_of (buffer ++ x ∷ xs) (find_end [] (buffer ++ x ∷ xs))
      (recv_loop (buffer ++ x ∷ xs) events)
recv_loop buffer (again ∷ events) = recv_loop buffer events
recv_loop buffer (recv_failed ∷ events) = rejected

abbrev pub new_req : HttpReq
new_req = record { method = []; uri = []; version = []; content_length = minus_one; status = ok }

abbrev pub dispatch : Env → HttpReq → List ℕ → List Effect
dispatch env req body =
    if is_ok req.status
    then (if same_text (convert_to_upper req.method) get_name
        then handle_get env req
        else handle_put env req body)
    else responds req.status ∷ []

-- The connection waits for ever, ends with its effects, or writes through NULL.
pub data Outcome : Type 0 where
  waits : Outcome
  ends : List Effect → Outcome
  crashes : Outcome

abbrev pub checked : Env → HttpReq → HttpReq
checked env req = if is_ok req.status then validate_req env req else req

abbrev pub parsed : Env → List ℕ → Option HttpReq → Outcome
parsed env body none = crashes
parsed env body (some req) = ends (dispatch env (checked env req) body)

abbrev pub headed : Env → Head → Outcome
headed env waiting = waits
headed env rejected = ends (responds bad_request ∷ [])
headed env (complete header body) =
    parsed env body (parse_req env.no_memory env.stale new_req header)

unfoldable pub handle_connection : Env → List Recv → Outcome
handle_connection env events = headed env (recv_loop [] events)
