-- ===== src/HttpServer/Flow.antt =====
-- The way through handle_connection of HTTP Server/httpserver.c: the buffer that is parsed has a line.
use c_lang_coding_projects.Prelude.{
  ℕ, ◌≡◌, refl, ◌&&◌, Bool, Bool-cases, true, false, inl, inr, List, [], ◌∷◌, ◌++◌, ◌==◌, ltb, not,
  length, Option, none, some,
}
use c_lang_coding_projects.HttpServer.{bad_request, HttpReq}
use c_lang_coding_projects.HttpServer.Parser.{lines_from, parse_req}
use c_lang_coding_projects.HttpServer.Handlers.{Env, Effect, responds}
use c_lang_coding_projects.HttpServer.Connection.{
  Recv, received, again, recv_failed, Head, complete, rejected, waiting, is_end, find_end, head_of,
  recv_loop, new_req, dispatch, Outcome, waits, ends, crashes, checked, parsed, headed,
  handle_connection, max_header_len,
}
use c_lang_coding_projects.HttpServer.Names.{HasName, ParsedName, parse_lines-ParsedName}

-- The outcome is no crash, and where the connection ends its effects have the property.
abbrev pub Ends : Outcome → (List Effect → Type 0) → Type 0
Ends waits P = Unit
Ends (ends effects) P = P effects
Ends crashes P = ⊥

-- A header ends with "\r\n".
abbrev HasLine : List ℕ → Type 0
HasLine header = (p : List ℕ) × (header ≡ p ++ b'\r' ∷ b'\n' ∷ [])

abbrev EndHasLine : Option (List ℕ × List ℕ) → Type 0
EndHasLine none = Unit
EndHasLine (some (header, body)) = HasLine header

abbrev HeadHasLine : Head → Type 0
HeadHasLine waiting = Unit
HeadHasLine rejected = Unit
HeadHasLine (complete header body) = HasLine header

find_end-EndHasLine : (passed xs : List ℕ) → EndHasLine (find_end passed xs)
find_end-EndHasLine passed [] = tt
find_end-EndHasLine passed (x ∷ xs) = elim (Bool-cases (is_end (x ∷ xs))) [
  | inl e ↦ rw e (passed, refl)
  | inr e ↦ elim (Bool-cases (x == 0)) [
    | inl z ↦ rw (e, z) tt
    | inr z ↦ rw (e, z) (find_end-EndHasLine (passed ++ x ∷ []) xs)
  ]
]

head_of-HeadHasLine :
    (buffer : List ℕ) (o : Option (List ℕ × List ℕ)) (rest : Head)
    → EndHasLine o
    → HeadHasLine rest
    → HeadHasLine (head_of buffer o rest)
head_of-HeadHasLine buffer (some (header, body)) rest e h = e
head_of-HeadHasLine buffer none rest e h = elim (Bool-cases (ltb (length buffer) max_header_len)) [
  | inl l ↦ rw l h
  | inr l ↦ rw l tt
]

recv_loop-HeadHasLine :
    (buffer : List ℕ) (events : List Recv) → HeadHasLine (recv_loop buffer events)
recv_loop-HeadHasLine buffer [] = tt
recv_loop-HeadHasLine buffer (received [] ∷ events) = tt
recv_loop-HeadHasLine buffer (received (x ∷ xs) ∷ events) =
    head_of-HeadHasLine (buffer ++ x ∷ xs) (find_end [] (buffer ++ x ∷ xs))
      (recv_loop (buffer ++ x ∷ xs) events) (find_end-EndHasLine [] (buffer ++ x ∷ xs))
      (recv_loop-HeadHasLine (buffer ++ x ∷ xs) events)
recv_loop-HeadHasLine buffer (again ∷ events) = recv_loop-HeadHasLine buffer events
recv_loop-HeadHasLine buffer (recv_failed ∷ events) = tt

abbrev SomeLine : List (List ℕ) → Type 0
SomeLine lines = (line : List ℕ) × (more : List (List ℕ)) × (lines ≡ line ∷ more)

lines_from-SomeLine :
    (line : List ℕ) (cr : Bool) (p : List ℕ)
    → SomeLine (lines_from line cr (p ++ b'\r' ∷ b'\n' ∷ []))
lines_from-SomeLine line true [] = (_, _, refl)
lines_from-SomeLine line false [] = (_, _, refl)
lines_from-SomeLine line cr (x ∷ p) = elim (Bool-cases (cr && x == b'\n')) [
  | inl e ↦ rw e (_, _, refl)
  | inr e ↦ rw e (lines_from-SomeLine (line ++ x ∷ []) (not false && x == b'\r') p)
]

parse_req-ParsedName :
    (no_memory stale : Bool) (req : HttpReq) (header : List ℕ)
    → HasLine header
    → ParsedName (parse_req no_memory stale req header)
unfolding parse_req
parse_req-ParsedName no_memory stale req header (p, e) =
    let (line, more, same) = lines_from-SomeLine [] false p in
    rw (e, same) (parse_lines-ParsedName no_memory stale req line more)

-- A property of the effects holds if it holds for a refused header and for each request with a name.
module _ (P : List Effect → Type 0) (refused : P (responds bad_request ∷ []))
    (answered : (env : Env) (req : HttpReq) (body : List ℕ)
      → HasName req
      → P (dispatch env (checked env req) body)) where
  parsed_lem :
      (env : Env) (body : List ℕ) (o : Option HttpReq) → ParsedName o → Ends (parsed env body o) P
  parsed_lem env body none name = name
  parsed_lem env body (some req) name = answered env req body name

  headed_lem : (env : Env) (h : Head) → HeadHasLine h → Ends (headed env h) P
  headed_lem env waiting line = tt
  headed_lem env rejected line = refused
  headed_lem env (complete header body) line =
      parsed_lem env body (parse_req env.no_memory env.stale new_req header)
        (parse_req-ParsedName env.no_memory env.stale new_req header line)

  pub connection_lem : (env : Env) (events : List Recv) → Ends (handle_connection env events) P
  unfolding handle_connection
  connection_lem env events = headed_lem env (recv_loop [] events) (recv_loop-HeadHasLine [] events)
