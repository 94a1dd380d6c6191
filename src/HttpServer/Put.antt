-- ===== src/HttpServer/Put.antt =====
-- handle_put of HTTP Server/httpserver.c on every branch, and what the file then holds.
use Prim.Native.Nat.{min}
use c_lang_coding_projects.Prelude.{
  ℕ, zero, suc, ◌-◌, ◌<◌, ◌≡◌, ◌≢◌, ◌⊎◌, inl, inr, refl, sym, ap, ◌∙◌, Bool-cases, true, false,
  List, [], ◌∷◌, ◌++◌, arith, length, take, take-append, Option, none, some,
}
use c_lang_coding_projects.HttpServer.{
  HttpReq, Status, ok, created, forbidden, internal_server_error, is_negative,
}
use c_lang_coding_projects.HttpServer.Handlers.{
  Env, FileKind, absent, directory, plain, Opened, opened, denied, not_a_file, open_failed, Effect,
  responds, responds_file, passes_out, truncates, writes, passes_in, handle_put, put_status,
  put_opened, pass_rest, bounded_body, left_to_pass,
}
use c_lang_coding_projects.HttpServer.Answers.{responses, OnFiles, put-OnFiles}

-- What pass_n_bytes documents, for a connection on which the bytes of `stream` are still to come:
-- it returns -1, or stops at the number it is asked for or at the end, and returns how many bytes
-- it has passed on.
abbrev pub IsPass : (ℕ → Option ℕ) → List ℕ → Type 0
IsPass pass stream = (n : ℕ) → (pass n ≡ none) ⊎ (pass n ≡ some (min n (length stream)))

-- The bytes of the file behind the effects, from those before; no call fails.
abbrev pub file_after : List ℕ → List ℕ → List Effect → List ℕ
file_after stream old [] = old
file_after stream old (responds s ∷ es) = file_after stream old es
file_after stream old (responds_file s n ∷ es) = file_after stream old es
file_after stream old (passes_out uri n ∷ es) = file_after stream old es
file_after stream old (truncates uri ∷ es) = file_after stream [] es
file_after stream old (writes uri xs n ∷ es) = file_after stream (old ++ take n xs) es
file_after stream old (passes_in uri n none ∷ es) = file_after stream old es
file_after stream old (passes_in uri n (some k) ∷ es) = file_after stream (old ++ take k stream) es

-- The response to a put that is stored: 201 for a file that was not there, 200 for one that was.
pub data Reply : FileKind → Status → Type 0 where
  when_new : Reply absent created
  when_there : {k : FileKind} → k ≢ absent → Reply k ok

put_status-Reply : (k : FileKind) → Reply k (put_status k)
put_status-Reply absent = when_new
put_status-Reply directory = when_there λ e. cc e
put_status-Reply (plain size) = when_there λ e. cc e

-- How handle_put ends where the file opens: a failed call, or the bytes are stored.
pub record Failed (env : Env) (req : HttpReq) (body : List ℕ) (es : List Effect) : Type 0 where
  pub cause :
      ((0 < length body) × (env.write_fails ≡ true))
      ⊎ (env.pass (req.content_length - length body) ≡ none)
  pub answer : responses es ≡ internal_server_error ∷ []

pub record Stored (env : Env) (req : HttpReq) (body stream old : List ℕ) (es : List Effect)
    : Type 0 where
  pub no_write_fails : (body ≡ []) ⊎ (env.write_fails ≡ false)
  pub passes : (k : ℕ) × (env.pass (req.content_length - length body) ≡ some k)
  pub answer : (s : Status) × (responses es ≡ s ∷ []) × Reply (env.stat req.uri) s
  pub bytes : file_after stream old es ≡ take req.content_length (body ++ stream)

-- Where it does not open.
pub data Refused : Opened → Status → Type 0 where
  when_denied : Refused denied forbidden
  when_not_a_file : Refused not_a_file forbidden
  when_open_failed : Refused open_failed internal_server_error

abbrev pub Put : Env → HttpReq → List ℕ → List ℕ → List ℕ → Opened → List Effect → Type 0
Put env req body stream old o es =
    ((o ≡ opened) × (Stored env req body stream old es ⊎ Failed env req body es))
    ⊎ ((s : Status) × Refused o s × (es ≡ responds s ∷ []))

left_lem : (n b : ℕ) → is_negative n ≡ false → left_to_pass n (bounded_body n b) ≡ n - b
left_lem n b neg = ground (arith, neg)

bounded-min : (n b : ℕ) → is_negative n ≡ false → bounded_body n b ≡ min n b
bounded-min n b neg = ground (arith, neg)

take-min : (n : ℕ) (xs : List ℕ) → take (min n (length xs)) xs ≡ take n xs
take-min zero xs = let e : min 0 (length xs) ≡ 0 = omega arith in rw e refl
take-min (suc n) [] = let e : min (suc n) 0 ≡ 0 = omega arith in rw e refl
take-min (suc n) (x ∷ xs) =
    let e : min (suc n) (suc (length xs)) ≡ suc (min n (length xs)) = omega arith in
    rw e (ap (λ l. x ∷ l) (take-min n xs))

-- The end of handle_put, where the file holds `old` and `m` bytes are to be passed.
abbrev Ended : Env → HttpReq → List ℕ → List ℕ → ℕ → List Effect → Type 0
Ended env req stream old m es =
    ((k : ℕ) × (env.pass m ≡ some k)
      × (responses es ≡ put_status (env.stat req.uri) ∷ [])
      × (file_after stream old es ≡ old ++ take m stream))
    ⊎ ((env.pass m ≡ none) × (responses es ≡ internal_server_error ∷ []))

pass_rest_lem :
    (env : Env) (req : HttpReq) (stream old : List ℕ) (n m : ℕ)
    → IsPass env.pass stream
    → left_to_pass req.content_length n ≡ m
    → Ended env req stream old m (pass_rest env req n)
pass_rest_lem env req stream old n m passes e = elim (passes m) [
  | inl p ↦ rw (e, p) (inr (refl, refl))
  | inr p ↦
      rw (e, p) (inl (min m (length stream), refl, refl, ap (λ l. old ++ l) (take-min m stream)))
]

stored_bytes :
    (n : ℕ) (body stream : List ℕ)
    → take n (body ++ stream) ≡ take (min n (length body)) body ++ take (n - length body) stream
stored_bytes n body stream =
    take-append n body stream ∙ ap (λ l. l ++ take (n - length body) stream) (sym (take-min n body))

body_lem :
    (env : Env) (req : HttpReq) (body stream old : List ℕ)
    → is_negative req.content_length ≡ false
    → IsPass env.pass stream
    → Stored env req body stream old (put_opened env req body opened)
      ⊎ Failed env req body (put_opened env req body opened)
body_lem env req [] stream old neg passes =
    elim (pass_rest_lem env req stream [] 0 (req.content_length - 0) passes (ground (arith, neg))) [
      | inl (k, p, answer, bytes) ↦ inl record {
        no_write_fails = inl refl;
        passes = (k, p);
        answer = (_, answer, put_status-Reply (env.stat req.uri));
        bytes = bytes ∙ ap (λ m. take m stream) (omega arith);
      }
      | inr (p, answer) ↦ inr record { cause = inr p; answer = answer }
    ]
body_lem env req (x ∷ xs) stream old neg passes =
    let n = req.content_length in
    let k = bounded_body n (length (x ∷ xs)) in
    elim (Bool-cases env.write_fails) [
      | inl w ↦ inr record { cause = inl (omega arith, w); answer = rw w refl }
      | inr w ↦
          elim (pass_rest_lem env req stream (take k (x ∷ xs)) k (n - length (x ∷ xs)) passes
            (left_lem n (length (x ∷ xs)) neg)) [
              | inl (j, p, answer, bytes) ↦ inl record {
                no_write_fails = inr w;
                passes = (j, p);
                answer = rw w (_, answer, put_status-Reply (env.stat req.uri));
                bytes = rw w (
                    bytes
                    ∙ (ap (λ i. take i (x ∷ xs) ++ take (n - length (x ∷ xs)) stream)
                          (bounded-min n (length (x ∷ xs)) neg)
                        ∙ sym (stored_bytes n (x ∷ xs) stream)));
              }
              | inr (p, answer) ↦ inr record { cause = inr p; answer = rw w answer }
            ]
    ]

opened_lem :
    (env : Env) (req : HttpReq) (body stream old : List ℕ) (o : Opened)
    → is_negative req.content_length ≡ false
    → IsPass env.pass stream
    → Put env req body stream old o (put_opened env req body o)
opened_lem env req body stream old opened neg passes =
    inl (refl, body_lem env req body stream old neg passes)
opened_lem env req body stream old denied neg passes = inr (_, when_denied, refl)
opened_lem env req body stream old not_a_file neg passes = inr (_, when_not_a_file, refl)
opened_lem env req body stream old open_failed neg passes = inr (_, when_open_failed, refl)

-- handle_put of a request whose content length is not negative, where pass_n_bytes does what it
-- documents. If the file does not open, one response is sent, 403 for EACCES or EISDIR and else
-- 500, and no file is touched. If it opens, no other file is touched, and one of two things
-- happens. A write of a body that is not empty fails, or pass_n_bytes does; one response is sent,
-- 500. Or none of these fails; one response is sent, 201 if the file did not exist and else 200,
-- and the file then holds the bytes of the body that came with the header and those that are still
-- to come on the connection, in order, up to the content length; it holds fewer bytes than that,
-- with the same response, where the connection ends before.
pub handle_put_lem :
    (env : Env) (req : HttpReq) (body stream old : List ℕ)
    → is_negative req.content_length ≡ false
    → IsPass env.pass stream
    → OnFiles (λ uri. uri ≡ req.uri) (handle_put env req body)
      × Put env req body stream old (env.open_write req.uri) (handle_put env req body)
unfolding handle_put
handle_put_lem env req body stream old neg passes = (
  put-OnFiles (λ uri. uri ≡ req.uri) env req refl body (env.open_write req.uri),
  opened_lem env req body stream old (env.open_write req.uri) neg passes,
)
