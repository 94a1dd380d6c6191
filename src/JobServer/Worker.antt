-- ===== src/JobServer/Worker.antt =====
-- The order of the actions of handle_request (Multi-Threaded HTTP Server/httpserver.c).
use mathlib.Core.Path.{subst}
use mathlib.Core.List.{append_assoc}
use c_lang_coding_projects.Prelude.{
  ◌≡◌, refl, sym, ap, ◌∙◌, Bool, Bool-cases, true, false, inl, inr, List, [], ◌∷◌, ◌++◌, Option,
  none, some,
}
use c_lang_coding_projects.HttpServer.{Status}
use c_lang_coding_projects.JobServer.Handlers.{
  Method, get, put, other_method, FileKind, absent, directory, plain, Opened, opened, denied,
  open_failed, Renamed, renamed, refused, rename_failed, Results, Action, finishes, reader_unlocks,
  writer_locks, writer_unlocks, looks_at, sends, receives, renames, unlinks, audits, reads_null,
  with_audit, get_kind, get_opened, handle_get, handle_put, put_renamed, put_response,
  handle_request, handle_parsed, handle_method, locked, put_out,
}
use c_lang_coding_projects.JobServer.Locking.{
  Held, no_lock, reading, unknown, Obeys, stop, act, may_start, may_finish, may_read, may_end_read,
  may_write, may_end_write, may_look, may_look_at_own, may_send_file, may_replace, may_send,
  may_receive, may_unlink, may_audit, may_read_null, sent, audited, audit_of, Audited,
}

module _ (Uri : Type 0) where
  -- The actions of a handler that finds a lock held and leaves it so, before any that may follow: one
  -- response is sent, the one that it returns.
  record Serves (h : Held Uri) (handled : List (Action Uri) × Status) : Type 0 where
    obeys :
        (k : Held Uri) (tail : List (Action Uri))
        → Obeys Uri h tail k
        → Obeys Uri h (handled.0 ++ tail) k
    sends_one :
        (tail : List (Action Uri)) → sent Uri (handled.0 ++ tail) ≡ handled.1 ∷ sent Uri tail
    no_audit : (tail : List (Action Uri)) → audited Uri (handled.0 ++ tail) ≡ audited Uri tail

  look-Serves : (uri : Uri) (s : Status) → Serves (reading uri) (looks_at uri ∷ sends s ∷ [], s)
  look-Serves uri s = record {
    obeys = λ k tail r. act (may_look uri) (act (may_send (reading uri) s) r);
    sends_one = λ tail. refl;
    no_audit = λ tail. refl;
  }

  opened-Serves : (uri : Uri) (o : Opened) → Serves (reading uri) (get_opened Uri uri o)
  opened-Serves uri opened = record {
    obeys = λ k tail r. act (may_look uri) (act (may_send_file uri) r);
    sends_one = λ tail. refl;
    no_audit = λ tail. refl;
  }
  opened-Serves uri denied = look-Serves uri Status.forbidden
  opened-Serves uri open_failed = look-Serves uri Status.internal_server_error

  kind-Serves :
      (uri : Uri) (readable : Bool) (o : Opened) (k : FileKind)
      → Serves (reading uri) (get_kind Uri uri readable o k)
  kind-Serves uri readable o absent = look-Serves uri Status.not_found
  kind-Serves uri readable o directory = look-Serves uri Status.forbidden
  kind-Serves uri true o plain = opened-Serves uri o
  kind-Serves uri false o plain = look-Serves uri Status.forbidden

  sends-Serves : (s : Status) → Serves no_lock (sends s ∷ [], s)
  sends-Serves s = record {
    obeys = λ k tail r. act (may_send no_lock s) r;
    sends_one = λ tail. refl;
    no_audit = λ tail. refl;
  }

  locked-Serves :
      (uri : Uri) (handled : List (Action Uri) × Status)
      → Serves (reading uri) handled
      → Serves no_lock (locked Uri uri handled)
  locked-Serves uri (actions, s) h = record {
    obeys = λ k tail r. act (may_read uri) (
        subst (λ l. Obeys Uri (reading uri) l k)
          (sym (append_assoc actions (reader_unlocks uri ∷ []) tail))
          (h.obeys k (reader_unlocks uri ∷ tail) (act (may_end_read uri) r)));
    sends_one = λ tail.
        ap (sent Uri) (append_assoc actions (reader_unlocks uri ∷ []) tail)
        ∙ h.sends_one (reader_unlocks uri ∷ tail);
    no_audit = λ tail.
        ap (audited Uri) (append_assoc actions (reader_unlocks uri ∷ []) tail)
        ∙ h.no_audit (reader_unlocks uri ∷ tail);
  }

  replacing :
      (uri : Uri) (k : Held Uri) (tail : List (Action Uri))
      → Obeys Uri no_lock tail k
      → Obeys Uri no_lock
          (receives ∷ writer_locks uri ∷ looks_at uri ∷ renames uri ∷ writer_unlocks uri ∷ tail)
          k
  replacing uri k tail r = act may_receive (
      act (may_write uri)
        (act (may_look_at_own uri) (act (may_replace uri) (act (may_end_write uri) r))))

  unlinked-Serves :
      (uri : Uri) (s : Status)
      → Serves no_lock (
          put_out Uri
            (receives ∷ writer_locks uri ∷ looks_at uri ∷ renames uri ∷ writer_unlocks uri ∷ [])
            (unlinks ∷ [], s))
  unlinked-Serves uri s = record {
    obeys = λ k tail r.
        replacing uri k (unlinks ∷ sends s ∷ tail) (act may_unlink (act (may_send no_lock s) r));
    sends_one = λ tail. refl;
    no_audit = λ tail. refl;
  }

  put-Serves :
      (uri : Uri) (r : Results) (o : Renamed)
      → Serves no_lock (
          put_out Uri
            (receives ∷ writer_locks uri ∷ looks_at uri ∷ renames uri ∷ writer_unlocks uri ∷ [])
            (put_renamed Uri r o))
  put-Serves uri r renamed = record {
    obeys = λ k tail r'.
        replacing uri k (sends (put_response Uri r.recv_file r.existed) ∷ tail)
          (act (may_send no_lock (put_response Uri r.recv_file r.existed)) r');
    sends_one = λ tail. refl;
    no_audit = λ tail. refl;
  }
  put-Serves uri r refused = unlinked-Serves uri Status.forbidden
  put-Serves uri r rename_failed = unlinked-Serves uri Status.internal_server_error

  put_all-Serves : (r : Results) (uri : Uri) → Serves no_lock (handle_put Uri r uri)
  unfolding handle_put
  put_all-Serves r uri = elim (Bool-cases r.no_temp) [
    | inl e ↦ rw e (sends-Serves Status.internal_server_error)
    | inr e ↦ rw e (put-Serves uri r r.rename_result)
  ]

  get-Serves : (r : Results) (uri : Uri) → Serves (reading uri) (handle_get Uri r uri)
  unfolding handle_get
  get-Serves r uri = kind-Serves uri r.readable r.open_result r.kind

  -- A round up to the audit, which sends one response; `f` says what `res` is then.
  abbrev ServesOne : (Status → Option Status) → List (Action Uri) × Option Status → Type 0
  ServesOne f round = (s : Status) × Serves no_lock (round.0, s) × (round.1 ≡ f s)

  method-ServesOne :
      (r : Results) (uri : Uri) (m : Method)
      → ServesOne (audit_of none m r.send_result) (handle_method Uri r uri m)
  method-ServesOne r uri get =
      (_, locked-Serves uri (handle_get Uri r uri) (get-Serves r uri), refl)
  method-ServesOne r uri put = (_, put_all-Serves r uri, refl)
  method-ServesOne r uri other_method =
      (Status.not_implemented, sends-Serves Status.not_implemented, refl)

  parsed-ServesOne :
      (r : Results) (uri : Uri) (o : Option Status)
      → ServesOne (audit_of o r.method r.send_result) (handle_parsed Uri r uri o)
  parsed-ServesOne r uri (some s) = (s, sends-Serves s, refl)
  parsed-ServesOne r uri none = method-ServesOne r uri r.method

  with_audit-Audited :
      (uri : Uri) (actions : List (Action Uri)) (s : Status) (o : Option Status)
      → Serves no_lock (actions, s)
      → Audited Uri s o (with_audit Uri uri (actions, o))
  with_audit-Audited uri actions s (some res) serves =
      let tail = audits uri res ∷ finishes ∷ [] in
      (
        act may_start
            (serves.obeys no_lock tail (act (may_audit uri res) (act may_finish (stop no_lock)))),
        serves.sends_one tail,
        serves.no_audit tail,
      )
  with_audit-Audited uri actions s none serves =
      let tail = reads_null uri ∷ [] in
      (
        act may_start (serves.obeys unknown tail (act (may_read_null uri) (stop unknown))),
        serves.sends_one tail,
        serves.no_audit tail,
      )

  -- In a round of handle_request, whatever the system calls and the connection library return: a
  -- lock is taken only where the thread holds none and is released, files are looked at, sent and
  -- replaced with the lock of their URI, and replaced with a writer's; exactly one response is
  -- sent, and once, with no lock of a URI held, response_get_code is called for the audit. It is
  -- given the response that was sent, but for a request that is parsed and whose method is neither
  -- GET nor PUT it is given what conn_send_response returned: NULL there means
  -- response_get_code(NULL) and no audit line.
  pub handle_request_lem :
      (r : Results) (uri : Uri)
      → (s : Status) × Audited Uri s
          (audit_of r.parse r.method r.send_result s)
          (handle_request Uri r uri)
  unfolding handle_request
  handle_request_lem r uri =
      let (s, serves, e) = parsed-ServesOne r uri r.parse in
      let round = handle_parsed Uri r uri r.parse in
      (
        s,
        subst (λ o. Audited Uri s o (with_audit Uri uri round)) e
            (with_audit-Audited uri round.0 s round.1 serves),
      )
