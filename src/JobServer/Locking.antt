-- ===== src/JobServer/Locking.antt =====
-- What the actions of handle_request (Multi-Threaded HTTP Server/httpserver.c) may be: the order of
-- locks and files, the responses, and what the audit is given.
use c_lang_coding_projects.Prelude.{◌≡◌, List, [], ◌∷◌, Option, none, some}
use c_lang_coding_projects.HttpServer.{Status}
use c_lang_coding_projects.JobServer.Handlers.{
  Method, get, put, other_method, Action, starts, finishes, reader_locks, reader_unlocks,
  writer_locks, writer_unlocks, looks_at, sends_file, sends, receives, renames, unlinks, audits,
  reads_null,
}

-- What the audit is given where the response `s` was sent: `s`, but for an unsupported method what
-- conn_send_response returned.
abbrev pub audit_of : Option Status → Method → Option Status → Status → Option Status
audit_of (some parsed) m returned s = some s
audit_of none get returned s = some s
audit_of none put returned s = some s
audit_of none other_method returned s = returned

module _ (Uri : Type 0) where
  -- The lock that the thread holds, if any; nothing is known behind a read through NULL.
  pub data Held : Type 0 where
    no_lock : Held
    reading : Uri → Held
    writing : Uri → Held
    unknown : Held

  -- What an action may find held, and what is held behind it: a lock is taken only by a thread that
  -- holds none, and released by the thread that holds it; a file is looked at, sent or replaced
  -- only with its lock, and replaced only with a writer's; a file is received, and the audit
  -- written, without any lock.
  pub data Allowed : Held → Action Uri → Held → Type 0 where
    may_start : Allowed no_lock starts no_lock
    may_finish : Allowed no_lock finishes no_lock
    may_read : (uri : Uri) → Allowed no_lock (reader_locks uri) (reading uri)
    may_end_read : (uri : Uri) → Allowed (reading uri) (reader_unlocks uri) no_lock
    may_write : (uri : Uri) → Allowed no_lock (writer_locks uri) (writing uri)
    may_end_write : (uri : Uri) → Allowed (writing uri) (writer_unlocks uri) no_lock
    may_look : (uri : Uri) → Allowed (reading uri) (looks_at uri) (reading uri)
    may_look_at_own : (uri : Uri) → Allowed (writing uri) (looks_at uri) (writing uri)
    may_send_file : (uri : Uri) → Allowed (reading uri) (sends_file uri) (reading uri)
    may_replace : (uri : Uri) → Allowed (writing uri) (renames uri) (writing uri)
    may_send : (h : Held) (s : Status) → Allowed h (sends s) h
    may_receive : Allowed no_lock receives no_lock
    may_unlink : Allowed no_lock unlinks no_lock
    may_audit : (uri : Uri) (s : Status) → Allowed no_lock (audits uri s) no_lock
    may_read_null : (uri : Uri) → Allowed no_lock (reads_null uri) unknown

  pub data Obeys : Held → List (Action Uri) → Held → Type 0 where
    stop : (h : Held) → Obeys h [] h
    act :
        {h h' k : Held} {a : Action Uri} {actions : List (Action Uri)}
        → Allowed h a h'
        → Obeys h' actions k
        → Obeys h (a ∷ actions) k

  -- The responses that are sent, and those that response_get_code is given for the audit, where
  -- NULL is `none`.
  abbrev pub sent : List (Action Uri) → List Status
  sent [] = []
  sent (sends s ∷ actions) = s ∷ sent actions
  sent (sends_file uri ∷ actions) = Status.ok ∷ sent actions
  sent (starts ∷ actions) = sent actions
  sent (finishes ∷ actions) = sent actions
  sent (reader_locks uri ∷ actions) = sent actions
  sent (reader_unlocks uri ∷ actions) = sent actions
  sent (writer_locks uri ∷ actions) = sent actions
  sent (writer_unlocks uri ∷ actions) = sent actions
  sent (looks_at uri ∷ actions) = sent actions
  sent (receives ∷ actions) = sent actions
  sent (renames uri ∷ actions) = sent actions
  sent (unlinks ∷ actions) = sent actions
  sent (audits uri s ∷ actions) = sent actions
  sent (reads_null uri ∷ actions) = sent actions

  abbrev pub audited : List (Action Uri) → List (Option Status)
  audited [] = []
  audited (audits uri s ∷ actions) = some s ∷ audited actions
  audited (reads_null uri ∷ actions) = none ∷ audited actions
  audited (sends s ∷ actions) = audited actions
  audited (sends_file uri ∷ actions) = audited actions
  audited (starts ∷ actions) = audited actions
  audited (finishes ∷ actions) = audited actions
  audited (reader_locks uri ∷ actions) = audited actions
  audited (reader_unlocks uri ∷ actions) = audited actions
  audited (writer_locks uri ∷ actions) = audited actions
  audited (writer_unlocks uri ∷ actions) = audited actions
  audited (looks_at uri ∷ actions) = audited actions
  audited (receives ∷ actions) = audited actions
  audited (renames uri ∷ actions) = audited actions
  audited (unlinks ∷ actions) = audited actions

  -- The end of a round, by what the audit is given.
  abbrev pub end_of : Option Status → Held
  end_of (some s) = no_lock
  end_of none = unknown

  -- A whole round: one response, and one for the audit.
  abbrev pub Audited : Status → Option Status → List (Action Uri) → Type 0
  Audited s o actions =
      Obeys no_lock actions (end_of o) × (sent actions ≡ s ∷ []) × (audited actions ≡ o ∷ [])
