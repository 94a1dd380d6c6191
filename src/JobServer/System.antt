-- ===== src/JobServer/System.antt =====
-- The worker threads of Multi-Threaded HTTP Server/httpserver.c as users of the table: a call of
-- `job_reader_lock_uri` or `job_writer_lock_uri` takes a lock from the table, and the unlock function
-- of the same URI gives it back. handle_request and handle_put never hold two.
use c_lang_coding_projects.Prelude.{ℕ, ◌<◌, ◌≡◌, Bool, some}
use c_lang_coding_projects.Threads.{assign}
use c_lang_coding_projects.JobServer.{Job, job_new, job_get_lock, job_unlock_uri}

module _ (Uri : Type 0) (strcmp_eq : Uri → Uri → Bool) where
  -- A thread uses no lock, or the one at an index, for a URI.
  pub data Phase : Type 0 where
    idle : Phase
    using : Uri → ℕ → Phase

  -- The part of a lock or unlock function that runs with `job_lock`.
  pub data Act (job : Job Uri strcmp_eq) : Phase → Job Uri strcmp_eq → Phase → Type 0 where
    takes :
        (uri : Uri) (i : ℕ) (job' : Job Uri strcmp_eq)
        → job_get_lock Uri strcmp_eq job uri ≡ some (i, job')
        → Act job idle job' (using uri i)
    returns :
        {uri : Uri} {i : ℕ} (k : ℕ) (job' : Job Uri strcmp_eq)
        → job_unlock_uri Uri strcmp_eq job uri ≡ some (k, job')
        → Act job (using uri i) job' idle

  pub record System : Type 0 where
    pub job : Job Uri strcmp_eq
    pub phase : ℕ → Phase

  pub data Step (n : ℕ) (s : System) : System → Type 0 where
    pick :
        (a : ℕ) {job : Job Uri strcmp_eq} {p : Phase}
        → a < n
        → Act s.job (s.phase a) job p
        → Step n s (record { job = job; phase = assign s.phase a p })

  abbrev pub init : ℕ → System
  init n = record { job = job_new Uri strcmp_eq n; phase = λ a. idle }

  -- The states that `n` threads can reach from `job_new(n)`.
  pub data Reach (n : ℕ) : System → Type 0 where
    start : Reach n (init n)
    later : {s t : System} → Reach n s → Step n s t → Reach n t
