-- ===== src/Examples/Servers.antt =====
-- Concrete states of the table of Multi-Threaded HTTP Server/httpserver.c, with numbers as URIs.
use c_lang_coding_projects.Prelude.{
  [], ◌∷◌, ℕ, ◌<◌, ◌≡◌, ◌↔◌, refl, arith, some, ◌==◌, none, true, false,
}
use c_lang_coding_projects.HttpServer.{Status}
use c_lang_coding_projects.JobServer.Handlers.{
  Method, Results, absent, opened, renamed, starts, sends, reads_null, handle_request,
}
use c_lang_coding_projects.JobServer.Locking.{Audited}
use c_lang_coding_projects.JobServer.Worker.{handle_request_lem}
use c_lang_coding_projects.Threads.{assign}
use c_lang_coding_projects.JobServer.{
  Job, job_new, job_get_lock, job_unlock_uri, job_find_uri, find_from, free_from,
}
use c_lang_coding_projects.JobServer.System.{idle, using, takes, System, pick, Reach, start, later}
use c_lang_coding_projects.JobServer.Table.{IsStrcmp}
use c_lang_coding_projects.JobServer.Agreement.{get_lock_lem, agreement_lem}
use c_lang_coding_projects.Arrays.{put}

equal-IsStrcmp : IsStrcmp ◌==◌
equal-IsStrcmp = record { same = λ a b e. ground (arith, e); self = λ a. ground arith }

-- Thread 1 of two uses a lock for the URI 5.
abbrev one_uses : System ℕ ◌==◌
one_uses = record {
  job = record (job_new ℕ ◌==◌ 2) {
    uri_list = put (job_new ℕ ◌==◌ 2).uri_list 0 (some 5);
    uri_count = put (job_new ℕ ◌==◌ 2).uri_count 0 1;
  };
  phase = assign (λ a. idle) 1 (using 5 0);
}

one_uses-Reach : Reach ℕ ◌==◌ 2 one_uses
unfolding job_new job_get_lock job_find_uri find_from free_from put
one_uses-Reach = later start (pick 1 (omega arith) (takes 5 0 one_uses.job refl))

zero_idle : one_uses.phase 0 ≡ idle
unfolding assign
zero_idle = refl

one_using : one_uses.phase 1 ≡ using 5 0
unfolding assign
one_using = refl

get_lock_lem_example :
    (k : ℕ) × (job' : Job ℕ ◌==◌) × (job_get_lock ℕ ◌==◌ one_uses.job 8 ≡ some (k, job')) × (k < 2)
get_lock_lem_example = get_lock_lem equal-IsStrcmp one_uses-Reach 0 8 (omega arith) zero_idle

agreement_lem_example :
    ((◌≡◌ {A = ℕ} 0 0) ↔ (◌≡◌ {A = ℕ} 5 5))
    × ((job' : Job ℕ ◌==◌) × (job_unlock_uri ℕ ◌==◌ one_uses.job 5 ≡ some (0, job')))
agreement_lem_example =
    agreement_lem equal-IsStrcmp one_uses-Reach 1 1 5 5 0 0 (omega arith) (omega arith) one_using
      one_using

-- A put of a new file that comes in whole.
abbrev new_put : Results
new_put = record {
  parse = none;
  method = Method.put;
  kind = absent;
  readable = true;
  open_result = opened;
  no_temp = false;
  recv_file = none;
  send_result = none;
  existed = false;
  rename_result = renamed;
}

handle_request_lem_example : (s : Status) × Audited ℕ s (some s) (handle_request ℕ new_put 5)
handle_request_lem_example = handle_request_lem ℕ new_put 5

-- A method that is not supported, where conn_send_response returns NULL.
abbrev other_request : Results
other_request = record new_put { method = Method.other_method }

other_runs :
    handle_request ℕ other_request 5 ≡ starts ∷ sends Status.not_implemented ∷ reads_null 5 ∷ []
unfolding handle_request
other_runs = refl
