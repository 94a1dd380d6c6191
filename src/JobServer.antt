-- ===== src/JobServer.antt =====
-- Multi-Threaded HTTP Server/httpserver.c: the table of locks by URI in `job_t`. Its functions run
-- while the caller has `job_lock` for writing, so each is one step. `strcmp` is a parameter; an index
-- of -1 is `none`, and so is a result for which the code would read outside an array.
pub mod System
pub mod Table
pub mod Slots
pub mod Agreement
pub mod Handlers
pub mod Locking
pub mod Worker
use c_lang_coding_projects.Prelude.{
  ℕ, zero, suc, ◌+◌, ◌-◌, Bool, true, false, Option, none, some, ◌==◌, if◌then◌else◌,
}
use c_lang_coding_projects.Arrays.{put}

module _ (Uri : Type 0) (strcmp_eq : Uri → Uri → Bool) where
  -- `struct job`, less its locks and its queue; `uri_lock[i]` stands for itself by its index.
  pub record Job : Type 0 where
    pub num_threads : ℕ
    pub num_working : ℕ
    pub done : Bool
    pub uri_list : ℕ → Option Uri
    pub uri_count : ℕ → ℕ

  -- `job_new`
  unfoldable pub job_new : ℕ → Job
  job_new n = record {
    num_threads = n;
    num_working = 0;
    done = false;
    uri_list = λ i. none;
    uri_count = λ i. 0;
  }

  -- `job_start` and `job_end`, between the calls of the lock.
  unfoldable pub job_start : Job → Job
  job_start job = record job { num_working = job.num_working + 1 }

  unfoldable pub job_end : Job → Job
  job_end job = record job { num_working = job.num_working - 1 }

  -- `job->uri_list[i] != NULL` and `strcmp(job->uri_list[i], uri) == 0`
  abbrev pub is_entry : Option Uri → Uri → Bool
  is_entry none uri = false
  is_entry (some v) uri = strcmp_eq v uri

  -- The loop of `job_find_uri` from index `i` on, with `rounds` rounds left.
  unfoldable pub find_from : ℕ → ℕ → Job → Uri → Option ℕ
  find_from zero i job uri = none
  find_from (suc rounds) i job uri =
      let rest = find_from rounds (i + 1) job uri in
      if is_entry (job.uri_list i) uri then some i else rest

  unfoldable pub job_find_uri : Job → Uri → Option ℕ
  job_find_uri job uri = find_from job.num_threads 0 job uri

  -- The loop of `job_get_lock` for a slot that nobody uses.
  unfoldable pub free_from : ℕ → ℕ → Job → Option ℕ
  free_from zero i job = none
  free_from (suc rounds) i job =
      let rest = free_from rounds (i + 1) job in if job.uri_count i == 0 then some i else rest

  -- `job->uri_count[idx] += 1`, with the lock's index.
  abbrev pub with_user : Job → ℕ → ℕ × Job
  with_user job i = (i, record job { uri_count = put job.uri_count i (job.uri_count i + 1) })

  abbrev pub take_free : Job → Uri → Option ℕ → Option (ℕ × Job)
  take_free job uri none = none
  take_free job uri (some i) =
      some (with_user (record job { uri_list = put job.uri_list i (some uri) }) i)

  abbrev pub take_slot : Job → Uri → Option ℕ → Option (ℕ × Job)
  take_slot job uri (some i) = some (with_user job i)
  take_slot job uri none = take_free job uri (free_from job.num_threads 0 job)

  -- `job_get_lock`
  unfoldable pub job_get_lock : Job → Uri → Option (ℕ × Job)
  job_get_lock job uri = take_slot job uri (job_find_uri job uri)

  -- `job_return_lock`. The count becomes 0 where it was 1; one of 0 would become -1.
  abbrev pub without_user : Job → Option ℕ → Job
  without_user job none = job
  without_user job (some i) =
      let count = job.uri_count i - 1 in
      record job {
        uri_count = put job.uri_count i count;
        uri_list = if job.uri_count i == 1 then put job.uri_list i none else job.uri_list;
      }

  unfoldable pub job_return_lock : Job → Uri → Job
  job_return_lock job uri = without_user job (job_find_uri job uri)

  -- The unlock functions: `uri_lock[idx]` is what they unlock.
  abbrev pub with_index : Option ℕ → Job → Option (ℕ × Job)
  with_index none job = none
  with_index (some i) job = some (i, job)

  unfoldable pub job_unlock_uri : Job → Uri → Option (ℕ × Job)
  job_unlock_uri job uri = with_index (job_find_uri job uri) (job_return_lock job uri)
