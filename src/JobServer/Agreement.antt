-- ===== src/JobServer/Agreement.antt =====
-- The locks that the worker threads of Multi-Threaded HTTP Server/httpserver.c take for URIs.
use mathlib.Core.Path.{subst}
use c_lang_coding_projects.Prelude.{
  ℕ, zero, suc, ◌+◌, ◌<◌, ◌≤◌, ◌≡◌, inl, inr, refl, sym, ap, ◌∙◌, Bool, Bool-cases, Option, none,
  some, arith, ◌==◌, ◌↔◌,
}
use c_lang_coding_projects.Arrays.{put, put_self, put_other}
use c_lang_coding_projects.Threads.{assign, count, count_pos}
use c_lang_coding_projects.JobServer.{
  Job, job_get_lock, job_unlock_uri, job_return_lock, without_user, job_find_uri,
}
use c_lang_coding_projects.JobServer.System.{
  Phase, idle, using, Act, takes, returns, System, pick, Reach, start, later,
}
use c_lang_coding_projects.JobServer.Table.{IsStrcmp, job_find_uri_cases, free_from_cases}
use c_lang_coding_projects.JobServer.Slots.{
  Inv, Inv-new, total, is_using, holds, taken-Inv, returned-Inv,
}

-- Counts above 0 add up to at least the number of slots.
total_full : (n : ℕ) (c : ℕ → ℕ) → ((i : ℕ) → i < n → 0 < c i) → n ≤ total n c
unfolding count
total_full zero c h = omega arith
total_full (suc n) c h =
    omega (arith, h n (omega arith), total_full n c (λ i lt. h i (omega (arith, lt))))

module _ {Uri : Type 0} {strcmp_eq : Uri → Uri → Bool} where
  using_one : (p : Phase Uri strcmp_eq) → is_using p ≤ 1
  using_one idle = omega arith
  using_one (using uri i) = omega arith

  using-le : (n : ℕ) (f : ℕ → Phase Uri strcmp_eq) → count is_using n f ≤ n
  unfolding count
  using-le zero f = omega arith
  using-le (suc n) f = omega (arith, using-le n f, using_one (f n))

  -- An idle thread uses no slot.
  using_less :
      (n : ℕ) (f : ℕ → Phase Uri strcmp_eq) (a : ℕ) → a < n → f a ≡ idle → count is_using n f < n
  unfolding count
  using_less zero f a lt e = elim lt [ ]
  using_less (suc n) f a lt e = elim (Bool-cases (a == n)) [
    | inl d ↦
        let p : a ≡ n = ground (arith, d) in
        let z : is_using (f n) ≡ 0 = ap is_using (ap f (sym p) ∙ e) in
        omega (arith, z, using-le n f)
    | inr d ↦ omega (arith, using_less n f a (ground (arith, d, lt)) e, using_one (f n))
  ]

  module _ (cmp : IsStrcmp strcmp_eq) {n : ℕ} {job : Job Uri strcmp_eq}
      {f : ℕ → Phase Uri strcmp_eq} (inv : Inv n job f) (a : ℕ) (uri : Uri) (la : a < n) where
    abbrev Takes : Type 0
    Takes =
        (k : ℕ) × (job' : Job Uri strcmp_eq) × (job_get_lock Uri strcmp_eq job uri ≡ some (k, job'))
        × (k < n)
        × Inv n job' (assign f a (using uri k))

    in_table : (k : ℕ) → k < job.num_threads → k < n
    in_table k lt = omega (arith, lt, inv.threads)

    same_entry : (v : Uri) (k : ℕ) → job.uri_list k ≡ some v → job.uri_list k ≡ some uri → v ≡ uri
    same_entry v k e d = cc

    pub get_lock_run : f a ≡ idle → Takes
    unfolding job_get_lock
    get_lock_run rest = elim (job_find_uri_cases cmp job uri) [
      | inl (k, run, lt, at) ↦
          let lk = in_table k lt in
          (
            k,
            record job { uri_count = put job.uri_count k (job.uri_count k + 1) },
            rw run,
            lk,
            taken-Inv inv a k uri la lk rest job.uri_list at (λ j ne. refl)
                (λ j lj ne d. ne (inv.unique k j uri lk lj at d))
                (λ b v lb e. same_entry v k (inv.held b v k lb e).1 at),
          )
      | inr (run, nowhere) ↦
          elim (free_from_cases cmp job uri job.num_threads 0 job.num_threads (omega arith)) [
            | inl (k, run', lt, unused) ↦
                let lk = in_table k lt in
                (
                  k,
                  record job {
                    uri_list = put job.uri_list k (some uri);
                    uri_count = put job.uri_count k (job.uri_count k + 1);
                  },
                  rw (run, run'),
                  lk,
                  taken-Inv inv a k uri la lk rest (put job.uri_list k (some uri))
                      (put_self job.uri_list k (some uri))
                      (λ j ne. put_other job.uri_list k (some uri) j ne)
                      (λ j lj ne. nowhere j (omega (arith, lj, inv.threads)))
                      (λ b v lb e.
                        let one : holds k (f b) ≡ 1 = ap (holds k) e ∙ ground arith in
                        absurd (
                          omega
                            (arith, one, count_pos (holds k) n f b lb, inv.counted k lk, unused))),
                )
            | inr (run', full) ↦ absurd (
                omega (
                  arith,
                  using_less n f a la rest,
                  inv.sum,
                  total_full n job.uri_count
                      (λ i lt. full i (omega arith) (omega (arith, lt, inv.threads))),
                ))
          ]
    ]

    -- The unlock functions find the slot that the thread holds.
    pub unlock_run :
        (i : ℕ)
        → f a ≡ using uri i
        → (job_unlock_uri Uri strcmp_eq job uri ≡ some (i, without_user Uri strcmp_eq job (some i)))
          × Inv n (without_user Uri strcmp_eq job (some i)) (assign f a idle)
    unfolding job_unlock_uri job_return_lock
    unlock_run i user =
        let (li, at) = inv.held a uri i la user in
        elim (job_find_uri_cases cmp job uri) [
          | inl (k, run, lt, at') ↦
              let p : k ≡ i = inv.unique k i uri (in_table k lt) li at' at in
              let run' : job_find_uri Uri strcmp_eq job uri ≡ some i = run ∙ ap (λ z. some z) p in
              (rw run', returned-Inv inv a i uri la li user)
          | inr (run, nowhere) ↦ absurd (nowhere i (omega (arith, li, inv.threads)) at)
        ]

module _ {Uri : Type 0} {strcmp_eq : Uri → Uri → Bool} (cmp : IsStrcmp strcmp_eq) where
  abbrev first_of : {A B : Type 0} → A → Option (A × B) → A
  first_of d none = d
  first_of d (some (x, y)) = x

  abbrev second_of : {A B : Type 0} → B → Option (A × B) → B
  second_of d none = d
  second_of d (some (x, y)) = y

  Act-Inv :
      {n : ℕ} {job job' : Job Uri strcmp_eq} {f : ℕ → Phase Uri strcmp_eq}
      {p q : Phase Uri strcmp_eq} (a : ℕ)
      → Inv n job f
      → a < n
      → f a ≡ p
      → Act Uri strcmp_eq job p job' q
      → Inv n job' (assign f a q)
  Act-Inv {n} {job} {f = f} a inv la e (takes uri i job' run) =
      let (k, made, run', lk, inv') = get_lock_run cmp inv a uri la e in
      let same : ◌≡◌ {A = Option (ℕ × Job Uri strcmp_eq)} (some (k, made)) (some (i, job')) =
        sym run' ∙ run in
      let slot : k ≡ i = ap (first_of k) same in
      let table : made ≡ job' = ap (second_of made) same in
      subst (λ j. Inv n job' (assign f a (using uri j))) slot
        (subst (λ t. Inv n t (assign f a (using uri k))) table inv')
  Act-Inv {n} {job} {f = f} a inv la e (returns {uri} {i} k job' run) =
      let (run', inv') = unlock_run cmp inv a uri la i e in
      let same = sym run' ∙ run in
      subst (λ t. Inv n t (assign f a idle))
        (ap (second_of (without_user Uri strcmp_eq job (some i))) same) inv'

  Reach-Inv : {n : ℕ} {s : System Uri strcmp_eq} → Reach Uri strcmp_eq n s → Inv n s.job s.phase
  Reach-Inv {n} start = Inv-new n
  Reach-Inv (later {s} r (pick a la act)) = Act-Inv a (Reach-Inv r) la refl act

  -- In every state that `n` threads reach from `job_new(n)`, `job_get_lock` for a thread that uses no
  -- lock finds a slot: it never counts at the index -1, and the slot is one of the `n`.
  pub get_lock_lem :
      {n : ℕ} {s : System Uri strcmp_eq}
      → Reach Uri strcmp_eq n s
      → (a : ℕ) (uri : Uri) → a < n
      → s.phase a ≡ idle
      → (k : ℕ) × (job' : Job Uri strcmp_eq) × (job_get_lock Uri strcmp_eq s.job uri
          ≡ some (k, job'))
        × (k < n)
  get_lock_lem r a uri la e =
      let (k, job', run, lk, inv) = get_lock_run cmp (Reach-Inv r) a uri la e in (k, job', run, lk)

  -- In every such state, two threads use the same lock exactly if they use it for the same URI, and
  -- the unlock function of a thread's URI unlocks the lock that the thread took.
  pub agreement_lem :
      {n : ℕ} {s : System Uri strcmp_eq}
      → Reach Uri strcmp_eq n s
      → (a b : ℕ) (u v : Uri) (i j : ℕ) → a < n
      → b < n
      → s.phase a ≡ using u i
      → s.phase b ≡ using v j
      → ((i ≡ j) ↔ (u ≡ v))
        × ((job' : Job Uri strcmp_eq) × (job_unlock_uri Uri strcmp_eq s.job u ≡ some (i, job')))
  agreement_lem {n} {s} r a b u v i j la lb e d =
      let inv = Reach-Inv r in
      let (li, at) = inv.held a u i la e in
      let (lj, at') = inv.held b v j lb d in
      (
        (λ p. same_uri u v i j at at' p, λ p. inv.unique i j v li lj (at ∙ ap (λ z. some z) p) at'),
        (_, (unlock_run cmp inv a u la i e).0),
      )
    where
      same_uri :
          (u v : Uri) (i j : ℕ)
          → s.job.uri_list i ≡ some u
          → s.job.uri_list j ≡ some v
          → i ≡ j
          → u ≡ v
      same_uri u v i j x y p = cc (x, y, ap s.job.uri_list p)
