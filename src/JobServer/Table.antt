-- ===== src/JobServer/Table.antt =====
-- What the loops over the table of Multi-Threaded HTTP Server/httpserver.c find.
use c_lang_coding_projects.Prelude.{
  ℕ, zero, suc, ◌+◌, ◌<◌, ◌≤◌, ◌≡◌, ◌≢◌, ◌⊎◌, inl, inr, refl, ap, ◌∙◌, Bool, Bool-cases, true,
  false, Option, none, some, arith, ◌==◌,
}
use c_lang_coding_projects.JobServer.{Job, is_entry, find_from, job_find_uri, free_from}

-- `strcmp` tells texts apart.
pub record IsStrcmp {Uri : Type 0} (strcmp_eq : Uri → Uri → Bool) : Type 0 where
  pub same : (a b : Uri) → strcmp_eq a b ≡ true → a ≡ b
  pub self : (a : Uri) → strcmp_eq a a ≡ true

module _ {Uri : Type 0} {strcmp_eq : Uri → Uri → Bool} (cmp : IsStrcmp strcmp_eq)
    (job : Job Uri strcmp_eq) (uri : Uri) where
  abbrev Found : ℕ → ℕ → Option ℕ → Type 0
  Found lo hi o =
      ((k : ℕ) × (o ≡ some k) × (lo ≤ k) × (k < hi) × (job.uri_list k ≡ some uri))
      ⊎ ((o ≡ none) × ((k : ℕ) → lo ≤ k → k < hi → job.uri_list k ≢ some uri))

  entry-eq : (o : Option Uri) → is_entry Uri strcmp_eq o uri ≡ true → o ≡ some uri
  entry-eq none e = cc
  entry-eq (some v) e = ap (λ u. some u) (cmp.same v uri e)

  entry-ne : (o : Option Uri) → is_entry Uri strcmp_eq o uri ≡ false → o ≢ some uri
  entry-ne none e p = cc
  entry-ne (some v) e p = cc (p, cmp.self uri, e)

  find_from-Found :
      (rounds i hi : ℕ) → i + rounds ≡ hi → Found i hi (find_from Uri strcmp_eq rounds i job uri)
  unfolding find_from
  find_from-Found zero i hi e = inr (refl, λ k lo lt. absurd (omega (arith, e, lo, lt)))
  find_from-Found (suc rounds) i hi e =
      elim (Bool-cases (is_entry Uri strcmp_eq (job.uri_list i) uri)) [
        | inl here ↦ inl (i, rw here, omega arith, omega (arith, e), entry-eq (job.uri_list i) here)
        | inr other ↦ elim (find_from-Found rounds (i + 1) hi (omega (arith, e))) [
          | inl (k, run, lo, lt, at) ↦ inl (k, rw other run, omega (arith, lo), lt, at)
          | inr (run, nowhere) ↦ inr (
            rw other run,
            λ k lo lt. elim (Bool-cases (i == k)) [
              | inl d ↦
                  let p : i ≡ k = ground (arith, d) in
                  λ q. entry-ne (job.uri_list i) other (ap job.uri_list p ∙ q)
              | inr d ↦ nowhere k (ground (arith, d, lo)) lt
            ],
          )
        ]
      ]

  pub job_find_uri_cases :
      ((k : ℕ) × (job_find_uri Uri strcmp_eq job uri ≡ some k)
        × (k < job.num_threads)
        × (job.uri_list k ≡ some uri))
      ⊎ ((job_find_uri Uri strcmp_eq job uri ≡ none)
          × ((k : ℕ) → k < job.num_threads → job.uri_list k ≢ some uri))
  unfolding job_find_uri
  job_find_uri_cases = elim (find_from-Found job.num_threads 0 job.num_threads (omega arith)) [
    | inl (k, run, lo, lt, at) ↦ inl (k, run, lt, at)
    | inr (run, nowhere) ↦ inr (run, λ k lt. nowhere k (omega arith) lt)
  ]

  pub free_from_cases :
      (rounds i hi : ℕ)
      → i + rounds ≡ hi
      → ((k : ℕ) × (free_from Uri strcmp_eq rounds i job ≡ some k)
          × (k < hi)
          × (job.uri_count k ≡ 0))
        ⊎ ((free_from Uri strcmp_eq rounds i job ≡ none)
            × ((k : ℕ) → i ≤ k → k < hi → 0 < job.uri_count k))
  unfolding free_from
  free_from_cases zero i hi e = inr (refl, λ k lo lt. absurd (omega (arith, e, lo, lt)))
  free_from_cases (suc rounds) i hi e = elim (Bool-cases (job.uri_count i == 0)) [
    | inl here ↦ inl (i, rw here, omega (arith, e), ground (arith, here))
    | inr other ↦ elim (free_from_cases rounds (i + 1) hi (omega (arith, e))) [
      | inl (k, run, lt, at) ↦ inl (k, rw other run, lt, at)
      | inr (run, full) ↦ inr (
        rw other run,
        λ k lo lt. elim (Bool-cases (i == k)) [
          | inl d ↦ ground (arith, d, other)
          | inr d ↦ full k (ground (arith, d, lo)) lt
        ],
      )
    ]
  ]
