-- ===== src/JobServer/Slots.antt =====
-- What holds between the table of Multi-Threaded HTTP Server/httpserver.c and its users.
use mathlib.Core.Path.{subst}
use c_lang_coding_projects.Prelude.{
  ℕ, ◌+◌, ◌-◌, ◌<◌, ◌≡◌, ◌≢◌, ◌⊎◌, inl, inr, refl, sym, ap, ◌∙◌, Bool, Bool-cases, Option, none,
  some, arith, ◌==◌, if◌then◌else◌,
}
use c_lang_coding_projects.Arrays.{put}
use c_lang_coding_projects.Threads.{assign, count, count-assign, count_pos, count_none}
use c_lang_coding_projects.JobServer.{Job, job_new, without_user}
use c_lang_coding_projects.JobServer.System.{Phase, idle, using}

-- The sum of the first `n` counts.
abbrev pub total : ℕ → (ℕ → ℕ) → ℕ
total n c = count (λ x. x) n c

put-assign : (c : ℕ → ℕ) (i x : ℕ) → put c i x ≡ assign c i x
unfolding put assign
put-assign c i x = refl

total-put : (n : ℕ) (c : ℕ → ℕ) (i x : ℕ) → i < n → total n (put c i x) + c i ≡ total n c + x
total-put n c i x lt =
    subst (λ d. total n d + c i ≡ total n c + x) (sym (put-assign c i x))
      (count-assign (λ y. y) n c i x lt)

put_at : (c : ℕ → ℕ) (i x j : ℕ) → put c i x j ≡ (if i == j then x else c j)
unfolding put
put_at c i x j = refl

same_or_other : (i j : ℕ) → (i ≡ j) ⊎ (i ≢ j)
same_or_other i j = elim (Bool-cases (i == j)) [
  | inl e ↦ inl (ground (arith, e))
  | inr e ↦ inr (λ p. ground (arith, e, p))
]

module _ {Uri : Type 0} {strcmp_eq : Uri → Uri → Bool} where
  abbrev pub holds : ℕ → Phase Uri strcmp_eq → ℕ
  holds i idle = 0
  holds i (using uri j) = if j == i then 1 else 0

  abbrev pub is_using : Phase Uri strcmp_eq → ℕ
  is_using idle = 0
  is_using (using uri j) = 1

  -- A slot's count is the number of threads that hold it; a thread's slot has its URI; a slot with a
  -- URI has users; no two slots have one URI; the counts add up to the number of threads that use one.
  pub record Inv (n : ℕ) (job : Job Uri strcmp_eq) (f : ℕ → Phase Uri strcmp_eq) : Type 0 where
    pub threads : job.num_threads ≡ n
    pub counted : (i : ℕ) → i < n → job.uri_count i ≡ count (holds i) n f
    pub held :
        (a : ℕ) (uri : Uri) (i : ℕ)
        → a < n
        → f a ≡ using uri i
        → (i < n) × (job.uri_list i ≡ some uri)
    pub named : (i : ℕ) (uri : Uri) → i < n → job.uri_list i ≡ some uri → 0 < job.uri_count i
    pub unique :
        (i j : ℕ) (uri : Uri)
        → i < n
        → j < n
        → job.uri_list i ≡ some uri
        → job.uri_list j ≡ some uri
        → i ≡ j
    pub sum : total n job.uri_count ≡ count is_using n f

  pub Inv-new : (n : ℕ) → Inv n (job_new Uri strcmp_eq n) (λ a. idle)
  unfolding job_new
  Inv-new n = record {
    threads = refl;
    counted = λ i lt. sym (count_none (holds i) n idle refl);
    held = λ a uri i lt e. cc;
    named = λ i uri lt e. cc;
    unique = λ i j uri li lj e d. cc;
    sum = count_none (λ x. x) n 0 refl ∙ sym (count_none is_using n idle refl);
  }

  module _ {n : ℕ} {job : Job Uri strcmp_eq} {f : ℕ → Phase Uri strcmp_eq} (inv : Inv n job f)
      (a k : ℕ) (uri : Uri) (la : a < n) (lk : k < n) where
    module _ (rest : f a ≡ idle) (l : ℕ → Option Uri) (here : l k ≡ some uri)
        (others : (j : ℕ) → k ≢ j → l j ≡ job.uri_list j)
        (alone : (j : ℕ) → j < n → k ≢ j → job.uri_list j ≢ some uri)
        (sharers : (b : ℕ) (v : Uri) → b < n → f b ≡ using v k → v ≡ uri) where
      taken : Job Uri strcmp_eq
      taken = record job { uri_list = l; uri_count = put job.uri_count k (job.uri_count k + 1) }

      f' : ℕ → Phase Uri strcmp_eq
      f' = assign f a (using uri k)

      moved : (w : Phase Uri strcmp_eq → ℕ) → count w n f' + w idle ≡ count w n f + w (using uri k)
      unfolding f'
      moved w =
          subst (λ p. count w n (assign f a (using uri k)) + w p ≡ count w n f + w (using uri k))
            rest (count-assign w n f a (using uri k) la)

      here_phase : f' a ≡ using uri k
      unfolding f' assign
      here_phase = ground arith

      other_phase : (b : ℕ) → a ≢ b → f' b ≡ f b
      unfolding f' assign
      other_phase b ne = ground (arith, ne)

      named_then :
          (j : ℕ) (v : Uri) → j < n → l j ≡ some v → 0 < put job.uri_count k (job.uri_count k + 1) j
      named_then j v lj e = elim (same_or_other k j) [
        | inl p ↦ ground (arith, put_at job.uri_count k (job.uri_count k + 1) j, p)
        | inr ne ↦ ground (
          arith,
          put_at job.uri_count k (job.uri_count k + 1) j,
          ne,
          inv.named j v lj (sym (others j ne) ∙ e),
        )
      ]

      held_then : (b : ℕ) (v : Uri) (j : ℕ) → b < n → f' b ≡ using v j → (j < n) × (l j ≡ some v)
      held_then b v j lb e = elim (same_or_other a b) [
        | inl p ↦
            let e' : using uri k ≡ using v j = sym here_phase ∙ (ap f' p ∙ e) in
            let slot : k ≡ j = cc in
            let name : uri ≡ v = cc in
            (subst (λ z. z < n) slot lk, ap l (sym slot) ∙ (here ∙ ap (λ z. some z) name))
        | inr ne ↦
            let (lj, at) = inv.held b v j lb (sym (other_phase b ne) ∙ e) in
            (
              lj,
              elim (same_or_other k j) [
                | inl p ↦
                    let same =
                      sharers b v lb (sym (other_phase b ne) ∙ (e ∙ ap (λ z. using v z) (sym p))) in
                    ap l (sym p) ∙ (here ∙ ap (λ z. some z) (sym same))
                | inr other ↦ others j other ∙ at
              ],
            )
      ]

      unique_then : (i j : ℕ) (v : Uri) → i < n → j < n → l i ≡ some v → l j ≡ some v → i ≡ j
      unique_then i j v li lj e d = elim (same_or_other k i) [
        | inl p ↦ elim (same_or_other k j) [
          | inl q ↦ sym p ∙ q
          | inr ne ↦
              absurd (alone j lj ne (sym (others j ne) ∙ (d ∙ (sym e ∙ (ap l (sym p) ∙ here)))))
        ]
        | inr ni ↦ elim (same_or_other k j) [
          | inl q ↦
              absurd (alone i li ni (sym (others i ni) ∙ (e ∙ (sym d ∙ (ap l (sym q) ∙ here)))))
          | inr nj ↦ inv.unique i j v li lj (sym (others i ni) ∙ e) (sym (others j nj) ∙ d)
        ]
      ]

      pub taken-Inv :
          Inv n
            (record job { uri_list = l; uri_count = put job.uri_count k (job.uri_count k + 1) })
            (assign f a (using uri k))
      unfolding f'
      taken-Inv = record {
        threads = inv.threads;
        counted = λ j lj. ground (
          arith,
          put_at job.uri_count k (job.uri_count k + 1) j,
          moved (holds j),
          inv.counted j lj,
        );
        held = held_then;
        named = named_then;
        unique = unique_then;
        sum =
            omega (
              arith,
              total-put n job.uri_count k (job.uri_count k + 1) lk,
              moved is_using,
              inv.sum,
            );
      }

    module _ (user : f a ≡ using uri k) where
      pos : 0 < job.uri_count k
      pos = inv.named k uri lk (inv.held a uri k la user).1

      -- The slot when thread `a` gives it back.
      left : ℕ
      left = job.uri_count k - 1

      l' : ℕ → Option Uri
      l' = if job.uri_count k == 1 then put job.uri_list k none else job.uri_list

      c' : ℕ → ℕ
      c' = put job.uri_count k left

      g' : ℕ → Phase Uri strcmp_eq
      g' = assign f a idle

      gone : (w : Phase Uri strcmp_eq → ℕ) → count w n g' + w (using uri k) ≡ count w n f + w idle
      unfolding g'
      gone w =
          subst (λ p. count w n (assign f a idle) + w p ≡ count w n f + w idle) user
            (count-assign w n f a idle la)

      idle_then : g' a ≡ idle
      unfolding g' assign
      idle_then = ground arith

      stays : (b : ℕ) → a ≢ b → g' b ≡ f b
      unfolding g' assign
      stays b ne = ground (arith, ne)

      -- The list keeps each entry, but that of a slot without users.
      kept_entry : (j : ℕ) (v : Uri) → l' j ≡ some v → job.uri_list j ≡ some v
      unfolding l' left put
      kept_entry j v e = ground (arith, e)

      other_entry : (j : ℕ) → (k ≢ j) ⊎ (0 < left) → l' j ≡ job.uri_list j
      unfolding l' left put
      other_entry j (inl ne) = ground (arith, ne)
      other_entry j (inr more) = ground (arith, more, pos)

      empty_entry : left ≡ 0 → l' k ≡ none
      unfolding l' left put
      empty_entry e = ground (arith, e, pos)

      counted_then : (j : ℕ) → j < n → c' j ≡ count (holds j) n g'
      unfolding c' left
      counted_then j lj = ground (
        arith,
        put_at job.uri_count k (job.uri_count k - 1) j,
        gone (holds j),
        inv.counted j lj,
        pos,
      )

      named_left : (j : ℕ) (v : Uri) → j < n → l' j ≡ some v → 0 < c' j
      unfolding c'
      named_left j v lj e = elim (same_or_other k j) [
        | inl p ↦ elim (Bool-cases (left == 0)) [
          | inl z ↦ cc (empty_entry (ground (arith, z)), ap l' p ∙ e)
          | inr z ↦ ground (arith, z, p, put_at job.uri_count k left j)
        ]
        | inr ne ↦
            ground (arith, put_at job.uri_count k left j, ne, inv.named j v lj (kept_entry j v e))
      ]

      held_left : (b : ℕ) (v : Uri) (j : ℕ) → b < n → g' b ≡ using v j → (j < n) × (l' j ≡ some v)
      unfolding c' left
      held_left b v j lb e = elim (same_or_other a b) [
        | inl p ↦ cc (sym idle_then ∙ (ap g' p ∙ e))
        | inr ne ↦
            let (lj, at) = inv.held b v j lb (sym (stays b ne) ∙ e) in
            let one : holds j (g' b) ≡ 1 = ap (holds j) e ∙ ground arith in
            let more : (k ≢ j) ⊎ (0 < left) = elim (same_or_other k j) [
              | inl p ↦ inr (
                  ground (
                    arith,
                    p,
                    counted_then j lj,
                    count_pos (holds j) n g' b lb,
                    one,
                    put_at job.uri_count k (job.uri_count k - 1) j,
                  ))
              | inr other ↦ inl other
            ] in
            (lj, other_entry j more ∙ at)
      ]

      pub returned-Inv : Inv n (without_user Uri strcmp_eq job (some k)) (assign f a idle)
      unfolding g' c' l' left
      returned-Inv = record {
        threads = inv.threads;
        counted = counted_then;
        held = held_left;
        named = named_left;
        unique = λ i j v li lj e d. inv.unique i j v li lj (kept_entry i v e) (kept_entry j v d);
        sum = omega (
          arith,
          total-put n job.uri_count k (job.uri_count k - 1) lk,
          gone is_using,
          inv.sum,
          pos,
        );
      }
