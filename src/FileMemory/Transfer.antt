-- ===== src/FileMemory/Transfer.antt =====
-- `read_bytes` and `write_bytes` of Command-Line Memory/memory.c.
use mathlib.Core.List.{append_assoc, append-nil}
use c_lang_coding_projects.Prelude.{
  ℕ, zero, suc, ◌-◌, ◌<◌, ◌≤◌, ◌≡◌, ◌⊎◌, inl, inr, refl, sym, ap, ◌∙◌, Bool-cases, true, false,
  List, [], ◌∷◌, ◌++◌, arith, ◌==◌, length, length-append, length-drop, take, drop,
  take-append-drop,
}
use c_lang_coding_projects.FileMemory.{
  Channels, received, moved, read_loop, read_bytes, write_loop, write_bytes,
}
use c_lang_coding_projects.FileMemory.Contract.{IsReliable}

nil_of_length : (xs : List ℕ) → length xs ≡ 0 → xs ≡ []
nil_of_length [] e = refl
nil_of_length (x ∷ xs) e = absurd (omega (arith, e))

module _ (c : Channels) (ok : IsReliable c) where
  open c use {Input, Output, read, write}
  open ok use {left, written, read_law, write_law}

  -- Up to `amount` bytes come from `s`, and fewer only at its end.
  pub record Read (amount : ℕ) (s : Input) (xs : List ℕ) (s' : Input) : Type 0 where
    pub order : left s ≡ xs ++ left s'
    pub bound : length xs ≤ amount
    pub full : (length xs ≡ amount) ⊎ (left s' ≡ [])

  abbrev Reads : ℕ → ℕ → List ℕ → Input → Type 0
  Reads fuel amount acc s =
      (xs : List ℕ) × (s' : Input) × (read_loop c fuel amount acc s ≡ moved (acc ++ xs) s')
      × Read amount s xs s'

  -- A round in which bytes came, or none, with the rounds behind it.
  read_once :
      (fuel amount : ℕ) (acc : List ℕ) (s : Input)
      → ((amount' : ℕ) (acc' : List ℕ) (s1 : Input) → amount' ≤ fuel → Reads fuel amount' acc' s1)
      → amount ≤ suc fuel
      → (ys : List ℕ) (s1 : Input) → read s amount ≡ (received ys, s1)
      → left s ≡ ys ++ left s1
      → length ys ≤ amount
      → (length ys ≡ 0 → left s ≡ [])
      → (amount == 0) ≡ false
      → Reads (suc fuel) amount acc s
  unfolding read_loop
  read_once fuel amount acc s again le [] s1 run order bound end e = (
    [],
    s1,
    rw (e, run) (ap (λ l. moved l s1) (sym (append-nil acc))),
    record { order = order; bound = omega arith; full = inr (sym order ∙ end refl) },
  )
  read_once fuel amount acc s again le (y ∷ ys) s1 run order bound end e =
      let (zs, s2, run', r) =
        again (amount - length (y ∷ ys)) (acc ++ y ∷ ys) s1 (omega (arith, le)) in
      (
        (y ∷ ys) ++ zs,
        s2,
        rw (e, run) (run' ∙ ap (λ l. moved l s2) (append_assoc acc (y ∷ ys) zs)),
        record {
          order =
              order ∙ (ap (λ l. (y ∷ ys) ++ l) r.order ∙ sym (append_assoc (y ∷ ys) zs (left s2)));
          bound = omega (arith, r.bound, bound, length-append (y ∷ ys) zs);
          full = elim r.full [
            | inl n ↦ inl (omega (arith, n, bound, length-append (y ∷ ys) zs))
            | inr z ↦ inr z
          ];
        },
      )

  read_loop_lem :
      (fuel amount : ℕ) (acc : List ℕ) (s : Input) → amount ≤ fuel → Reads fuel amount acc s
  unfolding read_loop
  read_loop_lem zero amount acc s le =
      let none_left : (amount == 0) ≡ true = ground arith in
      (
        [],
        s,
        rw none_left (ap (λ l. moved l s) (sym (append-nil acc))),
        record { order = refl; bound = omega arith; full = inl (omega (arith, le)) },
      )
  read_loop_lem (suc fuel) amount acc s le = elim (Bool-cases (amount == 0)) [
    | inl e ↦ (
      [],
      s,
      rw e (ap (λ l. moved l s) (sym (append-nil acc))),
      record { order = refl; bound = omega arith; full = inl (ground (arith, e)) },
    )
    | inr e ↦
        let (ys, s1, run, order, bound, end) = read_law s amount (ground (arith, e)) in
        read_once fuel amount acc s (λ n bs s2 l. read_loop_lem fuel n bs s2 l) le ys s1 run order
          bound end e
  ]

  -- `read_bytes` of at least one byte returns what comes next, in order: as many bytes as were asked
  -- for, or all that are left.
  pub read_bytes_lem :
      (amount : ℕ) (s : Input)
      → 0 < amount
      → (xs : List ℕ) × (s' : Input) × (read_bytes c amount s ≡ moved xs s') × Read amount s xs s'
  unfolding read_bytes
  read_bytes_lem amount s pos =
      let some_amount : (amount == 0) ≡ false = ground (arith, pos) in
      rw some_amount (read_loop_lem amount amount [] s (omega arith))

  write_loop_lem :
      (fuel : ℕ) (all xs : List ℕ) (t : Output)
      → length xs ≤ fuel
      → (t' : Output) × (write_loop c fuel all xs t ≡ moved all t') × (written t' ≡ written t ++ xs)
  unfolding write_loop
  write_loop_lem zero all xs t le =
      let e : (length xs == 0) ≡ true = ground (arith, le) in
      (
        t,
        rw e,
        sym (append-nil (written t))
            ∙ ap (λ l. written t ++ l) (sym (nil_of_length xs (omega (arith, le)))),
      )
  write_loop_lem (suc fuel) all xs t le = elim (Bool-cases (length xs == 0)) [
    | inl e ↦ (
      t,
      rw e,
      sym (append-nil (written t))
          ∙ ap (λ l. written t ++ l) (sym (nil_of_length xs (ground (arith, e)))),
    )
    | inr e ↦
        let (k, t1, run, pos, le', out) = write_law t xs (ground (arith, e)) in
        let (t2, run', out') =
          write_loop_lem fuel all (drop k xs) t1 (omega (arith, le, pos, length-drop k xs)) in
        (
          t2,
          rw (e, run) run',
          out'
              ∙ (ap (λ l. l ++ drop k xs) out
                  ∙ (append_assoc (written t) (take k xs) (drop k xs)
                      ∙ ap (λ l. written t ++ l) (take-append-drop k xs))),
        )
  ]

  -- `write_bytes` of at least one byte returns and writes all its bytes, in order.
  pub write_bytes_lem :
      (xs : List ℕ) (t : Output)
      → 0 < length xs
      → (t' : Output) × (write_bytes c xs t ≡ moved xs t') × (written t' ≡ written t ++ xs)
  unfolding write_bytes
  write_bytes_lem xs t pos =
      let some_bytes : (length xs == 0) ≡ false = ground (arith, pos) in
      rw some_bytes (write_loop_lem (length xs) xs xs t (omega arith))
