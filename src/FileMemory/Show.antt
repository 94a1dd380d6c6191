-- ===== src/FileMemory/Show.antt =====
-- `execute_get` of Command-Line Memory/memory.c.
use mathlib.Core.List.{append_assoc, append-nil}
use c_lang_coding_projects.Prelude.{
  ℕ, zero, suc, ◌<◌, ◌≡◌, inl, inr, refl, sym, ap, ◌∙◌, List, [], ◌∷◌, ◌++◌, arith, length,
  length-append, some,
}
use c_lang_coding_projects.FileMemory.{
  moved, Channels, buffer_size, read_bytes, get_loop, execute_get, done, no_message,
}
use c_lang_coding_projects.FileMemory.Contract.{IsReliable}
use c_lang_coding_projects.FileMemory.Transfer.{Read, read_bytes_lem, write_bytes_lem}

module _ (c : Channels) (ok : IsReliable c) where
  open c use {Input, Output}
  open ok use {left, written}

  abbrev Shows : ℕ → Input → Output → Type 0
  Shows fuel s t =
      (s' : Input) × (t' : Output) × (get_loop c fuel s t ≡ done no_message s' t')
      × (written t' ≡ written t ++ left s)

  -- A round of the loop, with the rounds behind it.
  get_once :
      (fuel : ℕ) (s : Input) (t : Output)
      → ((s1 : Input) (t1 : Output) → length (left s1) < fuel → Shows fuel s1 t1)
      → length (left s) < suc fuel
      → (xs : List ℕ) (s1 : Input) → read_bytes c buffer_size s ≡ moved xs s1
      → Read c ok buffer_size s xs s1
      → Shows (suc fuel) s t
  unfolding get_loop
  get_once fuel s t again le [] s1 run r = (
    s1,
    t,
    rw run refl,
    sym (append-nil (written t))
        ∙ ap (λ l. written t ++ l)
            (sym (r.order ∙ (elim r.full [ inl n ↦ absurd (omega (arith, n)) | inr z ↦ z ]))),
  )
  get_once fuel s t again le (x ∷ xs) s1 run r =
      let (t1, run1, out) = write_bytes_lem c ok (x ∷ xs) t (omega arith) in
      let (s2, t2, run2, out2) =
        again s1 t1 (omega (arith, le, ap length r.order, length-append (x ∷ xs) (left s1))) in
      (
        s2,
        t2,
        rw (run, run1) run2,
        out2
            ∙ (ap (λ l. l ++ left s1) out
                ∙ (append_assoc (written t) (x ∷ xs) (left s1)
                    ∙ ap (λ l. written t ++ l) (sym r.order))),
      )

  get_loop_lem : (fuel : ℕ) (s : Input) (t : Output) → length (left s) < fuel → Shows fuel s t
  get_loop_lem zero s t le = absurd (omega (arith, le))
  get_loop_lem (suc fuel) s t le =
      let (xs, s1, run, r) = read_bytes_lem c ok buffer_size s (omega arith) in
      get_once fuel s t (λ s1 t1 l. get_loop_lem fuel s1 t1 l) le xs s1 run r

  -- Where the calls of read(2) and write(2) do not fail, and the file is open, `execute_get` ends
  -- within one round more than the file has bytes; it prints no message, and it writes to the output
  -- all bytes of the file, in order, however many of them each call moves.
  pub execute_get_lem :
      (fuel : ℕ) (s stdin : Input) (t : Output)
      → length (left s) < fuel
      → (s' : Input) × (t' : Output) × (execute_get c fuel (some s) stdin t ≡ done no_message s' t')
        × (written t' ≡ written t ++ left s)
  unfolding execute_get
  execute_get_lem fuel s stdin t le = get_loop_lem fuel s t le
