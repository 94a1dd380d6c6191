-- ===== src/FileMemory/ReadRound.antt =====
-- The rounds of the loop of `execute_set` (Command-Line Memory/memory.c) that read.
use mathlib.Core.List.{append-nil}
use c_lang_coding_projects.Prelude.{
  ℕ, suc, ◌*◌, ◌<◌, ◌≤◌, ◌≡◌, ◌⊎◌, inl, inr, refl, sym, ap, ◌∙◌, Bool-cases, true, false, List, [],
  ◌∷◌, ◌++◌, arith, ◌==◌, ltb, length, take, take_nil, take_of_length_le,
}
use c_lang_coding_projects.FileMemory.{
  Channels, buffer_size, moved, read_bytes, amount_for, set_loop, done, ok_message,
}
use c_lang_coding_projects.FileMemory.Contract.{IsReliable}
use c_lang_coding_projects.FileMemory.Transfer.{Read}
use c_lang_coding_projects.FileMemory.WriteRound.{Filled, Stores, Again}

module _ (c : Channels) (ok : IsReliable c) where
  open c use {Input, Output}
  open ok use {left, written}

  read_none :
      (fuel n i : ℕ) (s s1 : Input) (t : Output)
      → (n == 0) ≡ false
      → read_bytes c (amount_for n) s ≡ moved [] s1
      → set_loop c (suc fuel) n [] i s t ≡ done ok_message s1 t
  unfolding set_loop
  read_none fuel n i s s1 t some_left run = rw (some_left, take_nil n, run) refl

  read_last :
      (fuel n i : ℕ) (x : ℕ) (xs : List ℕ) (s s1 : Input) (t : Output)
      → (n == 0) ≡ false
      → read_bytes c (amount_for n) s ≡ moved (x ∷ xs) s1
      → ltb (length (x ∷ xs)) (amount_for n) ≡ true
      → set_loop c (suc fuel) n [] i s t ≡ set_loop c fuel (length (x ∷ xs)) (x ∷ xs) 0 s1 t
  unfolding set_loop
  read_last fuel n i x xs s s1 t some_left run test = rw (some_left, take_nil n, run, test) refl

  read_more :
      (fuel n i : ℕ) (x : ℕ) (xs : List ℕ) (s s1 : Input) (t : Output)
      → (n == 0) ≡ false
      → read_bytes c (amount_for n) s ≡ moved (x ∷ xs) s1
      → ltb (length (x ∷ xs)) (amount_for n) ≡ false
      → set_loop c (suc fuel) n [] i s t ≡ set_loop c fuel n (x ∷ xs) 0 s1 t
  unfolding set_loop
  read_more fuel n i x xs s s1 t some_left run test = rw (some_left, take_nil n, run, test) refl

  -- Where `m` bytes of what is left stand for the content, nothing is lost.
  same_content :
      (n m : ℕ) (s s1 : Input) (xs : List ℕ)
      → left s ≡ xs ++ left s1
      → m ≤ n
      → (m ≡ n) ⊎ ((left s1 ≡ []) × (length xs ≤ m))
      → take m (xs ++ left s1) ≡ take n (left s)
  same_content n m s s1 xs order le (inl e) = rw e (ap (λ l. take n l) (sym order))
  same_content n m s s1 xs order le (inr (z, long)) =
      let whole : left s ≡ xs = order ∙ (ap (λ l. xs ++ l) z ∙ append-nil xs) in
      rw (z, append-nil xs, whole)
        (take_of_length_le m xs long ∙ sym (take_of_length_le n xs (omega (arith, le, long))))

  -- A read that gives less than was asked for was the last.
  ended :
      {amount : ℕ} {s s1 : Input} {xs : List ℕ}
      → Read c ok amount s xs s1
      → length xs < amount
      → left s1 ≡ []
  ended r less = elim r.full [ inl n ↦ absurd (omega (arith, n, less)) | inr z ↦ z ]

  buffer-Filled :
      (n : ℕ) (xs : List ℕ) (s1 : Input) → length xs ≡ amount_for n → Filled c ok n xs 0 s1
  buffer-Filled n xs s1 e = elim (Bool-cases (ltb buffer_size n)) [
    | inl more ↦ inl (ground (arith, e, more))
    | inr fits ↦ inr (inr (ground (arith, e, fits)))
  ]

  -- A round that reads, with the rounds behind it.
  pub fill_once :
      (fuel n i : ℕ) (s : Input) (t : Output)
      → Again c ok fuel
      → 2 * n ≤ fuel
      → (n == 0) ≡ false
      → (xs : List ℕ) (s1 : Input) → read_bytes c (amount_for n) s ≡ moved xs s1
      → Read c ok (amount_for n) s xs s1
      → Stores c ok (suc fuel) n [] i s t
  fill_once fuel n i s t again le some_left [] s1 run r = (
    s1,
    t,
    read_none fuel n i s s1 t some_left run,
    sym (append-nil (written t))
        ∙ ap (λ l. written t ++ l)
            (sym (take_nil n)
              ∙ ap (λ l. take n l) (sym (r.order ∙ ended r (ground (arith, some_left))))),
  )
  fill_once fuel n i s t again le some_left (x ∷ xs) s1 run r =
      elim (Bool-cases (ltb (length (x ∷ xs)) (amount_for n))) [
        | inl short ↦
            let z : left s1 ≡ [] = ended r (ground (arith, short)) in
            let (s2, t2, run2, out2) =
              again (length (x ∷ xs)) (x ∷ xs) 0 s1 t (ground (arith, short, le))
                (ground (arith, short)) (inr (inl z)) in
            (
              s2,
              t2,
              read_last fuel n i x xs s s1 t some_left run short ∙ run2,
              out2
                  ∙ ap (λ l. written t ++ l)
                      (same_content n (length (x ∷ xs)) s s1 (x ∷ xs) r.order
                        (ground (arith, short)) (inr (z, omega arith))),
            )
        | inr long ↦
            let (s2, t2, run2, out2) =
              again n (x ∷ xs) 0 s1 t (omega (arith, le)) (ground (arith, r.bound))
                (buffer-Filled n (x ∷ xs) s1 (ground (arith, r.bound, long))) in
            (
              s2,
              t2,
              read_more fuel n i x xs s s1 t some_left run long ∙ run2,
              out2
                  ∙ ap (λ l. written t ++ l)
                      (same_content n n s s1 (x ∷ xs) r.order (omega arith) (inl refl)),
            )
      ]
