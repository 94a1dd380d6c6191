-- ===== src/FileMemory/WriteRound.antt =====
-- The rounds of the loop of `execute_set` (Command-Line Memory/memory.c) that write.
use mathlib.Core.Path.{ap₂}
use mathlib.Core.List.{append_assoc, append-nil}
use Prim.Native.Nat.{min}
use c_lang_coding_projects.Prelude.{
  ℕ, suc, ◌+◌, ◌-◌, ◌*◌, ◌<◌, ◌≤◌, ◌≡◌, ◌⊎◌, inl, inr, refl, sym, ap, ◌∙◌, Bool-cases, true, false,
  List, [], ◌∷◌, ◌++◌, arith, ◌==◌, ltb, length, length-take, take, take_nil, take-append,
}
use c_lang_coding_projects.FileMemory.{
  Channels, buffer_size, moved, write_bytes, set_loop, done, ok_message,
}
use c_lang_coding_projects.FileMemory.Contract.{IsReliable}

-- More rounds than `execute_set` makes.
abbrev pub rounds : ℕ → List ℕ → ℕ
rounds content_length xs = 2 * content_length + (1 - length xs)

module _ (c : Channels) (ok : IsReliable c) where
  open c use {Input, Output}
  open ok use {left, written}

  -- The buffer is full, or nothing is left to read, or the content stands in it whole.
  abbrev pub Filled : ℕ → List ℕ → ℕ → Input → Type 0
  Filled content_length xs buf_index s =
      (buf_index + length xs ≡ buffer_size) ⊎ ((left s ≡ []) ⊎ (content_length ≤ length xs))

  abbrev pub Stores : ℕ → ℕ → List ℕ → ℕ → Input → Output → Type 0
  Stores fuel n xs i s t =
      (s' : Input) × (t' : Output) × (set_loop c fuel n xs i s t ≡ done ok_message s' t')
      × (written t' ≡ written t ++ take n (xs ++ left s))

  abbrev pub Again : ℕ → Type 0
  Again fuel =
      (n : ℕ) (xs : List ℕ) (i : ℕ) (s : Input) (t : Output)
      → rounds n xs ≤ fuel
      → i + length xs ≤ buffer_size
      → Filled n xs i s
      → Stores fuel n xs i s t

  -- Behind what is written of `xs`, nothing more is to come where the buffer is not full.
  take_short :
      (n : ℕ) (xs : List ℕ) (i : ℕ) (s : Input)
      → Filled n xs i s
      → i + min n (length xs) < buffer_size
      → take (n - length xs) (left s) ≡ []
  take_short n xs i s (inl full) less =
      let e : n - length xs ≡ 0 = omega (arith, full, less) in rw e refl
  take_short n xs i s (inr (inl z)) less = rw z (take_nil (n - length xs))
  take_short n xs i s (inr (inr le)) less =
      let e : n - length xs ≡ 0 = omega (arith, le) in rw e refl

  write_last :
      (fuel n : ℕ) (xs ys : List ℕ) (i : ℕ) (s : Input) (t t1 : Output)
      → (n == 0) ≡ false
      → ys ≡ take n xs
      → 0 < length ys
      → write_bytes c ys t ≡ moved ys t1
      → ltb (length ys) (buffer_size - i) ≡ true
      → set_loop c (suc fuel) n xs i s t ≡ set_loop c fuel 0 ys i s t1
  unfolding set_loop
  write_last fuel n xs [] i s t t1 some_left e pos run test = absurd (omega (arith, pos))
  write_last fuel n xs (y ∷ ys) i s t t1 some_left e pos run test =
      rw (some_left, sym e, run, test) refl

  write_more :
      (fuel n : ℕ) (xs ys : List ℕ) (i : ℕ) (s : Input) (t t1 : Output)
      → (n == 0) ≡ false
      → ys ≡ take n xs
      → 0 < length ys
      → write_bytes c ys t ≡ moved ys t1
      → ltb (length ys) (buffer_size - i) ≡ false
      → set_loop c (suc fuel) n xs i s t ≡ set_loop c fuel (n - length ys) [] (i + length ys) s t1
  unfolding set_loop
  write_more fuel n xs [] i s t t1 some_left e pos run test = absurd (omega (arith, pos))
  write_more fuel n xs (y ∷ ys) i s t t1 some_left e pos run test =
      rw (some_left, sym e, run, test) refl

  -- A round that writes `ys`, with the rounds behind it.
  pub write_once :
      (fuel n : ℕ) (xs ys : List ℕ) (i : ℕ) (s : Input) (t : Output)
      → Again fuel
      → rounds n xs ≤ suc fuel
      → i + length xs ≤ buffer_size
      → Filled n xs i s
      → ys ≡ take n xs
      → 0 < length ys
      → (t1 : Output) → write_bytes c ys t ≡ moved ys t1
      → written t1 ≡ written t ++ ys
      → (n == 0) ≡ false
      → Stores (suc fuel) n xs i s t
  write_once fuel n xs ys i s t again le bound filled e pos t1 run out some_left =
      let k : length ys ≡ min n (length xs) = ap length e ∙ length-take n xs in
      elim (Bool-cases (ltb (length ys) (buffer_size - i))) [
        | inl short ↦
            let (s2, t2, run2, out2) =
              again 0 ys i s t1 (omega (arith, k)) (omega (arith, k, bound))
                (inr (inr (omega arith))) in
            let e2 : written t2 ≡ written t ++ ys ++ [] = out2 ∙ ap (λ l. l ++ []) out in
            let e3 : take (n - length xs) (left s) ≡ [] =
              take_short n xs i s filled (ground (arith, short, k)) in
            (
              s2,
              t2,
              write_last fuel n xs ys i s t t1 some_left e pos run short ∙ run2,
              e2
                  ∙ (append-nil (written t ++ ys)
                      ∙ ap (λ l. written t ++ l)
                          (sym (append-nil ys)
                            ∙ (ap₂ (λ l r. l ++ r) e (sym e3) ∙ sym (take-append n xs (left s))))),
            )
        | inr long ↦
            let (s2, t2, run2, out2) =
              again (n - length ys) [] (i + length ys) s t1 (omega (arith, k, le, pos))
                (omega (arith, k, bound)) (inl (ground (arith, long, k, bound))) in
            let e3 : n - length ys ≡ n - length xs = omega (arith, k) in
            (
              s2,
              t2,
              write_more fuel n xs ys i s t t1 some_left e pos run long ∙ run2,
              out2
                  ∙ (ap₂ (λ l r. l ++ take r (left s)) out e3
                      ∙ (append_assoc (written t) ys (take (n - length xs) (left s))
                          ∙ ap (λ l. written t ++ l)
                              (ap (λ l. l ++ take (n - length xs) (left s)) e
                                ∙ sym (take-append n xs (left s))))),
            )
      ]
