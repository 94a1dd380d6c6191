-- ===== src/FileMemory/Store.antt =====
-- `execute_set` of Command-Line Memory/memory.c.
use mathlib.Core.List.{append-nil}
use c_lang_coding_projects.Prelude.{
  ℕ, zero, suc, ◌+◌, ◌<◌, ◌≤◌, ◌≡◌, ◌⊎◌, inl, inr, refl, sym, Bool-cases, true, false, List, [],
  ◌∷◌, ◌++◌, arith, ◌==◌, length, length-take, take, some,
}
use c_lang_coding_projects.FileMemory.{
  Channels, buffer_size, amount_for, set_loop, execute_set, done, ok_message,
}
use c_lang_coding_projects.FileMemory.Contract.{IsReliable}
use c_lang_coding_projects.FileMemory.Transfer.{read_bytes_lem, write_bytes_lem}
use c_lang_coding_projects.FileMemory.WriteRound.{rounds, Filled, Stores, Again, write_once}
use c_lang_coding_projects.FileMemory.ReadRound.{fill_once}

module _ (c : Channels) (ok : IsReliable c) where
  open c use {Input, Output}
  open ok use {left, written}

  set_loop_step :
      (fuel n : ℕ) (xs : List ℕ) (i : ℕ) (s : Input) (t : Output)
      → Again c ok fuel
      → rounds n xs ≤ suc fuel
      → i + length xs ≤ buffer_size
      → Filled c ok n xs i s
      → (n == 0) ≡ false
      → Stores c ok (suc fuel) n xs i s t
  set_loop_step fuel n [] i s t again le bound filled e =
      let (ys, s1, run, r) = read_bytes_lem c ok (amount_for n) s (ground (arith, e)) in
      fill_once c ok fuel n i s t again (omega (arith, le)) e ys s1 run r
  set_loop_step fuel n (x ∷ xs) i s t again le bound filled e =
      let pos : 0 < length (take n (x ∷ xs)) = ground (arith, length-take n (x ∷ xs), e) in
      let (t1, run, out) = write_bytes_lem c ok (take n (x ∷ xs)) t pos in
      write_once c ok fuel n (x ∷ xs) (take n (x ∷ xs)) i s t again le bound filled refl pos t1 run
        out e

  set_loop_lem : (fuel : ℕ) → Again c ok fuel
  unfolding set_loop
  set_loop_lem zero n xs i s t le bound filled =
      let e : (n == 0) ≡ true = ground (arith, le) in
      let e0 : n ≡ 0 = omega (arith, le) in (s, t, rw e refl, rw e0 (sym (append-nil (written t))))
  set_loop_lem (suc fuel) n xs i s t le bound filled = elim (Bool-cases (n == 0)) [
    | inl e ↦
        let e0 : n ≡ 0 = ground (arith, e) in
        (s, t, rw e refl, rw e0 (sym (append-nil (written t))))
    | inr e ↦
        set_loop_step fuel n xs i s t (λ m ys j s1 t1 l b f. set_loop_lem fuel m ys j s1 t1 l b f)
          le bound filled e
  ]

  -- Where the calls of read(2) and write(2) do not fail, the file is open, and the buffer that is given
  -- is full or nothing is left to read, `execute_set` ends within `rounds` rounds; it prints OK, and
  -- it writes to the file the first `content_length` bytes of what stands in the buffer from
  -- `buf_index` on and of what is left behind it, in order, or all of them where they are fewer.
  pub execute_set_lem :
      (fuel content_length : ℕ) (xs : List ℕ) (buf_index : ℕ) (s : Input) (t closed : Output)
      → rounds content_length xs ≤ fuel
      → buf_index + length xs ≤ buffer_size
      → (buf_index + length xs ≡ buffer_size) ⊎ (left s ≡ [])
      → (s' : Input) × (t' : Output) × (execute_set c fuel
            (some t)
            xs
            buf_index
            content_length
            s
            closed
          ≡ done ok_message s' t')
        × (written t' ≡ written t ++ take content_length (xs ++ left s))
  unfolding execute_set
  execute_set_lem fuel n xs i s t closed le bound (inl full) =
      set_loop_lem fuel n xs i s t le bound (inl full)
  execute_set_lem fuel n xs i s t closed le bound (inr z) =
      set_loop_lem fuel n xs i s t le bound (inr (inl z))
