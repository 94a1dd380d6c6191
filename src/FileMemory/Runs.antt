-- ===== src/FileMemory/Runs.antt =====
-- Whole runs of `main` of Command-Line Memory/memory.c.
use mathlib.Core.Path.{ap₂, subst}
use mathlib.Core.List.{append-nil}
use c_lang_coding_projects.Prelude.{
  ℕ, ◌+◌, ◌*◌, ◌^◌, ◌<◌, ◌≤◌, ◌≡◌, ◌⊎◌, inl, inr, refl, sym, ap, ◌∙◌, Bool, List, [], ◌∷◌, ◌++◌,
  arith, length, length-append, take, Option, some,
}
use c_lang_coding_projects.FileMemory.{
  Channels, buffer_size, moved, read_bytes, done, no_message, ok_message,
}
use c_lang_coding_projects.FileMemory.Contract.{IsReliable}
use c_lang_coding_projects.FileMemory.Transfer.{Read, read_bytes_lem}
use c_lang_coding_projects.FileMemory.Show.{execute_get_lem}
use c_lang_coding_projects.FileMemory.Store.{execute_set_lem}
use c_lang_coding_projects.FileMemory.Request.{set_request, requests, parse}
use c_lang_coding_projects.FileMemory.RoundTrip.{
  get_command, set_command, print, header, head_text, print_set, length-head_text, IsLocation,
  parse_whole,
}
use c_lang_coding_projects.FileMemory.Program.{main, main_set, main_get}

-- Two ways to split a list: the longer first part is the shorter one and some more.
split_prefix :
    (h xs rest content : List ℕ)
    → xs ++ rest ≡ h ++ content
    → length h ≤ length xs
    → (more : List ℕ) × (xs ≡ h ++ more) × (content ≡ more ++ rest)
split_prefix [] xs rest content e le = (xs, refl, sym e)
split_prefix (y ∷ h) [] rest content e le = absurd (omega (arith, le))
split_prefix (y ∷ h) (x ∷ xs) rest content e le =
    let (more, p, q) = split_prefix h xs rest content (cc e) (omega (arith, le)) in
    (more, ap₂ (λ a l. a ∷ l) (cc e) p, q)

module _ (c : Channels) (ok : IsReliable c) where
  open c use {Input, Output}
  open ok use {left, written}

  -- The first read brings a text's first part whole where it fits the buffer.
  FirstRead : Input → List ℕ → List ℕ → Type 0
  FirstRead s h content =
      (more : List ℕ) × (s' : Input) × (read_bytes c buffer_size s ≡ moved (h ++ more) s')
      × (content ≡ more ++ left s')
      × (length (h ++ more) ≤ buffer_size)
      × ((length (h ++ more) ≡ buffer_size) ⊎ (left s' ≡ []))

  header_in :
      (s s' : Input) (h xs content : List ℕ)
      → left s ≡ h ++ content
      → length h ≤ buffer_size
      → Read c ok buffer_size s xs s'
      → length h ≤ length xs
  header_in s s' h xs content e le r = elim r.full [
    | inl n ↦ omega (arith, n, le)
    | inr z ↦ omega (
      arith,
      ap length z,
      ap length (sym r.order ∙ e),
      length-append xs (left s'),
      length-append h content,
    )
  ]

  first_read_lem :
      (s : Input) (h content : List ℕ)
      → left s ≡ h ++ content
      → length h ≤ buffer_size
      → FirstRead s h content
  unfolding FirstRead
  first_read_lem s h content e le =
      let (xs, s', run, r) = read_bytes_lem c ok buffer_size s (omega arith) in
      let (more, p, q) =
        split_prefix h xs (left s') content (sym r.order ∙ e)
          (header_in s s' h xs content e le r) in
      (
        more,
        s',
        run ∙ ap (λ l. moved l s') p,
        q,
        subst (λ l. length l ≤ buffer_size) p r.bound,
        subst (λ l. (length l ≡ buffer_size) ⊎ (left s' ≡ [])) p r.full,
      )

  module _ (is_dir : List ℕ → Bool) (open_read : List ℕ → Option Input)
      (open_write : List ℕ → Option Output) where
    set_requested :
        (fuel : ℕ) (location : List ℕ) (n : ℕ) (content : List ℕ) (stdin : Input)
        (stdout file : Output)
        → IsLocation is_dir location
        → n < 2 ^ 64
        → open_write location ≡ some file
        → written file ≡ []
        → 2 * n + 1 ≤ fuel
        → FirstRead stdin (head_text location n) content
        → (s' : Input) × (t' : Output) × (main c is_dir open_read open_write fuel stdin stdout
            ≡ done ok_message s' t')
          × (written t' ≡ take n content)
    unfolding FirstRead
    set_requested fuel location n content stdin stdout file l lt opens empty enough
          (more, s1, run, rest, bound, full) =
        let parsed : parse is_dir (head_text location n ++ more)
            ≡ requests (set_request location n (header location n) more) =
          ap (parse is_dir) (sym (print_set location n more))
          ∙ parse_whole is_dir (set_command location n more) (l, lt) in
        let len : length (head_text location n ++ more) ≡ header location n + length more =
          omega (arith, length-append (head_text location n) more, length-head_text location n) in
        let (s2, t2, run2, out2) =
          execute_set_lem c ok fuel n more (header location n) s1 file stdout
            (omega (arith, enough)) (omega (arith, len, bound))
            (elim full [ inl e ↦ inl (sym len ∙ e) | inr z ↦ inr z ]) in
        (
          s2,
          t2,
          main_set c is_dir open_read open_write fuel stdin s1 stdout file
                (head_text location n ++ more) more location n (header location n) run parsed opens
              ∙ run2,
          out2 ∙ (ap₂ (λ l r. l ++ take n r) empty (sym rest)),
        )

    -- A whole run of a set. Where the calls of read(2) and write(2) do not fail, the input is the
    -- text of a set command whose first three lines fit the buffer, with a location and a number as
    -- `main` accepts them, and the file that is opened is empty, `main` ends, with fuel for two
    -- rounds for each byte and one more; it prints OK, and the file then holds the first `n` bytes
    -- of the content, or all of it where that is shorter.
    pub main_set_lem :
        (fuel : ℕ) (location : List ℕ) (n : ℕ) (content : List ℕ) (stdin : Input)
        (stdout file : Output)
        → IsLocation is_dir location
        → n < 2 ^ 64
        → header location n ≤ buffer_size
        → left stdin ≡ print (set_command location n content)
        → open_write location ≡ some file
        → written file ≡ []
        → 2 * n + 1 ≤ fuel
        → (s' : Input) × (t' : Output) × (main c is_dir open_read open_write fuel stdin stdout
            ≡ done ok_message s' t')
          × (written t' ≡ take n content)
    main_set_lem fuel location n content stdin stdout file l lt fits text opens empty enough =
        set_requested fuel location n content stdin stdout file l lt opens empty enough (
          first_read_lem stdin (head_text location n) content (text ∙ print_set location n content)
            (omega (arith, fits, length-head_text location n)))

    get_requested :
        (fuel : ℕ) (location : List ℕ) (stdin file : Input) (stdout : Output)
        → IsLocation is_dir location
        → open_read location ≡ some file
        → length (left file) < fuel
        → FirstRead stdin (print (get_command location)) []
        → (s' : Input) × (t' : Output) × (main c is_dir open_read open_write fuel stdin stdout
            ≡ done no_message s' t')
          × (written t' ≡ written stdout ++ left file)
    unfolding FirstRead
    get_requested fuel location stdin file stdout l opens enough ([], s1, run, rest, bound, full) =
        let parsed = parse_whole is_dir (get_command location) l in
        let (s2, t2, run2, out2) = execute_get_lem c ok fuel file s1 stdout enough in
        (
          s2,
          t2,
          main_get c is_dir open_read open_write fuel stdin s1 file stdout
                (print (get_command location)) location
                (run ∙ ap (λ l. moved l s1) (append-nil (print (get_command location)))) parsed
                opens
              ∙ run2,
          out2,
        )
    get_requested fuel location stdin file stdout l opens enough
          (x ∷ more, s1, run, rest, bound, full) =
        absurd (omega (arith, ap length rest))

    -- A whole run of a get. Where the calls of read(2) and write(2) do not fail, the input is the
    -- text of a get command that fits the buffer, with a location as `main` accepts it, and the
    -- file opens, `main` ends, with fuel for one round more than the file has bytes; it prints no
    -- message, and all bytes of the file go to the output, in order.
    pub main_get_lem :
        (fuel : ℕ) (location : List ℕ) (stdin file : Input) (stdout : Output)
        → IsLocation is_dir location
        → length (print (get_command location)) ≤ buffer_size
        → left stdin ≡ print (get_command location)
        → open_read location ≡ some file
        → length (left file) < fuel
        → (s' : Input) × (t' : Output) × (main c is_dir open_read open_write fuel stdin stdout
            ≡ done no_message s' t')
          × (written t' ≡ written stdout ++ left file)
    main_get_lem fuel location stdin file stdout l fits text opens enough =
        get_requested fuel location stdin file stdout l opens enough (
          first_read_lem stdin (print (get_command location)) []
            (text ∙ sym (append-nil (print (get_command location)))) fits)
