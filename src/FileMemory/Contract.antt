-- ===== src/FileMemory/Contract.antt =====
-- read(2) and write(2) as POSIX documents them, for calls that do not fail: a read takes a part of what
-- is left, and nothing only at the end; a write puts a part of what it is given behind the rest.
use c_lang_coding_projects.Prelude.{ℕ, ◌<◌, ◌≤◌, ◌≡◌, List, [], ◌++◌, length, take}
use c_lang_coding_projects.FileMemory.{Channels, received, sent}

pub record IsReliable (c : Channels) : Type 0 where
  pub left : c.Input → List ℕ
  pub written : c.Output → List ℕ
  pub read_law :
      (s : c.Input) (n : ℕ)
      → 0 < n
      → (xs : List ℕ) × (s' : c.Input) × (c.read s n ≡ (received xs, s'))
        × (left s ≡ xs ++ left s')
        × (length xs ≤ n)
        × (length xs ≡ 0 → left s ≡ [])
  pub write_law :
      (t : c.Output) (xs : List ℕ)
      → 0 < length xs
      → (k : ℕ) × (t' : c.Output) × (c.write t xs ≡ (sent k, t'))
        × (0 < k)
        × (k ≤ length xs)
        × (written t' ≡ written t ++ take k xs)
