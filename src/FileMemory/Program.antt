-- ===== src/FileMemory/Program.antt =====
-- `main` of Command-Line Memory/memory.c. `open` for reading and for writing are parameters: a location
-- gives a channel, or none where -1 is returned. A result that keeps the input keeps the one read last.
use c_lang_coding_projects.Prelude.{ℕ, ◌≡◌, refl, Bool, List, Option, some}
use c_lang_coding_projects.FileMemory.{
  Channels, buffer_size, Transferred, failed, moved, out_of_fuel, read_bytes, Result, done,
  overread, endless, invalid_command, operation_failed, execute_get, execute_set,
}
use c_lang_coding_projects.FileMemory.Request.{
  Parsed, requests, invalid, reads_past, get_request, set_request, parse,
}

module _ (c : Channels) (is_dir : List ℕ → Bool) (open_read : List ℕ → Option c.Input)
    (open_write : List ℕ → Option c.Output) where
  open c use {Input, Output}

  abbrev pub requested : ℕ → Parsed → Input → Output → Result Input Output
  requested fuel invalid s stdout = done invalid_command s stdout
  requested fuel reads_past s stdout = overread s stdout
  requested fuel (requests (get_request location)) s stdout =
      execute_get c fuel (open_read location) s stdout
  requested fuel (requests (set_request location content_length buf_index buf)) s stdout =
      execute_set c fuel (open_write location) buf buf_index content_length s stdout

  abbrev pub started : ℕ → Transferred Input → Output → Result Input Output
  started fuel (failed s) stdout = done operation_failed s stdout
  started fuel (moved buf s) stdout = requested fuel (parse is_dir buf) s stdout
  started fuel out_of_fuel stdout = endless

  unfoldable pub main : ℕ → Input → Output → Result Input Output
  main fuel stdin stdout = started fuel (read_bytes c buffer_size stdin) stdout

  pub main_set :
      (fuel : ℕ) (stdin s : Input) (stdout file : Output) (buf xs location : List ℕ)
      (n buf_index : ℕ)
      → read_bytes c buffer_size stdin ≡ moved buf s
      → parse is_dir buf ≡ requests (set_request location n buf_index xs)
      → open_write location ≡ some file
      → main fuel stdin stdout ≡ execute_set c fuel (some file) xs buf_index n s stdout
  unfolding main
  main_set fuel stdin s stdout file buf xs location n buf_index run parsed opens =
      rw (run, parsed, opens) refl

  pub main_get :
      (fuel : ℕ) (stdin s file : Input) (stdout : Output) (buf location : List ℕ)
      → read_bytes c buffer_size stdin ≡ moved buf s
      → parse is_dir buf ≡ requests (get_request location)
      → open_read location ≡ some file
      → main fuel stdin stdout ≡ execute_get c fuel (some file) s stdout
  unfolding main
  main_get fuel stdin s file stdout buf location run parsed opens = rw (run, parsed, opens) refl
