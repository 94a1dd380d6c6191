-- ===== src/FileMemory.antt =====
-- Command-Line Memory/memory.c. read(2) and write(2) are parameters (Channels); a byte is a number. The
-- part of `buf` that is still to be written is a list, with its first index beside it. A loop on fuel
-- makes at most a round for each byte and one more; FileMemory.Transfer and its siblings have the
-- bounds.
pub mod Contract
pub mod Transfer
pub mod Show
pub mod WriteRound
pub mod ReadRound
pub mod Store
pub mod Request
pub mod Parsing
pub mod RoundTrip
pub mod Program
pub mod Runs
use c_lang_coding_projects.Prelude.{
  ℕ, zero, suc, ◌+◌, ◌-◌, Bool, true, false, not, List, [], ◌∷◌, ◌++◌, ◌==◌, ltb, leb,
  if◌then◌else◌, length, take, drop, Option, none, some,
}

-- `BUFFER_SIZE`
abbrev pub buffer_size : ℕ
buffer_size = 4096

-- What a call of read(2) or of write(2) returns: -1, or a number of bytes.
pub data Received : Type 0 where
  read_error : Received
  received : List ℕ → Received

pub data Sent : Type 0 where
  write_error : Sent
  sent : ℕ → Sent

-- The input and the output that the calls work on.
pub record Channels : Type 1 where
  pub Input : Type 0
  pub Output : Type 0
  pub read : Input → ℕ → Received × Input
  pub write : Output → List ℕ → Sent × Output

-- How `read_bytes` and `write_bytes` return: -1, or all bytes that were read or written.
pub data Transferred (S : Type 0) : Type 0 where
  failed : S → Transferred S
  moved : List ℕ → S → Transferred S
  out_of_fuel : Transferred S

-- What is printed at the end, besides a file's bytes; the status is 0 for the first two and else 1.
pub data Message : Type 0 where
  ok_message : Message
  no_message : Message
  invalid_command : Message
  operation_failed : Message

-- How `main` returns; `overread` is a read past the end of the buffer, `endless` a loop without fuel.
pub data Result (S T : Type 0) : Type 0 where
  done : Message → S → T → Result S T
  overread : S → T → Result S T
  endless : Result S T

-- What `execute_set` reads at once: the buffer's size, or `content_length` where that is less.
abbrev pub amount_for : ℕ → ℕ
amount_for content_length = if ltb buffer_size content_length then buffer_size else content_length

module _ (c : Channels) where
  open c use {Input, Output, read, write}

  abbrev pub received_some : List ℕ → List ℕ → Input → Transferred Input → Transferred Input
  received_some acc [] s rest = moved acc s
  received_some acc (x ∷ xs) s rest = rest

  abbrev pub read_round :
      ℕ → List ℕ → Received × Input → (ℕ → List ℕ → Input → Transferred Input) → Transferred Input
  read_round amount acc (read_error, s) next = failed s
  read_round amount acc (received xs, s) next =
      received_some acc xs s (next (amount - length xs) (acc ++ xs) s)

  -- The loop of `read_bytes`, with the bytes read so far.
  unfoldable pub read_loop : ℕ → ℕ → List ℕ → Input → Transferred Input
  read_loop zero amount acc s = if amount == 0 then moved acc s else out_of_fuel
  read_loop (suc fuel) amount acc s =
      let rest = read_round amount acc (read s amount) (read_loop fuel) in
      if amount == 0 then moved acc s else rest

  unfoldable pub read_bytes : ℕ → Input → Transferred Input
  read_bytes amount s = if amount == 0 then failed s else read_loop amount amount [] s

  abbrev pub write_round :
      List ℕ → Sent × Output → (List ℕ → Output → Transferred Output) → Transferred Output
  write_round xs (write_error, t) next = failed t
  write_round xs (sent k, t) next = next (drop k xs) t

  -- The loop of `write_bytes`, with the bytes still to write; `all` is what was given.
  unfoldable pub write_loop : ℕ → List ℕ → List ℕ → Output → Transferred Output
  write_loop zero all xs t = if length xs == 0 then moved all t else out_of_fuel
  write_loop (suc fuel) all xs t =
      let rest = write_round xs (write t xs) (write_loop fuel all) in
      if length xs == 0 then moved all t else rest

  unfoldable pub write_bytes : List ℕ → Output → Transferred Output
  write_bytes xs t = if length xs == 0 then failed t else write_loop (length xs) xs xs t

  -- The state behind a call whose result is not looked at.
  abbrev pub output_of : Transferred Output → Option Output
  output_of (failed t) = some t
  output_of (moved xs t) = some t
  output_of out_of_fuel = none

  abbrev pub get_next :
      Input → Option Output → (Input → Output → Result Input Output) → Result Input Output
  get_next s none next = endless
  get_next s (some t) next = next s t

  abbrev pub get_round :
      Transferred Input → Output → (Input → Output → Result Input Output) → Result Input Output
  get_round (failed s) t next = done operation_failed s t
  get_round (moved [] s) t next = done no_message s t
  get_round (moved (x ∷ xs) s) t next = get_next s (output_of (write_bytes (x ∷ xs) t)) next
  get_round out_of_fuel t next = endless

  -- The loop of `execute_get`, for a file that is open.
  unfoldable pub get_loop : ℕ → Input → Output → Result Input Output
  get_loop zero s t = endless
  get_loop (suc fuel) s t = get_round (read_bytes buffer_size s) t (get_loop fuel)

  -- `execute_get`; `file` is what `open` returned.
  unfoldable pub execute_get : ℕ → Option Input → Input → Output → Result Input Output
  execute_get fuel none stdin t = done invalid_command stdin t
  execute_get fuel (some s) stdin t = get_loop fuel s t

  -- `execute_set` behind a write of the `xs` from `buf_index` on.
  abbrev pub set_written :
      Transferred Output
      → ℕ
      → ℕ
      → Input
      → (ℕ → List ℕ → ℕ → Input → Output → Result Input Output)
      → Result Input Output
  set_written (failed t) content_length buf_index s next = done operation_failed s t
  set_written (moved xs t) content_length buf_index s next =
      let last = next 0 xs buf_index s t in
      let rest = next (content_length - length xs) [] (buf_index + length xs) s t in
      if ltb (length xs) (buffer_size - buf_index) then last else rest
  set_written out_of_fuel content_length buf_index s next = endless

  -- `execute_set` behind a read of at most `amount_to_read` bytes.
  abbrev pub set_filled :
      Transferred Input
      → ℕ
      → ℕ
      → Output
      → (ℕ → List ℕ → ℕ → Input → Output → Result Input Output)
      → Result Input Output
  set_filled (failed s) amount_to_read content_length t next = done operation_failed s t
  set_filled (moved [] s) amount_to_read content_length t next = done ok_message s t
  set_filled (moved (x ∷ xs) s) amount_to_read content_length t next =
      next (if ltb (length (x ∷ xs)) amount_to_read then length (x ∷ xs) else content_length)
        (x ∷ xs) 0 s t
  set_filled out_of_fuel amount_to_read content_length t next = endless

  abbrev pub set_round :
      List ℕ
      → ℕ
      → ℕ
      → Input
      → Output
      → (ℕ → List ℕ → ℕ → Input → Output → Result Input Output)
      → Result Input Output
  set_round [] content_length buf_index s t next =
      set_filled (read_bytes (amount_for content_length) s) (amount_for content_length)
        content_length t next
  set_round (x ∷ xs) content_length buf_index s t next =
      set_written (write_bytes (x ∷ xs) t) content_length buf_index s next

  -- The loop of `execute_set`. The list is the `bytes_in_buffer` bytes from `buf_index` on.
  unfoldable pub set_loop : ℕ → ℕ → List ℕ → ℕ → Input → Output → Result Input Output
  set_loop zero content_length xs buf_index s t =
      if content_length == 0 then done ok_message s t else endless
  set_loop (suc fuel) content_length xs buf_index s t =
      let rest = set_round (take content_length xs) content_length buf_index s t (set_loop fuel) in
      if content_length == 0 then done ok_message s t else rest

  -- `execute_set`; `file` is what `open` returned, and the second output what is there without it.
  unfoldable pub execute_set :
      ℕ → Option Output → List ℕ → ℕ → ℕ → Input → Output → Result Input Output
  execute_set fuel none xs buf_index content_length s closed = done invalid_command s closed
  execute_set fuel (some t) xs buf_index content_length s closed =
      set_loop fuel content_length xs buf_index s t
