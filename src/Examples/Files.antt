-- ===== src/Examples/Files.antt =====
-- Witnesses for Command-Line Memory/memory.c: a read gives at most three bytes, a write takes one.
use Prim.Native.Nat.{min}
use c_lang_coding_projects.Prelude.{
  ℕ, ◌<◌, ◌≡◌, refl, sym, Bool, true, false, List, [], ◌∷◌, ◌++◌, arith, length, length-take, take,
  drop, take-append-drop, Option, some,
}
use c_lang_coding_projects.FileMemory.{
  buffer_size, Received, received, Sent, sent, Channels, done, no_message, ok_message,
}
use c_lang_coding_projects.FileMemory.Contract.{IsReliable}
use c_lang_coding_projects.FileMemory.Request.{
  parse, set_request, requests, strtok, a_token, past_end,
}
use c_lang_coding_projects.FileMemory.RoundTrip.{
  get_command, set_command, print, IsLocation, parse-print,
}
use c_lang_coding_projects.FileMemory.Parsing.{decimal_digits}
use c_lang_coding_projects.FileMemory.Program.{main}
use c_lang_coding_projects.FileMemory.Runs.{main_set_lem, main_get_lem}

abbrev read_few : List ℕ → ℕ → Received × List ℕ
read_few s n = (received (take (min n 3) s), drop (min n 3) s)

abbrev write_one : List ℕ → List ℕ → Sent × List ℕ
write_one t xs = (sent 1, t ++ take 1 xs)

abbrev few : Channels
few = record { Input = List ℕ; Output = List ℕ; read = read_few; write = write_one }

read_few_end : (s : List ℕ) (n : ℕ) → 0 < n → length (take (min n 3) s) ≡ 0 → s ≡ []
read_few_end [] n pos e = refl
read_few_end (x ∷ s) n pos e = absurd (omega (arith, pos, e, length-take (min n 3) (x ∷ s)))

abbrev few-IsReliable : IsReliable few
few-IsReliable = record {
  left = λ s. s;
  written = λ t. t;
  read_law = λ s n pos. (
    take (min n 3) s,
    drop (min n 3) s,
    refl,
    sym (take-append-drop (min n 3) s),
    omega (arith, length-take (min n 3) s),
    λ e. read_few_end s n pos e,
  );
  write_law = λ t xs pos. (1, t ++ take 1 xs, refl, omega arith, omega (arith, pos), refl);
}

abbrev no_directory : List ℕ → Bool
no_directory location = false

abbrev note_name : List ℕ
note_name = b'n' ∷ b'o' ∷ []

abbrev hello : List ℕ
hello = b'h' ∷ b'e' ∷ b'l' ∷ b'l' ∷ b'o' ∷ []

abbrev open_hello : List ℕ → Option (List ℕ)
open_hello location = some hello

abbrev open_empty : List ℕ → Option (List ℕ)
open_empty location = some []

note_name-IsLocation : IsLocation no_directory note_name
note_name-IsLocation = record {
  plain = omega arith;
  some_byte = omega arith;
  short = omega arith;
  no_dir = refl;
}

main_set_lem_example :
    (s' : List ℕ) × (t' : List ℕ) × (main few no_directory open_hello open_empty 9
        (print (set_command note_name 4 hello))
        []
      ≡ done ok_message s' t')
    × (t' ≡ take 4 hello)
unfolding decimal_digits
main_set_lem_example =
    main_set_lem few few-IsReliable no_directory open_hello open_empty 9 note_name 4 hello
      (print (set_command note_name 4 hello)) [] [] note_name-IsLocation (omega arith) (omega arith)
      refl refl refl (omega arith)

main_get_lem_example :
    (s' : List ℕ) × (t' : List ℕ) × (main few no_directory open_hello open_empty 6
        (print (get_command note_name))
        []
      ≡ done no_message s' t')
    × (t' ≡ hello)
unfolding print
main_get_lem_example =
    main_get_lem few few-IsReliable no_directory open_hello open_empty 6 note_name
      (print (get_command note_name)) hello [] note_name-IsLocation (omega arith) refl refl
      (omega arith)

parse-print_example :
    parse no_directory (take buffer_size (print (set_command note_name 5 hello)))
    ≡ requests (set_request note_name 5 9 hello)
unfolding decimal_digits
parse-print_example =
    parse-print no_directory (set_command note_name 5 hello) (note_name-IsLocation, omega arith)
      (omega arith)

-- A full buffer without a newline: strtok reads past its end.
full_runs : strtok true (record { passed = []; ahead = hello }) ≡ past_end
unfolding strtok
full_runs = refl

-- The same bytes in a larger buffer are a token.
rest_runs :
    strtok false (record { passed = []; ahead = hello })
    ≡ a_token hello (record { passed = hello; ahead = [] })
unfolding strtok
rest_runs = refl
