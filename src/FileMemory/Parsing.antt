-- ===== src/FileMemory/Parsing.antt =====
-- `main` of Command-Line Memory/memory.c on the texts of the two commands.
use mathlib.Core.Path.{subst}
use c_lang_coding_projects.Prelude.{
  Bool, true, false, ℕ, zero, suc, ◌+◌, ◌-◌, ◌*◌, ◌/◌, ◌%◌, ◌^◌, ltb, lt→ltb, if◌then◌else◌,
  Bool-cases, inl, inr, ◌<◌, ◌≤◌, ◌≡◌, ◌≢◌, refl, sym, ap, ◌∙◌, List, [], ◌∷◌, ◌++◌, arith, length,
  length-append, some,
}
use c_lang_coding_projects.Text.{number, in_range}
use c_lang_coding_projects.FileMemory.Request.{
  newline, a_token, token_of, has_end, token, cut, behind, strtok_from, strtok, strtoul,
}

-- Bytes that end no token.
abbrev pub Plain : List ℕ → Type 0
Plain [] = Unit
Plain (x ∷ xs) = (x ≢ newline) × (x ≢ 0) × Plain xs

abbrev pub Digits : List ℕ → Type 0
Digits [] = Unit
Digits (x ∷ xs) = (b'0' ≤ x) × (x ≤ b'9') × Digits xs

-- `w` and a newline.
abbrev pub line : List ℕ → List ℕ → List ℕ
line w rest = w ++ newline ∷ rest

token-line : (w r : List ℕ) → Plain w → token (line w r) ≡ w
token-line [] r p = refl
token-line (x ∷ w) r (n, z, p) = ground (arith, n, z, token-line w r p)

cut-line : (w r : List ℕ) → Plain w → cut (line w r) ≡ w ++ 0 ∷ []
cut-line [] r p = refl
cut-line (x ∷ w) r (n, z, p) = ground (arith, n, z, cut-line w r p)

behind-line : (w r : List ℕ) → Plain w → behind (line w r) ≡ r
behind-line [] r p = refl
behind-line (x ∷ w) r (n, z, p) = ground (arith, n, z, behind-line w r p)

has_end-line : (w r : List ℕ) → has_end (line w r) ≡ true
has_end-line [] r = refl
has_end-line (x ∷ w) r = ground (arith, has_end-line w r)

strtok_first :
    (full : Bool) (passed : List ℕ) (x : ℕ) (xs : List ℕ)
    → x ≢ newline
    → x ≢ 0
    → strtok_from full passed (x ∷ xs) ≡ token_of full passed (x ∷ xs)
strtok_first full passed x xs n z = ground (arith, n, z)

token_of-line :
    (full : Bool) (passed w r : List ℕ)
    → Plain w
    → token_of full passed (line w r)
      ≡ a_token w (record { passed = passed ++ (w ++ 0 ∷ []); ahead = r })
token_of-line true passed w r p =
    rw (has_end-line w r, token-line w r p, cut-line w r p, behind-line w r p) refl
token_of-line false passed w r p = rw (token-line w r p, cut-line w r p, behind-line w r p) refl

-- A line that ends inside the buffer is a token, also where the buffer is full.
pub strtok-line :
    (full : Bool) (passed w r : List ℕ)
    → Plain w
    → 0 < length w
    → strtok full (record { passed = passed; ahead = line w r })
      ≡ a_token w (record { passed = passed ++ (w ++ 0 ∷ []); ahead = r })
unfolding strtok
strtok-line full passed [] r p pos = absurd (omega (arith, pos))
strtok-line full passed (x ∷ w) r (n, z, p) pos =
    strtok_first full passed x (line w r) n z ∙ token_of-line full passed (x ∷ w) r (n, z, p)

-- The decimal digits of a number, at most `fuel + 1` of them.
unfoldable pub decimal_digits : ℕ → ℕ → List ℕ
decimal_digits zero n = (b'0' + n % 10) ∷ []
decimal_digits (suc fuel) n =
    let rest = decimal_digits fuel (n / 10) ++ (b'0' + n % 10) ∷ [] in
    if ltb n 10 then (b'0' + n) ∷ [] else rest

abbrev pub decimal : ℕ → List ℕ
decimal n = decimal_digits n n

Digits-append : (xs : List ℕ) (y : ℕ) → Digits xs → b'0' ≤ y → y ≤ b'9' → Digits (xs ++ y ∷ [])
Digits-append [] y ds lo hi = (lo, hi, tt)
Digits-append (x ∷ xs) y (l, h, ds) lo hi = (l, h, Digits-append xs y ds lo hi)

number-append :
    (acc : ℕ) (xs : List ℕ) (y : ℕ)
    → Digits xs
    → b'0' ≤ y
    → y ≤ b'9'
    → number acc (xs ++ y ∷ []) ≡ number acc xs * 10 + (y - b'0')
number-append acc [] y ds lo hi = ground (arith, lo, hi)
number-append acc (x ∷ xs) y (l, h, ds) lo hi =
    ground (arith, l, h, number-append (acc * 10 + (x - b'0')) xs y ds lo hi)

decimal_digits-Digits : (fuel n : ℕ) → n ≤ fuel → Digits (decimal_digits fuel n)
unfolding decimal_digits
decimal_digits-Digits zero n le = (omega arith, omega arith, tt)
decimal_digits-Digits (suc fuel) n le = elim (Bool-cases (ltb n 10)) [
  | inl e ↦ rw e (omega arith, ground (arith, e), tt)
  | inr e ↦ rw e (
      Digits-append (decimal_digits fuel (n / 10)) (b'0' + n % 10)
        (decimal_digits-Digits fuel (n / 10) (ground (arith, e, le))) (omega arith) (omega arith))
]

number-decimal_digits : (fuel n : ℕ) → n ≤ fuel → number 0 (decimal_digits fuel n) ≡ n
unfolding decimal_digits
number-decimal_digits zero n le = ground (arith, le)
number-decimal_digits (suc fuel) n le = elim (Bool-cases (ltb n 10)) [
  | inl e ↦ rw e (ground (arith, e))
  | inr e ↦
      rw
        (
          e,
          number-append 0 (decimal_digits fuel (n / 10)) (b'0' + n % 10)
              (decimal_digits-Digits fuel (n / 10) (ground (arith, e, le))) (omega arith)
              (omega arith),
          number-decimal_digits fuel (n / 10) (ground (arith, e, le)),
        )
        (omega arith)
]

Plain-of_Digits : (xs : List ℕ) → Digits xs → Plain xs
Plain-of_Digits [] ds = tt
Plain-of_Digits (x ∷ xs) (l, h, ds) =
    (λ e. omega (arith, e, l), λ e. omega (arith, e, l), Plain-of_Digits xs ds)

strtoul_digits :
    (x : ℕ) (xs : List ℕ) → b'0' ≤ x → x ≤ b'9' → strtoul (x ∷ xs) ≡ in_range (number 0 (x ∷ xs))
strtoul_digits x xs l h = ground (arith, l, h)

in_range_lem : (n : ℕ) → n < 2 ^ 64 → in_range n ≡ some n
unfolding in_range
in_range_lem n lt = rw (lt→ltb n (2 ^ 64) lt) refl

strtoul_of_Digits :
    (xs : List ℕ)
    → Digits xs
    → number 0 xs < 2 ^ 64
    → 0 < length xs
    → strtoul xs ≡ some (number 0 xs)
strtoul_of_Digits [] ds lt pos = absurd (omega (arith, pos))
strtoul_of_Digits (x ∷ xs) (l, h, ds) lt pos =
    strtoul_digits x xs l h ∙ in_range_lem (number 0 (x ∷ xs)) lt

length-decimal_digits : (fuel n : ℕ) → 0 < length (decimal_digits fuel n)
unfolding decimal_digits
length-decimal_digits zero n = omega arith
length-decimal_digits (suc fuel) n = elim (Bool-cases (ltb n 10)) [
  | inl e ↦ rw e (omega arith)
  | inr e ↦
      rw e (omega (arith, length-append (decimal_digits fuel (n / 10)) ((b'0' + n % 10) ∷ [])))
]

-- strtoul reads the decimal digits of `n` as `n`.
pub strtoul-decimal : (n : ℕ) → n < 2 ^ 64 → strtoul (decimal n) ≡ some n
strtoul-decimal n lt =
    let v : number 0 (decimal n) ≡ n = number-decimal_digits n n (omega arith) in
    strtoul_of_Digits (decimal n) (decimal_digits-Digits n n (omega arith))
      (subst (λ k. k < 2 ^ 64) (sym v) lt) (length-decimal_digits n n)
    ∙ ap some v

pub Plain-decimal : (n : ℕ) → Plain (decimal n)
Plain-decimal n = Plain-of_Digits (decimal n) (decimal_digits-Digits n n (omega arith))

pub decimal_pos : (n : ℕ) → 0 < length (decimal n)
decimal_pos n = length-decimal_digits n n
