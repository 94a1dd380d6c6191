-- ===== src/HttpServer/RequestLine.antt =====
-- The request line's regular expression (HTTP Server/protocol.h), as a description of the lines.
use mathlib.Core.Path.{subst}
use c_lang_coding_projects.Prelude.{
  ℕ, ◌≤◌, ◌≡◌, ◌↔◌, ◌⊎◌, refl, sym, ap, ◌∙◌, Bool, Bool-cases, true, false, inl, inr, List, [], ◌∷◌,
  ◌++◌, arith, ◌==◌, length, Option, none, some,
}
use c_lang_coding_projects.HttpServer.{is_alpha}
use c_lang_coding_projects.HttpServer.Parser.{
  is_name_char, take_while, drop_while, within, is_version, behind, Groups, match_version,
  match_uri, match_slash, match_line,
}
use c_lang_coding_projects.HttpServer.Names.{All, take_while-All}

-- A method of 1 to 8 letters, a name of 1 to 63 letters, digits, dots and dashes, and HTTP/x.y.
pub record IsRequestLine (g : Groups) : Type 0 where
  pub type_chars : All is_alpha g.type
  pub type_some : 1 ≤ length g.type
  pub type_short : length g.type ≤ 8
  pub uri_chars : All is_name_char g.uri
  pub uri_some : 1 ≤ length g.uri
  pub uri_short : length g.uri ≤ 63
  pub http_form : is_version g.http ≡ true

-- The groups with a space, a space and a slash between them.
abbrev pub text_of : Groups → List ℕ
text_of g = g.type ++ b' ' ∷ b'/' ∷ (g.uri ++ b' ' ∷ g.http)

while-append : (p : ℕ → Bool) (xs : List ℕ) → take_while p xs ++ drop_while p xs ≡ xs
while-append p [] = refl
while-append p (x ∷ xs) = elim (Bool-cases (p x)) [
  | inl e ↦ rw e (ap (λ l. x ∷ l) (while-append p xs))
  | inr e ↦ rw e refl
]

take_while-append :
    (p : ℕ → Bool) (xs : List ℕ) (c : ℕ) (r : List ℕ)
    → All p xs
    → p c ≡ false
    → take_while p (xs ++ c ∷ r) ≡ xs
take_while-append p [] c r all e = rw e refl
take_while-append p (x ∷ xs) c r (y, all) e =
    rw y (ap (λ l. x ∷ l) (take_while-append p xs c r all e))

drop_while-append :
    (p : ℕ → Bool) (xs : List ℕ) (c : ℕ) (r : List ℕ)
    → All p xs
    → p c ≡ false
    → drop_while p (xs ++ c ∷ r) ≡ c ∷ r
drop_while-append p [] c r all e = rw e refl
drop_while-append p (x ∷ xs) c r (y, all) e = rw y (drop_while-append p xs c r all e)

behind-cases :
    (c : ℕ) (r : List ℕ)
    → (behind c r ≡ none) ⊎ ((r' : List ℕ) × (behind c r ≡ some r') × (r ≡ c ∷ r'))
behind-cases c [] = inl refl
behind-cases c (x ∷ xs) = elim (Bool-cases (x == c)) [
  | inl e ↦ inr (xs, rw e refl, ap (λ y. y ∷ xs) (ground (arith, e)))
  | inr e ↦ inl (rw e refl)
]

abbrev Sound : List ℕ → Option Groups → Type 0
Sound line none = Unit
Sound line (some g) = IsRequestLine g × (line ≡ text_of g)

-- The line as far as it was matched, with what is left.
module _ (line m : List ℕ) (m_chars : All is_alpha m) (m_some : 1 ≤ length m)
    (m_short : length m ≤ 8) where
  version-Sound :
      (u v : List ℕ)
      → All is_name_char u
      → 1 ≤ length u
      → length u ≤ 63
      → line ≡ m ++ b' ' ∷ b'/' ∷ (u ++ b' ' ∷ v)
      → Sound line (match_version m u (some v))
  version-Sound u v chars lo hi e = elim (Bool-cases (is_version v)) [
    | inl t ↦ rw t (
      record {
        type_chars = m_chars;
        type_some = m_some;
        type_short = m_short;
        uri_chars = chars;
        uri_some = lo;
        uri_short = hi;
        http_form = t;
      },
      e,
    )
    | inr t ↦ rw t tt
  ]

  uri-Sound : (r : List ℕ) → line ≡ m ++ b' ' ∷ b'/' ∷ r → Sound line (match_uri m (some r))
  uri-Sound r e =
      let u = take_while is_name_char r in
      elim (Bool-cases (within 1 63 (length u))) [
        | inr t ↦ rw t tt
        | inl t ↦ elim (behind-cases b' ' (drop_while is_name_char r)) [
          | inl b ↦ rw (t, b) tt
          | inr (v, b, d) ↦
              rw (t, b)
                (version-Sound u v (take_while-All is_name_char r) (ground (arith, t))
                  (ground (arith, t))
                  (e
                    ∙ ap (λ l. m ++ b' ' ∷ b'/' ∷ l)
                        (sym (while-append is_name_char r) ∙ ap (λ l. u ++ l) d)))
        ]
      ]

  slash-Sound : (r : List ℕ) → line ≡ m ++ b' ' ∷ r → Sound line (match_slash m (some r))
  slash-Sound r e = elim (behind-cases b'/' r) [
    | inl b ↦ rw b tt
    | inr (r', b, d) ↦ rw b (uri-Sound r' (e ∙ ap (λ l. m ++ b' ' ∷ l) d))
  ]

line-Sound : (line : List ℕ) → Sound line (match_line line)
line-Sound line =
    let m = take_while is_alpha line in
    elim (Bool-cases (within 1 8 (length m))) [
      | inr t ↦ rw t tt
      | inl t ↦ elim (behind-cases b' ' (drop_while is_alpha line)) [
        | inl b ↦ rw (t, b) tt
        | inr (r, b, d) ↦
            rw (t, b)
              (slash-Sound line m (take_while-All is_alpha line) (ground (arith, t))
                (ground (arith, t)) r (sym (while-append is_alpha line) ∙ ap (λ l. m ++ l) d))
      ]
    ]

matched : (g : Groups) → IsRequestLine g → match_line (text_of g) ≡ some g
matched g l =
    let rest = b'/' ∷ (g.uri ++ b' ' ∷ g.http) in
    let m : within 1 8 (length g.type) ≡ true = ground (arith, l.type_some, l.type_short) in
    let u : within 1 63 (length g.uri) ≡ true = ground (arith, l.uri_some, l.uri_short) in
    rw
      (
        take_while-append is_alpha g.type b' ' rest l.type_chars refl,
        drop_while-append is_alpha g.type b' ' rest l.type_chars refl,
        m,
        take_while-append is_name_char g.uri b' ' g.http l.uri_chars refl,
        drop_while-append is_name_char g.uri b' ' g.http l.uri_chars refl,
        u,
        l.http_form,
      )
      refl

-- The matching of a request line finds the groups exactly where they are of the expression's form
-- and the line is their text.
pub match_line_iff :
    (line : List ℕ) (g : Groups)
    → (match_line line ≡ some g) ↔ (IsRequestLine g × (line ≡ text_of g))
match_line_iff line g =
    (λ e. subst (Sound line) e (line-Sound line), λ h. ap match_line h.1 ∙ matched g h.0)
