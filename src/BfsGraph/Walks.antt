-- ===== src/BfsGraph/Walks.antt =====
-- Walks in a graph, and what holds between two rounds of BFS.
use c_lang_coding_projects.Prelude.{
  ℕ, suc, ◌+◌, ◌≤◌, ◌≡◌, ◌⊎◌, refl, Bool, true, false, ◌||◌, Option, none, some, List, [], ◌∷◌,
  ◌++◌, arith, ◌==◌,
}
use c_lang_coding_projects.BfsGraph.{Color, white, gray, black, is_white}

abbrev pub has : List ℕ → ℕ → Bool
has [] v = false
has (x ∷ xs) v = (x == v) || has xs v

pub has-append : (xs ys : List ℕ) (v : ℕ) → has (xs ++ ys) v ≡ (has xs v || has ys v)
has-append [] ys v = refl
has-append (x ∷ xs) ys v = ground (arith, has-append xs ys v)

-- A walk of `n` arcs from `s`, for the adjacency lists `adj`.
pub data Walk (adj : ℕ → List ℕ) (s : ℕ) : ℕ → ℕ → Type 0 where
  start : Walk adj s s 0
  later : {u v n : ℕ} → Walk adj s u n → has (adj u) v ≡ true → Walk adj s v (suc n)

abbrev pub is_black : Color → Bool
is_black white = false
is_black gray = false
is_black black = true

abbrev pub depth : Option ℕ → ℕ
depth none = 0
depth (some d) = d

-- All vertices of a list stand at depth `d` or one below.
abbrev pub Near : (ℕ → Option ℕ) → ℕ → List ℕ → Type 0
Near dist d [] = Unit
Near dist d (x ∷ xs) = (d ≤ depth (dist x)) × (depth (dist x) ≤ d + 1) × Near dist d xs

abbrev pub IsOrdered : (ℕ → Option ℕ) → List ℕ → Type 0
IsOrdered dist [] = Unit
IsOrdered dist (x ∷ xs) = Near dist (depth (dist x)) xs × IsOrdered dist xs

-- Colors and distances of the vertices `V`, with the queue `q`: a vertex that is not white is black or
-- in the queue; a white one has no distance, and any other has the length of a walk; arcs from black
-- vertices lead at most one deeper; the queue goes down, by one at most.
pub record Inv (V : ℕ → Type 0) (adj : ℕ → List ℕ) (s : ℕ) (color : ℕ → Color) (dist : ℕ → Option ℕ)
    (q : List ℕ) : Type 0 where
  pub inside : (v : ℕ) → has q v ≡ true → V v
  pub queued : (v : ℕ) → has q v ≡ true → is_white (color v) ≡ false
  pub found :
      (v : ℕ) → V v → is_white (color v) ≡ false → (is_black (color v) ≡ true) ⊎ (has q v ≡ true)
  pub blank : (v : ℕ) → V v → is_white (color v) ≡ true → dist v ≡ none
  pub reached :
      (v : ℕ) → V v → is_white (color v) ≡ false → (d : ℕ) × (dist v ≡ some d) × Walk adj s v d
  pub done :
      (u v : ℕ)
      → V u
      → is_black (color u) ≡ true
      → has (adj u) v ≡ true
      → (is_white (color v) ≡ false) × (depth (dist v) ≤ depth (dist u) + 1)
  pub past :
      (u x : ℕ) → V u → is_black (color u) ≡ true → has q x ≡ true → depth (dist u) ≤ depth (dist x)
  pub order : IsOrdered dist q
  pub source_color : is_white (color s) ≡ false
  pub source_dist : dist s ≡ some 0
