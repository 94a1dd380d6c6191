-- ===== src/Arrays.antt =====
-- Arrays of the graph programs, indexed from 1 to `order`: a function from indices, with the write of
-- one element and the loop that writes one value to all.
use c_lang_coding_projects.Prelude.{ℕ, zero, suc, ◌≤◌, ◌≡◌, ◌≢◌, arith, ◌==◌, if◌then◌else◌}

module _ {ℓ} {A : Type ℓ} where
  -- `a[i] = x`
  unfoldable pub put : (ℕ → A) → ℕ → A → ℕ → A
  put f i x j = if i == j then x else f j

  -- `for (int i = 1; i <= n; i++) a[i] = x`
  unfoldable pub fill : ℕ → (ℕ → A) → A → ℕ → A
  fill zero f x = f
  fill (suc n) f x = put (fill n f x) (suc n) x

  pub put_self : (f : ℕ → A) (i : ℕ) (x : A) → put f i x i ≡ x
  unfolding put
  put_self f i x = ground arith

  pub put_other : (f : ℕ → A) (i : ℕ) (x : A) (j : ℕ) → i ≢ j → put f i x j ≡ f j
  unfolding put
  put_other f i x j ne = ground arith

  -- The loop writes exactly the elements 1 to `n`.
  pub fill_lem : (n : ℕ) (f : ℕ → A) (x : A) (j : ℕ) → 1 ≤ j → j ≤ n → fill n f x j ≡ x
  unfolding fill put
  fill_lem zero f x j p q = absurd (omega arith)
  fill_lem (suc n) f x j p q = ground (arith, fill_lem n f x j)
