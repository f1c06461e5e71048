-- ===== src/Prelude/Split.antt =====
-- The first entries of a list, and the others.
use Prim.Native.Nat.{ℕ, zero, suc, ◌+◌, ◌≤◌}
use mathlib.Core.Path.{◌≡◌, refl, ap}
use mathlib.Core.List.{List, [], ◌∷◌, ◌++◌}
use native.Mathlib.Omega.{arith}
use mo_belt.Prelude.Store.{length}

module _ {ℓ} {A : Type ℓ} where
  abbrev pub take : ℕ → List A → List A
  take zero l = []
  take (suc n) [] = []
  take (suc n) (b ∷ l) = b ∷ take n l

  abbrev pub skip : ℕ → List A → List A
  skip zero l = l
  skip (suc n) [] = []
  skip (suc n) (b ∷ l) = skip n l

  pub take-skip : (n : ℕ) (l : List A) → take n l ++ skip n l ≡ l
  take-skip zero l = refl
  take-skip (suc n) [] = refl
  take-skip (suc n) (b ∷ l) = ap (λ t. b ∷ t) (take-skip n l)

  pub length-skip : (n : ℕ) (l : List A) → n ≤ length l → length (skip n l) + n ≡ length l
  length-skip zero l h = omega arith
  length-skip (suc n) [] h = omega arith
  length-skip (suc n) (b ∷ l) h = omega (arith, length-skip n l (omega arith))

  pub length-take : (n : ℕ) (l : List A) → n ≤ length l → length (take n l) ≡ n
  length-take zero l h = refl
  length-take (suc n) [] h = omega arith
  length-take (suc n) (b ∷ l) h = omega (arith, length-take n l (omega arith))

  pub length-le-take : (n : ℕ) (l : List A) → length (take n l) ≤ n
  length-le-take zero l = omega arith
  length-le-take (suc n) [] = omega arith
  length-le-take (suc n) (b ∷ l) = omega (arith, length-le-take n l)

  pub take-append : (n : ℕ) (l m : List A) → n ≤ length l → take n (l ++ m) ≡ take n l
  take-append zero l m h = refl
  take-append (suc n) [] m h = absurd omega arith
  take-append (suc n) (b ∷ l) m h = ap (λ t. b ∷ t) (take-append n l m (omega arith))

  pub skip-more : (n : ℕ) (l m : List A) → n ≤ length l → skip n (l ++ m) ≡ skip n l ++ m
  skip-more zero l m h = refl
  skip-more (suc n) [] m h = absurd omega arith
  skip-more (suc n) (b ∷ l) m h = skip-more n l m (omega arith)

  pub take-length : (l : List A) → take (length l) l ≡ l
  take-length [] = refl
  take-length (b ∷ l) = ap (λ t. b ∷ t) (take-length l)

  pub take-take : (n m : ℕ) (l : List A) → n ≤ m → take n (take m l) ≡ take n l
  take-take zero m l h = refl
  take-take (suc n) zero l h = absurd omega (arith, h)
  take-take (suc n) (suc m) [] h = refl
  take-take (suc n) (suc m) (b ∷ l) h = ap (λ t. b ∷ t) (take-take n m l (omega (arith, h)))

  pub skip-length : (l : List A) → skip (length l) l ≡ []
  skip-length [] = refl
  skip-length (b ∷ l) = skip-length l

  pub nothing_left : (l : List A) → length l ≡ 0 → l ≡ []
  nothing_left [] h = refl
  nothing_left (b ∷ l) h = absurd omega arith
