-- ===== src/Prelude/Store.antt =====
-- Fixed arrays as functions of the index, counted loops over them, and sums.
use Prim.Native.Nat.{ℕ, zero, suc, ◌+◌, ◌<◌, ◌≤◌}
use mathlib.Core.Path.{◌≡◌, refl, sym, ap, subst, ◌∙◌}
use mathlib.Core.Logic.{◌≢◌}
use mathlib.Core.Bool.{Bool, true, false}
use mathlib.Core.List.{List, [], ◌∷◌, ◌++◌}
use native.Mathlib.Omega.{arith}
use native.Mathlib.Decide.{ℕ_discrete}
use mathlib.Core.Bool.{◌&&◌}
use mo_belt.Prelude.Tests.{◌==◌, ltb, if◌then◌else◌}

-- `a[i] = v`.
abbrev pub update {ℓ} : {A : Type ℓ} → (ℕ → A) → ℕ → A → ℕ → A
update f i v j = if i == j then v else f j

-- `for (i = 0; i < n; ++i) s = body(i, s)`.
abbrev pub for_below {ℓ} : {S : Type ℓ} → ℕ → (ℕ → S → S) → S → S
for_below zero body s = s
for_below (suc n) body s = body n (for_below n body s)

-- What every round keeps, the loop keeps.
pub for_below_inv {ℓ κ} :
    {S : Type ℓ} (P : S → Type κ) (body : ℕ → S → S) (n : ℕ) (s : S)
    → ((i : ℕ) (t : S) → i < n → P t → P (body i t))
    → P s
    → P (for_below n body s)
for_below_inv P body zero s keep h = h
for_below_inv P body (suc n) s keep h =
    keep n _ (omega arith) (for_below_inv P body n s (λ i t lt. keep i t (omega arith)) h)

abbrev pub to_ℕ : Bool → ℕ
to_ℕ true = 1
to_ℕ false = 0

abbrev pub sum_below : ℕ → (ℕ → ℕ) → ℕ
sum_below zero f = 0
sum_below (suc n) f = sum_below n f + f n

pub sum_below_congr :
    (n : ℕ) (f g : ℕ → ℕ) → ((i : ℕ) → i < n → f i ≡ g i) → sum_below n f ≡ sum_below n g
sum_below_congr zero f g h = refl
sum_below_congr (suc n) f g h =
    omega (arith, sum_below_congr n f g (λ i lt. h i (omega arith)), h n (omega arith))

pub sum_below_none : (n : ℕ) (f : ℕ → ℕ) → ((i : ℕ) → i < n → f i ≡ 0) → sum_below n f ≡ 0
sum_below_none zero f h = refl
sum_below_none (suc n) f h =
    omega (arith, sum_below_none n f (λ i lt. h i (omega arith)), h n (omega arith))

pub le-sum_below : (n i : ℕ) (f : ℕ → ℕ) → i < n → f i ≤ sum_below n f
le-sum_below zero i f lt = elim lt [ ]
le-sum_below (suc n) i f lt = elim (ℕ_discrete i n) [
  | yes e ↦ omega (arith, ap f e)
  | no ne ↦ omega (arith, le-sum_below n i f (omega arith))
]

-- Two sequences that differ at one place have sums that differ by as much.
pub sum_below_differ :
    (n k : ℕ) (f g : ℕ → ℕ)
    → k < n
    → ((i : ℕ) → i ≢ k → f i ≡ g i)
    → sum_below n f + g k ≡ sum_below n g + f k
sum_below_differ zero k f g lt h = elim lt [ ]
sum_below_differ (suc n) k f g lt h = elim (ℕ_discrete n k) [
  | yes p ↦ omega (arith, sum_below_congr n f g (λ i below. h i (λ e. omega arith)), ap f p, ap g p)
  | no q ↦ omega (arith, sum_below_differ n k f g (omega arith) h, h n q)
]

pub update_self {ℓ} : {A : Type ℓ} (s : ℕ → A) (k : ℕ) (v : A) → update s k v k ≡ v
update_self s k v = ground arith

pub update_ne {ℓ} : {A : Type ℓ} (s : ℕ → A) (k : ℕ) (v : A) (i : ℕ) → i ≢ k → update s k v i ≡ s i
update_ne s k v i h = ground arith

-- A loop that maps the array in place.
pub for_below_map {ℓ} :
    {A : Type ℓ} (g : A → A) (n : ℕ) (s : ℕ → A) (j : ℕ)
    → for_below n (λ i t. update t i (g (t i))) s j ≡ (if ltb j n then g (s j) else s j)
for_below_map g zero s j = ground arith
for_below_map g (suc n) s j = elim (ℕ_discrete j n) [
  | yes e ↦
      let t = for_below n (λ i t. update t i (g (t i))) s in
      ap (update t n (g (t n))) e
      ∙ update_self t n (g (t n))
      ∙ ap g (for_below_map g n s n)
      ∙ ground (arith, ap s e)
  | no ne ↦
      let t = for_below n (λ i t. update t i (g (t i))) s in
      update_ne t n (g (t n)) j ne ∙ for_below_map g n s j ∙ ground arith
]

-- What holds of the value written, and of the others, holds of every value after the write.
pub update_cases {ℓ κ} :
    {A : Type ℓ} (P : A → Type κ) (s : ℕ → A) (i : ℕ) (v : A) (k : ℕ)
    → (k ≢ i → P (s k))
    → P v
    → P (update s i v k)
update_cases P s i v k other same = elim (ℕ_discrete k i) [
  | yes e ↦ subst P (sym (ap (update s i v) e ∙ update_self s i v)) same
  | no ne ↦ subst P (sym (update_ne s i v k ne)) (other ne)
]

-- A write changes a sum over the array by what it changes at its place.
pub sum_below-update {ℓ} :
    {A : Type ℓ} (g : A → ℕ) (n : ℕ) (s : ℕ → A) (k : ℕ) (v : A)
    → k < n
    → sum_below n (λ i. g (update s k v i)) + g (s k) ≡ sum_below n (λ i. g (s i)) + g v
sum_below-update g n s k v lt = omega (
  arith,
  sum_below_differ n k (λ i. g (update s k v i)) (λ i. g (s i)) lt
      (λ i ne. ap g (update_ne s k v i ne)),
  ap g (update_self s k v),
)

-- How many entries of a list pass a test.
abbrev pub count_by {ℓ} : {A : Type ℓ} → (A → Bool) → List A → ℕ
count_by p [] = 0
count_by p (x ∷ xs) = to_ℕ (p x) + count_by p xs

pub count_by-append {ℓ} :
    {A : Type ℓ} (p : A → Bool) (xs ys : List A)
    → count_by p (xs ++ ys) ≡ count_by p xs + count_by p ys
count_by-append p [] ys = omega arith
count_by-append p (x ∷ xs) ys = omega (arith, count_by-append p xs ys)

module _ {ℓ} {A : Type ℓ} where
  abbrev pub length : List A → ℕ
  length [] = 0
  length (x ∷ xs) = suc (length xs)

  pub length-append : (xs ys : List A) → length (xs ++ ys) ≡ length xs + length ys
  length-append [] ys = omega arith
  length-append (x ∷ xs) ys = omega (arith, length-append xs ys)

-- A loop that writes `g k` at those `k` that pass a test: what one more round does to its result.
module _ {ℓ} {A : Type ℓ} (test : ℕ → Bool) (g b t : ℕ → A) (n : ℕ)
    (h : (k : ℕ) → t k ≡ (if ltb k n && test k then g k else b k)) where
  pub fill_round :
      test n ≡ true → (k : ℕ) → update t n (g n) k ≡ (if ltb k (suc n) && test k then g k else b k)
  fill_round on k = elim (ℕ_discrete k n) [
    | yes e ↦ ground (arith, ap test e, ap g e)
    | no ne ↦ ground (arith, h k)
  ]

  pub skip_round : test n ≡ false → (k : ℕ) → t k ≡ (if ltb k (suc n) && test k then g k else b k)
  skip_round off k = elim (ℕ_discrete k n) [
    | yes e ↦ ground (arith, h k, ap test e)
    | no ne ↦ ground (arith, h k)
  ]

-- A property of a conditional, by its branches.
pub if_cases {ℓ κ} :
    {A : Type ℓ} (P : A → Type κ) (b : Bool) (x y : A)
    → (b ≡ true → P x)
    → (b ≡ false → P y)
    → P (if b then x else y)
if_cases P true x y h g = h refl
if_cases P false x y h g = g refl

pub append-one {ℓ} :
    {A : Type ℓ} (p : List A) (c : A) (r : List A) → (p ++ c ∷ []) ++ r ≡ p ++ c ∷ r
append-one [] c r = ground arith
append-one (b ∷ p) c r = ap (λ t. b ∷ t) (append-one p c r)

pub append-nil {ℓ} : {A : Type ℓ} (p : List A) → p ++ [] ≡ p
append-nil [] = refl
append-nil (b ∷ p) = ap (λ t. b ∷ t) (append-nil p)

-- A write of a related value relates every place to what stood there.
pub update_related {ℓ κ} :
    {A : Type ℓ} (R : A → A → Type κ) (s : ℕ → A) (i : ℕ) (v : A) (k : ℕ)
    → ((x : A) → R x x)
    → R (s i) v
    → R (s k) (update s i v k)
update_related R s i v k same h = elim (ℕ_discrete k i) [
  | yes e ↦
      subst (λ x. R x (update s i v k)) (sym (ap s e))
        (subst (R (s i)) (sym (ap (update s i v) e ∙ update_self s i v)) h)
  | no ne ↦ subst (R (s k)) (sym (update_ne s i v k ne)) (same (s k))
]

-- Conditionals that differ in their second branch.
pub if_else_congr {ℓ} :
    {A : Type ℓ} (b : Bool) (x y z : A)
    → (b ≡ false → y ≡ z)
    → (if b then x else y) ≡ (if b then x else z)
if_else_congr true x y z h = refl
if_else_congr false x y z h = h refl

-- A conditional against a function of a conditional on the same test.
pub if_map {ℓ κ} :
    {A : Type ℓ} {B : Type κ} (g : A → B) (b : Bool) (x y : B) (s t : A)
    → (b ≡ true → x ≡ g s)
    → (b ≡ false → y ≡ g t)
    → (if b then x else y) ≡ g (if b then s else t)
if_map g true x y s t h k = h refl
if_map g false x y s t h k = k refl
