-- ===== src/Prelude/Lists.antt =====
-- Lists: the array methods that the program calls, and their laws.
use Prim.Native.Nat.{zero, ℕ, suc, ◌+◌}
use Prim.Native.String.{String}
use mathlib.Core.Path.{subst, ◌≡◌, refl}
use mathlib.Core.Logic.{inl, inr}
use mathlib.Core.Bool.{Bool, true, false, ◌&&◌, ◌||◌}
use mathlib.Core.List.{List, [], ◌∷◌, ◌++◌}
use mathlib.Core.Option.{Option, none, some}
use native.Mathlib.Omega.{arith}
use text.Mathlib.TextEquality.{eq_iff}
use looms.Prelude.Tests.{◌==◌, if◌then◌else◌, Bool-cases}

module _ {ℓ} {A : Type ℓ} where
  abbrev pub length : List A → ℕ
  length [] = 0
  length (x ∷ xs) = suc (length xs)

  -- `xs.filter(p)`
  abbrev pub filter : (A → Bool) → List A → List A
  filter p [] = []
  filter p (x ∷ xs) = if p x then x ∷ filter p xs else filter p xs

  -- `xs.some(p)` and `xs.every(p)`
  abbrev pub any : (A → Bool) → List A → Bool
  any p [] = false
  any p (x ∷ xs) = p x || any p xs

  abbrev pub all : (A → Bool) → List A → Bool
  all p [] = true
  all p (x ∷ xs) = p x && all p xs

  -- `xs.slice(0, n)`
  abbrev pub take : ℕ → List A → List A
  take zero xs = []
  take (suc n) [] = []
  take (suc n) (x ∷ xs) = x ∷ take n xs

  -- `xs.find(p)`
  abbrev pub find? : (A → Bool) → List A → Option A
  find? p [] = none
  find? p (x ∷ xs) = if p x then some x else find? p xs

  -- `xs.splice(i, 1)` at the first element that passes the test
  abbrev pub remove_first : (A → Bool) → List A → List A
  remove_first p [] = []
  remove_first p (x ∷ xs) = if p x then xs else x ∷ remove_first p xs

  abbrev pub All {κ} : (A → Type κ) → List A → Type κ
  All P [] = Unit
  All P (x ∷ xs) = P x × All P xs

  pub length-append : (xs ys : List A) → length (xs ++ ys) ≡ length xs + length ys
  length-append [] ys = omega arith
  length-append (x ∷ xs) ys = omega (arith, length-append xs ys)

-- `xs.includes(x)`
abbrev pub includes : List String → String → Bool
includes [] x = false
includes (y ∷ ys) x = y == x || includes ys x

abbrev pub Distinct : List String → Type 0
Distinct [] = Unit
Distinct (x ∷ xs) = (includes xs x ≡ false) × Distinct xs

module _ {ℓ κ} {A : Type ℓ} (P : A → Type κ) where
  pub All-append : (xs ys : List A) → All P xs → All P ys → All P (xs ++ ys)
  All-append [] ys h k = k
  All-append (x ∷ xs) ys (p, h) k = (p, All-append xs ys h k)

  pub All-filter : (q : A → Bool) (xs : List A) → All P xs → All P (filter q xs)
  All-filter q [] h = h
  All-filter q (x ∷ xs) (p, h) = ground (arith, All-filter q xs h)

  -- What the filter tests for holds of what it keeps.
  pub All-filter_of :
      (q : A → Bool) → ((a : A) → q a ≡ true → P a) → (xs : List A) → All P (filter q xs)
  All-filter_of q keep [] = tt
  All-filter_of q keep (x ∷ xs) = ground (arith, keep x, All-filter_of q keep xs)

module _ {ℓ κ} {A : Type ℓ} (P : A → Type κ) (q : A → Bool) where
  pub All-find : (xs : List A) (a : A) → All P xs → find? q xs ≡ some a → P a
  All-find [] a h e = cc
  All-find (x ∷ xs) a (p, h) e = elim (Bool-cases (q x)) [
    | inl found ↦ subst P (ground arith) p
    | inr more ↦ All-find xs a h (ground arith)
  ]

  pub All-remove_first : (xs : List A) → All P xs → All P (remove_first q xs)
  All-remove_first [] h = tt
  All-remove_first (x ∷ xs) (p, h) = ground (arith, All-remove_first xs h)

-- What `find` returns passes the test.
pub find?-passes {ℓ} :
    {A : Type ℓ} (q : A → Bool) (xs : List A) (a : A) → find? q xs ≡ some a → q a ≡ true
find?-passes q [] a e = cc
find?-passes q (x ∷ xs) a e = elim (Bool-cases (q x)) [
  | inl found ↦ let same : x ≡ a = ground arith in subst (λ y. q y ≡ true) same found
  | inr more ↦ find?-passes q xs a (ground arith)
]

module _ {ℓ κ μ} {A : Type ℓ} (P : A → Type κ) (Q : A → Type μ) (f : (a : A) → P a → Q a) where
  pub All-weaken : (xs : List A) → All P xs → All Q xs
  All-weaken [] h = tt
  All-weaken (x ∷ xs) (p, h) = (f x p, All-weaken xs h)

pub includes-append :
    (xs ys : List String) (s : String) → includes (xs ++ ys) s ≡ (includes xs s || includes ys s)
includes-append [] ys s = refl
includes-append (x ∷ xs) ys s = ground (arith, includes-append xs ys s)

pub Distinct-snoc :
    (xs : List String) (s : String) → includes xs s ≡ false → Distinct xs → Distinct (xs ++ s ∷ [])
Distinct-snoc [] s h d = (refl, tt)
Distinct-snoc (x ∷ xs) s h (new, d) = (
  ground (arith, includes-append xs (s ∷ []) x, eq_iff x s, eq_iff s x),
  Distinct-snoc xs s (ground arith) d,
)

pub includes-filter :
    (p : String → Bool) (xs : List String) (s : String)
    → includes (filter p xs) s ≡ (includes xs s && p s)
includes-filter p [] s = refl
includes-filter p (x ∷ xs) s = ground (arith, eq_iff x s, includes-filter p xs s)

pub Distinct-filter : (p : String → Bool) (xs : List String) → Distinct xs → Distinct (filter p xs)
Distinct-filter p [] h = tt
Distinct-filter p (x ∷ xs) (new, h) = ground (arith, includes-filter p xs x, Distinct-filter p xs h)
