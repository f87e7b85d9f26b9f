-- ===== src/Prelude/Decimal.antt =====
-- Texts character by character: their decimal values, and that a number's text is read back.
use Prim.Native.Nat.{ℕ, zero, suc, ◌+◌, ◌-◌, ◌*◌, ◌/◌, ◌%◌, ◌<◌}
use Prim.Native.Char.{code}
use Prim.Native.String.{String}
use mathlib.Core.Path.{◌≡◌, refl, subst, ◌∙◌, ap}
use mathlib.Core.Bool.{Bool, true, ◌&&◌}
use mathlib.Core.List.{List, [], ◌∷◌}
use mathlib.Core.Logic.{inl, inr}
use native.Mathlib.Omega.{arith}
use text.Mathlib.TextLemmas.{nil-append, cons-append}
use looms.Prelude.Tests.{ltb, leb, Bool-cases}
use looms.Prelude.Lists.{length}
use looms.Prelude.Text.{◌<>◌, show, show_from, digit}

-- The value of a text of digits, after those that make up a number.
unfoldable pub value_from : ℕ → String → ℕ
value_from n String.[] = n
value_from n (String.◌∷◌ c s) = value_from (n * 10 + (code c - 48)) s

abbrev is_digit : ℕ → Bool
is_digit c = leb 48 c && leb c 57

unfoldable pub all_digits : String → Bool
all_digits String.[] = true
all_digits (String.◌∷◌ c s) = is_digit (code c) && all_digits s

pub value_from-append :
    (n : ℕ) (s t : String) → value_from n (s <> t) ≡ value_from (value_from n s) t
unfolding value_from
value_from-append n String.[] t = rw (nil-append t) refl
value_from-append n (String.◌∷◌ c s) t =
    rw (cons-append c s t) (value_from-append (n * 10 + (code c - 48)) s t)

pub all_digits-append : (s t : String) → all_digits (s <> t) ≡ (all_digits s && all_digits t)
unfolding all_digits
all_digits-append String.[] t = rw (nil-append t) refl
all_digits-append (String.◌∷◌ c s) t =
    rw (cons-append c s t) (ground (arith, all_digits-append s t))

abbrev alphabet : List String
alphabet = "0" ∷ "1" ∷ "2" ∷ "3" ∷ "4" ∷ "5" ∷ "6" ∷ "7" ∷ "8" ∷ "9" ∷ []

-- A text of one digit, with the value that it reads as.
abbrev Reads : ℕ → String → Type 0
Reads d s = ((n : ℕ) → value_from n s ≡ n * 10 + d) × (all_digits s ≡ true)

-- Texts that read as a number, the next one, and so on.
abbrev Successive : ℕ → List String → Type 0
Successive d [] = Unit
Successive d (s ∷ ss) = Reads d s × Successive (suc d) ss

alphabet-Successive : Successive 0 alphabet
unfolding value_from all_digits
alphabet-Successive = (
  (λ n. omega arith, refl),
  (
    (λ n. omega arith, refl),
    (
      (λ n. omega arith, refl),
      (
        (λ n. omega arith, refl),
        (
          (λ n. omega arith, refl),
          (
            (λ n. omega arith, refl),
            (
              (λ n. omega arith, refl),
              (
                (λ n. omega arith, refl),
                ((λ n. omega arith, refl), ((λ n. omega arith, refl), tt)),
              ),
            ),
          ),
        ),
      ),
    ),
  ),
)

digit-Reads :
    (d k : ℕ) (ss : List String) → Successive d ss → k < length ss → Reads (d + k) (digit ss k)
unfolding digit
digit-Reads d k [] h below = absurd (omega arith)
digit-Reads d zero (s ∷ ss) (h, hs) below = subst (λ v. Reads v s) (omega arith) h
digit-Reads d (suc k) (s ∷ ss) (h, hs) below =
    subst (λ v. Reads v (digit ss k)) (omega arith) (digit-Reads (suc d) k ss hs (omega arith))

-- A text of digits with its value.
abbrev IsDecimal : ℕ → String → Type 0
IsDecimal n s = (value_from 0 s ≡ n) × (all_digits s ≡ true)

show_from-IsDecimal : (fuel n : ℕ) → n < fuel → IsDecimal n (show_from fuel n)
unfolding show_from
show_from-IsDecimal zero n h = absurd (omega arith)
show_from-IsDecimal (suc fuel) n h =
    let last = digit alphabet (n % 10) in
    let (reads, digits) = digit-Reads 0 (n % 10) alphabet alphabet-Successive (omega arith) in
    elim (Bool-cases (ltb n 10)) [
      | inl small ↦ rw small (ground (arith, reads 0), digits)
      | inr large ↦
          let (more, mores) = show_from-IsDecimal fuel (n / 10) (ground arith) in
          rw large (
            value_from-append 0 (show_from fuel (n / 10)) last
                ∙ (ap (λ v. value_from v last) more ∙ (reads (n / 10) ∙ omega arith)),
            ground (arith, all_digits-append (show_from fuel (n / 10)) last),
          )
    ]

-- A number's text is of digits, and reads as the number.
pub show-IsDecimal : (n : ℕ) → (value_from 0 (show n) ≡ n) × (all_digits (show n) ≡ true)
unfolding show
show-IsDecimal n = show_from-IsDecimal (suc n) n (omega arith)
