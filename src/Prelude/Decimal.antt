-- ===== src/Prelude/Decimal.antt =====
-- Decimal numbers as the program prints them, and reading them back.
use Prim.Native.Nat.{ℕ, zero, suc, ◌+◌, ◌-◌, ◌*◌, ◌/◌, ◌%◌, ◌<◌, ◌≤◌}
use mathlib.Core.Path.{◌≡◌, refl, sym, ◌∙◌, ap}
use mathlib.Core.Logic.{◌≢◌, inl, inr}
use mathlib.Core.Bool.{Bool, true, ◌&&◌}
use mathlib.Core.List.{[], ◌∷◌, ◌++◌}
use native.Mathlib.Omega.{arith}
use mandeye_controller.Prelude.Tests.{leb, ltb, lt→ltb, if◌then◌else◌, Bool-cases}
use mandeye_controller.Prelude.Lists.{
  All, length, replicate, length-append, length-replicate, All-append, All-replicate,
}
use mandeye_controller.Prelude.Bytes.{Text}
use mandeye_controller.Prelude.Int.{ℤ, pos, negsuc}

digits_onto : ℕ → ℕ → Text → Text
digits_onto zero n rest = rest
digits_onto (suc fuel) n rest =
    let more = digits_onto fuel (n / 10) ((n % 10 + 48) ∷ rest) in
    if ltb n 10 then (n + 48) ∷ rest else more

-- A number as `<<` and %d print it.
unfoldable pub decimal : ℕ → Text
unfolding digits_onto
decimal n = digits_onto (suc n) n []

unfoldable pub decimal_int : ℤ → Text
decimal_int (pos n) = decimal n
decimal_int (negsuc n) = 45 ∷ decimal (suc n)

-- %0wd of a number that is not negative.
unfoldable pub padded : ℕ → ℕ → Text
padded width n = replicate (width - length (decimal n)) 48 ++ decimal n

-- %0wd of an int: the sign counts.
unfoldable pub padded_int : ℕ → ℤ → Text
padded_int width (pos n) = padded width n
padded_int width (negsuc n) = 45 ∷ padded (width - 1) (suc n)

unfoldable pub read_from : ℕ → Text → ℕ
read_from acc [] = acc
read_from acc (c ∷ s) = read_from (acc * 10 + (c - 48)) s

read_from-digits_onto :
    (fuel n : ℕ) (rest : Text) → n < fuel → read_from 0 (digits_onto fuel n rest) ≡ read_from n rest
unfolding digits_onto read_from
read_from-digits_onto zero n rest h = absurd (omega arith)
read_from-digits_onto (suc fuel) n rest h = elim (Bool-cases (ltb n 10)) [
  | inl small ↦
      rw small (ap (λ k. read_from k rest) (let e : 0 * 10 + (n + 48 - 48) ≡ n = omega arith in e))
  | inr big ↦ rw big (
      read_from-digits_onto fuel (n / 10) ((n % 10 + 48) ∷ rest) (ground arith)
      ∙ ap (λ k. read_from k rest)
          (let e : n / 10 * 10 + (n % 10 + 48 - 48) ≡ n = omega arith in e))
]

pub read_from-decimal : (n : ℕ) → read_from 0 (decimal n) ≡ n
unfolding decimal read_from
read_from-decimal n = read_from-digits_onto (suc n) n [] (omega arith)

read_from-zeros : (k : ℕ) (s : Text) → read_from 0 (replicate k 48 ++ s) ≡ read_from 0 s
unfolding read_from
read_from-zeros zero s = refl
read_from-zeros (suc k) s = read_from-zeros k s

pub read_from-padded : (width n : ℕ) → read_from 0 (padded width n) ≡ n
unfolding padded
read_from-padded width n =
    read_from-zeros (width - length (decimal n)) (decimal n) ∙ read_from-decimal n

-- Different numbers print differently.
pub padded-injective : (width m n : ℕ) → padded width m ≡ padded width n → m ≡ n
padded-injective width m n e =
    sym (read_from-padded width m) ∙ ap (read_from 0) e ∙ read_from-padded width n

abbrev pub is_digit : ℕ → Bool
is_digit c = leb 48 c && leb c 57

digits_onto-IsDigit :
    (fuel n : ℕ) (rest : Text)
    → n < fuel
    → All (λ c. is_digit c ≡ true) rest
    → All (λ c. is_digit c ≡ true) (digits_onto fuel n rest) × (digits_onto fuel n rest ≢ [])
unfolding digits_onto
digits_onto-IsDigit zero n rest h k = absurd (omega arith)
digits_onto-IsDigit (suc fuel) n rest h k = elim (Bool-cases (ltb n 10)) [
  | inl small ↦ rw small ((ground arith, k), λ e. cc)
  | inr big ↦
      rw big
        (digits_onto-IsDigit fuel (n / 10) ((n % 10 + 48) ∷ rest) (ground arith) (ground arith, k))
]

-- A printed number is a row of digits, one at least.
pub decimal-IsDigit : (n : ℕ) → All (λ c. is_digit c ≡ true) (decimal n) × (decimal n ≢ [])
unfolding decimal
decimal-IsDigit n = digits_onto-IsDigit (suc n) n [] (omega arith) tt

module _ (bound digits : ℕ) where
  -- `fuel` is enough for a number below `bound`, or the printed number is cut short.
  abbrev IsShort : Type 0
  IsShort =
      (fuel n : ℕ) (rest : Text)
      → n < bound
      → length (digits_onto fuel n rest) ≤ digits + length rest

short_1 : IsShort 10 1
unfolding digits_onto
short_1 zero n rest h = omega arith
short_1 (suc fuel) n rest h = rw (lt→ltb n 10 h) (omega arith)

short_more : (b d : ℕ) → 0 < d → IsShort b d → IsShort (10 * b) (suc d)
unfolding digits_onto
short_more b d positive short zero n rest h = omega arith
short_more b d positive short (suc fuel) n rest h = elim (Bool-cases (ltb n 10)) [
  | inl small ↦ rw small (omega (arith, positive))
  | inr big ↦
      let less = short fuel (n / 10) ((n % 10 + 48) ∷ rest) (omega (arith, h)) in
      rw big (omega (arith, less))
]

length-decimal_3 : (n : ℕ) → n < 1000 → length (decimal n) ≤ 3
unfolding decimal
length-decimal_3 n h =
    short_more 100 2 (omega arith) (short_more 10 1 (omega arith) short_1) (suc n) n [] h

-- A uint8_t printed with %02d has three bytes at most.
pub length-padded_byte : (n : ℕ) → n < 256 → length (padded 2 n) ≤ 3
unfolding padded
length-padded_byte n h =
    let short = length-decimal_3 n (omega (arith, h)) in
    rw (length-append (replicate (2 - length (decimal n)) 48) (decimal n), length-replicate)
      (omega (arith, short))

abbrev pub IsDigit : ℕ → Type 0
IsDigit c = is_digit c ≡ true

pub padded-IsDigit : (width n : ℕ) → All IsDigit (padded width n)
unfolding padded
padded-IsDigit width n =
    All-append IsDigit (replicate (width - length (decimal n)) 48) (decimal n)
      (All-replicate IsDigit _ 48 refl) (decimal-IsDigit n).0
