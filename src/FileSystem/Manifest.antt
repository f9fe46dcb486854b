-- ===== src/FileSystem/Manifest.antt =====
-- Reading the manifest back (code/FileSystemClient.cpp).
use mandeye_controller.Prelude.{
  ℕ, ◌+◌, ◌-◌, ◌*◌, ◌<◌, ◌≡◌, ◌≢◌, refl, ap, ◌∙◌, true, [], ◌∷◌, ◌++◌, arith, Text, All,
}
use mandeye_controller.Prelude.Int.{pos}
use mandeye_controller.Prelude.Decimal.{
  decimal, decimal_int, is_digit, decimal-IsDigit, read_from, read_from-decimal,
}
use mandeye_controller.FileSystem.{read_u32, read_digits, line_of, clamp32}

read_digits-read_from :
    (acc : ℕ) (s : Text)
    → All (λ c. is_digit c ≡ true) s
    → read_digits acc (s ++ 10 ∷ []) ≡ read_from acc s
unfolding read_digits read_from
read_digits-read_from acc [] h = refl
read_digits-read_from acc (c ∷ s) h = rw h.0 (read_digits-read_from (acc * 10 + (c - 48)) s h.1)

read_u32_number :
    (s : Text)
    → All (λ c. is_digit c ≡ true) s
    → s ≢ []
    → read_u32 (s ++ 10 ∷ []) ≡ clamp32 (read_digits 0 (s ++ 10 ∷ []))
unfolding read_u32
read_u32_number [] h ne = absurd (ne refl)
read_u32_number (c ∷ s) h ne = ground (arith, h.0)

-- A number below 2 ^ 32 that was printed into the manifest is read back.
pub read_u32-line_of : (n : ℕ) → n < 4294967296 → read_u32 (line_of (pos n)) ≡ n
unfolding decimal_int
read_u32-line_of n h =
    let (digits, some_digit) = decimal-IsDigit n in
    read_u32_number (decimal n) digits some_digit
    ∙ ap clamp32 (read_digits-read_from 0 (decimal n) digits ∙ read_from-decimal n)
    ∙ ground arith
