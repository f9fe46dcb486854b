-- ===== src/FakePps/Sentence.antt =====
-- The sentence of code/fake_pps.cpp read back as a receiver reads it.
use Prim.Native.Nat.{bit_xor}
use mandeye_controller.Prelude.{
  ℕ, ◌+◌, ◌-◌, ◌*◌, ◌/◌, ◌%◌, ◌≤◌, ◌<◌, ◌≡◌, refl, ap, ◌∙◌, Bool, true, ◌&&◌, not, Option, none,
  some, [], ◌∷◌, ◌++◌, arith, ltb, ◌==◌, if◌then◌else◌, Bool-cases, inl, inr, Text, codes, All,
  length, length-append, take_all,
}
use mandeye_controller.Prelude.Decimal.{padded, length-padded_byte, padded-IsDigit, IsDigit}
use mandeye_controller.Gnss.{hex_digit}
use mandeye_controller.FakePps.{
  Timestamp, payload_of, checksum_from, produce_nmea, framed, hex_byte, buffer_len,
}

-- The text before the first '*' and the text after it.
unfoldable split_star : Text → Option (Text × Text)
split_star [] = none
split_star (c ∷ s) =
    let rest = split_star s in
    if c == 42
    then some ([], s)
    else elim rest [ none ↦ none | some (before, after) ↦ some (c ∷ before, after) ]

abbrev unhex : ℕ → ℕ
unhex c = if ltb c 58 then c - 48 else c - 55

abbrev with_checksum : Option (Text × Text) → Option (Text × ℕ)
with_checksum (some (payload, high ∷ low ∷ end ∷ [])) =
    if end == 10 then some (payload, unhex high * 16 + unhex low) else none
with_checksum _ = none

-- A sentence: '$', the payload, '*', the checksum in two hexadecimal digits and a line feed.
unfoldable pub read_sentence : Text → Option (Text × ℕ)
unfolding split_star
read_sentence [] = none
read_sentence (c ∷ s) = if c == 36 then with_checksum (split_star s) else none

no_star : Text → Bool
no_star [] = true
no_star (c ∷ s) = not (c == 42) && no_star s

no_star-append : (s t : Text) → no_star s ≡ true → no_star t ≡ true → no_star (s ++ t) ≡ true
unfolding no_star
no_star-append [] t h k = k
no_star-append (c ∷ s) t h k = ground (arith, no_star-append s t)

no_star-digits : (s : Text) → All IsDigit s → no_star s ≡ true
unfolding no_star
no_star-digits [] h = refl
no_star-digits (c ∷ s) h = ground (arith, h.0, no_star-digits s h.1)

no_star-two : (n : ℕ) (s : Text) → no_star s ≡ true → no_star (padded 2 n ++ s) ≡ true
no_star-two n s h =
    no_star-append (padded 2 n) s (no_star-digits (padded 2 n) (padded-IsDigit 2 n)) h

split_star-append : (s t : Text) → no_star s ≡ true → split_star (s ++ (42 ∷ t)) ≡ some (s, t)
unfolding no_star split_star
split_star-append [] t h = refl
split_star-append (c ∷ s) t h = elim (Bool-cases (c == 42)) [
  | inl star ↦ absurd (ground (arith, star))
  | inr other ↦ rw (other, split_star-append s t (ground arith)) refl
]

no_star-constants :
    (no_star (codes "GPRMC,") ≡ true)
    × ((no_star (codes ".00,A,5109.0262308,N,11401.8407342,W,0.004,133.4,") ≡ true)
        × (no_star (codes ",0.0,E,D") ≡ true))
unfolding no_star
no_star-constants = (refl, (refl, refl))

no_star-payload_of : (ts : Timestamp) → no_star (payload_of ts) ≡ true
unfolding payload_of
no_star-payload_of ts = no_star-append (codes "GPRMC,") _ no_star-constants.0 (
    no_star-two ts.hours _ (
      no_star-two ts.mins _ (
        no_star-two ts.secs _ (
          no_star-append (codes ".00,A,5109.0262308,N,11401.8407342,W,0.004,133.4,") _
            no_star-constants.1.0
            (no_star-two ts.day _
              (no_star-two ts.month _ (no_star-two ts.year _ no_star-constants.1.1)))))))

-- Each field is a uint8_t.
abbrev pub AreBytes : Timestamp → Type 0
AreBytes ts =
    (ts.hours < 256)
    × ((ts.mins < 256)
        × ((ts.secs < 256) × ((ts.day < 256) × ((ts.month < 256) × (ts.year < 256)))))

length-payload_of : (ts : Timestamp) → AreBytes ts → length (payload_of ts) ≤ 90
unfolding payload_of
length-payload_of ts (h, (m, (s, (d, (mo, y))))) =
    rw
      (
        length-append (codes "GPRMC,"),
        length-append (padded 2 ts.hours),
        length-append (padded 2 ts.mins),
        length-append (padded 2 ts.secs),
        length-append (codes ".00,A,5109.0262308,N,11401.8407342,W,0.004,133.4,"),
        length-append (padded 2 ts.day),
        length-append (padded 2 ts.month),
        length-append (padded 2 ts.year),
      )
      (omega (
        arith,
        length-padded_byte ts.hours h,
        length-padded_byte ts.mins m,
        length-padded_byte ts.secs s,
        length-padded_byte ts.day d,
        length-padded_byte ts.month mo,
        length-padded_byte ts.year y,
      ))

checksum-byte : (sum : ℕ) (s : Text) → sum < 256 → checksum_from sum s < 256
unfolding checksum_from
checksum-byte sum [] h = h
checksum-byte sum (c ∷ s) h = checksum-byte (bit_xor sum c % 256) s (omega arith)

unhex-hex_digit : (d : ℕ) → d < 16 → unhex (hex_digit d) ≡ d
unhex-hex_digit d h = ground arith

with_checksum-hex_byte :
    (s : Text) (n : ℕ) → n < 256 → with_checksum (some (s, hex_byte n ++ (10 ∷ []))) ≡ some (s, n)
with_checksum-hex_byte s n h =
    ap (λ k. some (s, k))
      (ap (λ k. k * 16 + unhex (hex_digit (n % 16))) (unhex-hex_digit (n / 16) (omega (arith, h)))
        ∙ ap (λ k. n / 16 * 16 + k) (unhex-hex_digit (n % 16) (omega arith))
        ∙ omega arith)

read_sentence-framed :
    (payload : Text)
    → no_star payload ≡ true
    → length payload ≤ 90
    → (read_sentence (framed payload) ≡ some (payload, checksum_from 0 payload))
      × (length (framed payload) < buffer_len)
unfolding framed read_sentence
read_sentence-framed payload free short =
    let sum = checksum_from 0 payload in
    let end = hex_byte sum ++ (10 ∷ []) in
    let size = length-append payload (42 ∷ end) in
    rw
      (
        take_all 127 payload (omega (arith, short)),
        take_all 126 (payload ++ (42 ∷ end)) (omega (arith, short, size)),
      )
      (
        ap with_checksum (split_star-append payload end free)
            ∙ with_checksum-hex_byte payload sum (checksum-byte 0 payload (omega arith)),
        omega (arith, short, size),
      )

-- The sentence of any time fits its buffer uncut, and a receiver that splits it at the '*' and
-- reads the two digits gets the whole payload and the payload's checksum.
pub read_sentence-produce_nmea :
    (ts : Timestamp)
    → AreBytes ts
    → (read_sentence (produce_nmea ts) ≡ some (payload_of ts, checksum_from 0 (payload_of ts)))
      × (length (produce_nmea ts) < buffer_len)
unfolding produce_nmea
read_sentence-produce_nmea ts bytes =
    read_sentence-framed (payload_of ts) (no_star-payload_of ts) (length-payload_of ts bytes)
