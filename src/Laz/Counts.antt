-- ===== src/Laz/Counts.antt =====
-- The decimation of code/save_laz.cpp: the step, and the counting loop against a list that keeps
-- one element in `step`.
use native.Mathlib.Nat.{suc-mul, mul-le-mul_right}
use mandeye_controller.Prelude.{
  ℕ, zero, suc, ◌+◌, ◌-◌, ◌*◌, ◌≤◌, ◌<◌, ◌≡◌, refl, sym, ap, ◌∙◌, some, List, [], ◌∷◌, arith, ltb,
  inl, inr, Bool-cases, length, get_elem?, ◌/◌,
}
use mandeye_controller.Laz.{decimation_step, count_points}

-- Past the first `skip` elements, an element and then one after every `step`.
unfoldable pub thinned {ℓ} : {A : Type ℓ} → (step skip : ℕ) → List A → List A
thinned step skip [] = []
thinned step zero (a ∷ xs) = a ∷ thinned step (step - 1) xs
thinned step (suc skip) (a ∷ xs) = thinned step skip xs

module _ {ℓ} {A : Type ℓ} (step : ℕ) (positive : 0 < step) where
  pub thinned_end : (i : ℕ) (xs : List A) → length xs ≤ i → thinned step i xs ≡ []
  unfolding thinned
  thinned_end i [] h = refl
  thinned_end zero (a ∷ xs) h = absurd (omega (arith, h))
  thinned_end (suc i) (a ∷ xs) h = thinned_end i xs (omega (arith, h))

  thinned_past :
      (k : ℕ) (a : A) (xs : List A) → 0 < k → thinned step k (a ∷ xs) ≡ thinned step (k - 1) xs
  unfolding thinned
  thinned_past zero a xs h = absurd (omega (arith, h))
  thinned_past (suc k) a xs h = ap (λ j. thinned step j xs) (omega arith)

  -- The elements that the loops visit from index `i`.
  pub thinned_at :
      (i : ℕ) (xs : List A)
      → i < length xs
      → (a : A) × ((get_elem? xs i ≡ some a) × (thinned step i xs ≡ a ∷ thinned step (i + step) xs))
  unfolding thinned
  thinned_at i [] h = absurd (omega (arith, h))
  thinned_at zero (a ∷ xs) h = (
    a,
    (
      refl,
      ap (λ j. a ∷ thinned step j xs) (omega arith)
          ∙ ap (◌∷◌ a) (sym (thinned_past (0 + step) a xs (omega (arith, positive)))),
    ),
  )
  thinned_at (suc i) (a ∷ xs) h =
      let (b, (at, rest)) = thinned_at i xs (omega (arith, h)) in
      (
        b,
        (
          at,
          rest
              ∙ ap (λ j. b ∷ thinned step j xs) (omega arith)
              ∙ ap (◌∷◌ b) (sym (thinned_past (suc i + step) a xs (omega arith))),
        ),
      )

  -- The counting loop ends and counts what is kept.
  pub count_points-thinned :
      (fuel i n : ℕ) (xs : List A)
      → 0 < fuel
      → length xs < fuel + i
      → count_points fuel i step (length xs) n ≡ some (n + length (thinned step i xs))
  unfolding count_points
  count_points-thinned zero i n xs some_left h = absurd (omega (arith, some_left))
  count_points-thinned (suc fuel) i n xs some_left h = elim (Bool-cases (ltb i (length xs))) [
    | inr past ↦ rw (past, thinned_end i xs (ground arith)) (ap some (omega arith))
    | inl inside ↦
        let below : i < length xs = ground arith in
        let (a, (at, rest)) = thinned_at i xs (ground arith) in
        rw (inside, rest)
          (count_points-thinned fuel (i + step) (n + 1) xs (omega (arith, h, below))
              (omega (arith, h, positive))
            ∙ ap some (omega arith))
  ]

  -- How many are kept.
  pub length-thinned :
      (i : ℕ) (xs : List A)
      → i < length xs
      → (length xs ≤ i + length (thinned step i xs) * step)
        × (i + length (thinned step i xs) * step < length xs + step)
  unfolding thinned
  length-thinned i [] h = absurd (omega (arith, h))
  length-thinned (suc i) (a ∷ xs) h =
      let (low, high) = length-thinned i xs (omega (arith, h)) in
      (omega (arith, low), omega (arith, high))
  length-thinned zero (a ∷ xs) h = elim (Bool-cases (ltb (step - 1) (length xs))) [
    | inl inside ↦
        let (low, high) = length-thinned (step - 1) xs (ground arith) in
        let more = suc-mul (length (thinned step (step - 1) xs)) step in
        (omega (arith, low, more, positive), omega (arith, high, more, positive))
    | inr past ↦ rw (thinned_end (step - 1) xs (ground arith)) (ground arith, omega arith)
  ]

thinned_all {ℓ} : {A : Type ℓ} (xs : List A) → thinned 1 0 xs ≡ xs
unfolding thinned
thinned_all [] = refl
thinned_all (x ∷ xs) = ap (◌∷◌ x) (thinned_all xs)

pub decimation_step-positive : (size : ℕ) → 0 < decimation_step size
unfolding decimation_step
decimation_step-positive size = ground arith

big_step : (size : ℕ) → 4000000 < size → decimation_step size ≡ (size + 1999999) / 2000000
unfolding decimation_step
big_step size h = ground arith

small_step : (size : ℕ) → size ≤ 4000000 → decimation_step size ≡ 1
unfolding decimation_step
small_step size h = ground arith

-- A count that a step of the ceiling of size / 2000000 leaves.
big_count :
    (size step n : ℕ)
    → 4000000 < size
    → step ≡ (size + 1999999) / 2000000
    → size ≤ n * step
    → n * step < size + step
    → (1333334 ≤ n) × (n ≤ 2000000)
big_count size step n big e low high = (
  elim (Bool-cases (ltb n 1333334)) [
    | inr more ↦ ground arith
    | inl few ↦
        let at_most : n ≤ 1333333 = ground arith in
        absurd (omega (arith, mul-le-mul_right step at_most, big, e, low))
  ],
  elim (Bool-cases (ltb 2000000 n)) [
    | inr fine ↦ ground arith
    | inl many ↦
        let at_least : 2000001 ≤ n = ground arith in
        absurd (omega (arith, mul-le-mul_right step at_least, big, e, high))
  ],
)

-- Up to four million points a file has them all, and of more it has at least 1333334 and at most
-- two million.
pub count_points-bounds {ℓ} :
    {A : Type ℓ} (buffer : List A)
    → let size = length buffer in
      (num_points : ℕ) × ((count_points (suc size) 0 (decimation_step size) size 0
          ≡ some num_points)
        × ((size ≤ 4000000 → num_points ≡ size)
            × (4000000 < size → (1333334 ≤ num_points) × (num_points ≤ 2000000))))
count_points-bounds buffer =
    let size = length buffer in
    let step = decimation_step size in
    let n = length (thinned step 0 buffer) in
    let positive = decimation_step-positive size in
    let counted =
      count_points-thinned step positive (suc size) 0 0 buffer (omega arith) (omega arith) in
    let rounds = length-thinned step positive 0 buffer in
    let bounds : 4000000 < size → (1333334 ≤ n) × (n ≤ 2000000) = λ big.
      let (low, high) = rounds (omega (arith, big)) in
      big_count size step n big (big_step size big) (omega (arith, low)) (omega (arith, high)) in
    let all : size ≤ 4000000 → n ≡ size =
      λ small. rw (small_step size small, thinned_all buffer) refl in
    (n, (counted ∙ ap some (omega arith), (all, bounds)))
