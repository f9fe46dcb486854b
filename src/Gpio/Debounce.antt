-- ===== src/Gpio/Debounce.antt =====
-- The read-back thread's debouncing (code/gpios.cpp).
use mandeye_controller.Prelude.{
  ℕ, ◌+◌, ◌^◌, ◌<◌, ◌≡◌, refl, ◌∙◌, Bool, true, false, not, ◌&&◌, List, [], ◌∷◌, arith, ltb,
  if◌then◌else◌, Text, length, map,
}
use mathlib.Core.Path.{ap₂}
use mandeye_controller.Gpio.{ButtonData, read_back}

-- The callbacks called at each round, and the button afterwards.
pub read_backs : List Bool → ButtonData → List (List Text) × ButtonData
read_backs [] b = ([], b)
read_backs (l ∷ ls) b =
    let (b', called) = read_back l b in let (rest, last) = read_backs ls b' in (called ∷ rest, last)

-- A round fires if the button is held, was held one round before, and not two rounds before:
-- once in each press, at its second round.
pub fires : Bool → Bool → List Bool → List Bool
fires before earlier [] = []
fires before earlier (l ∷ ls) = (l && (before && not earlier)) ∷ fires l before ls

fires_after_release : (a b : Bool) (ls : List Bool) → fires false a ls ≡ fires false b ls
unfolding fires
fires_after_release a b [] = refl
fires_after_release a b (l ∷ ls) = refl

read_back_held :
    (b : ButtonData)
    → b.pressed_time + 1 < 2 ^ 32
    → ((read_back true b).1
        ≡ (if ltb 0 b.pressed_time && not (ltb 1 b.pressed_time) then b.callbacks else []))
      × ((read_back true b).0.pressed_time ≡ b.pressed_time + 1)
      × ((read_back true b).0.callbacks ≡ b.callbacks)
unfolding read_back
read_back_held b h = (ground arith, ground arith, ground arith)

read_back_released :
    (b : ButtonData)
    → ((read_back false b).1 ≡ [])
      × ((read_back false b).0.pressed_time ≡ 0)
      × ((read_back false b).0.callbacks ≡ b.callbacks)
unfolding read_back
read_back_released b = (refl, refl, refl)

read_back_pressed :
    (l : Bool) (b : ButtonData) → b.pressed ≡ true → (read_back l b).0.pressed ≡ true
unfolding read_back
read_back_pressed l b h = ground arith

abbrev rounds : List Bool → List Text → ℕ → List (List Text)
rounds ls called t = map (λ fire. if fire then called else []) (fires (ltb 0 t) (ltb 1 t) ls)

fires_held :
    (ls : List Bool) (b : ButtonData)
    → ltb 0 (b.pressed_time + 1) ≡ true
    → ltb 1 (b.pressed_time + 1) ≡ ltb 0 b.pressed_time
    → rounds ls b.callbacks (b.pressed_time + 1)
      ≡ map (λ fire. if fire then b.callbacks else []) (fires true (ltb 0 b.pressed_time) ls)
fires_held ls b held later =
    ap₂ (λ p q. map (λ fire. if fire then b.callbacks else []) (fires p q ls)) held later

-- For fewer rounds than the 32-bit counter has values, a button calls all its callbacks once for
-- each press of two rounds or more, at the second round, and nothing at any other round.
pub read_backs-fires :
    (ls : List Bool) (b : ButtonData)
    → b.pressed_time + length ls < 2 ^ 32
    → (read_backs ls b).0
      ≡ map
          (λ fire. if fire then b.callbacks else [])
          (fires (ltb 0 b.pressed_time) (ltb 1 b.pressed_time) ls)
unfolding read_backs fires
read_backs-fires [] b h = refl
read_backs-fires (false ∷ ls) b h =
    let (called, time, same) = read_back_released b in
    let rest = read_backs-fires ls (read_back false b).0 (omega (arith, time)) in
    rw (fires_after_release (ltb 0 b.pressed_time) false ls)
      (ap₂ ◌∷◌ called (rw (time, same) at rest))
read_backs-fires (true ∷ ls) b h =
    let (called, time, same) = read_back_held b (omega arith) in
    let rest = read_backs-fires ls (read_back true b).0 (omega (arith, time)) in
    let later : ltb 1 (b.pressed_time + 1) ≡ ltb 0 b.pressed_time = ground arith in
    let held : ltb 0 (b.pressed_time + 1) ≡ true = ground arith in
    ap₂ ◌∷◌ called (rest ∙ ap₂ (rounds ls) same time ∙ fires_held ls b held later)

-- A button whose `pressed` flag is set keeps it, whatever the levels that are read.
pub pressed_stays :
    (ls : List Bool) (b : ButtonData) → b.pressed ≡ true → (read_backs ls b).1.pressed ≡ true
unfolding read_backs
pressed_stays [] b h = h
pressed_stays (l ∷ ls) b h = pressed_stays ls (read_back l b).0 (read_back_pressed l b h)
