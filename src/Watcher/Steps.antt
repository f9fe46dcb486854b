-- ===== src/Watcher/Steps.antt =====
-- The steps that stateWatcher of code/main.cpp is made of. Where it waits, for sync too, or reads a
-- clock, the next batch of the schedule happens.
use mandeye_controller.Prelude.{
  ℕ, ◌+◌, Bool, Option, none, some, List, [], ◌∷◌, if◌then◌else◌, is_some,
}
use mandeye_controller.States.{States}
use mandeye_controller.Hardware.{
  Led, led_gpio_stop_scan, led_gpio_copy_data, led_gpio_continous_scanning,
}
use mandeye_controller.Livox.{Doubles}
use mandeye_controller.Gnss.{Minmea}
use mandeye_controller.Gpio
use mandeye_controller.App.{World, apply_all, ms}

-- `crashed` is a null pointer that is dereferenced, or an assertion that fails; `aborted` is the
-- std::abort of ReportState.
pub data Outcome (G : Type 0) (A : Type 0) : Type 0 where
  done : A → World G → Outcome G A
  crashed : Outcome G A
  aborted : World G → Outcome G A

abbrev pub M : Type 0 → Type 0 → Type 0
M G A = World G → Outcome G A

infixl 5 ◌>>=◌ ◌>>◌
abbrev pub ◌>>=◌ : {G A B : Type 0} → M G A → (A → M G B) → M G B
◌>>=◌ m f w = elim (m w) [ done a v ↦ f a v | crashed ↦ crashed | aborted v ↦ aborted v ]

abbrev pub ◌>>◌ : {G B : Type 0} → M G (Unit {0}) → M G B → M G B
◌>>◌ m k w = elim (m w) [ done a v ↦ k v | crashed ↦ crashed | aborted v ↦ aborted v ]

abbrev pub skip : {G : Type 0} → M G (Unit {0})
skip w = done tt w

abbrev pub crash : {G A : Type 0} → M G A
crash w = crashed

abbrev pub modify : {G : Type 0} → (World G → World G) → M G (Unit {0})
modify f w = done tt (f w)

abbrev pub get : {G A : Type 0} → (World G → A) → M G A
get f w = done (f w) w

abbrev pub when : {G : Type 0} → Bool → M G (Unit {0}) → M G (Unit {0})
when b m w = if b then m w else done tt w

abbrev pub become : {G : Type 0} → States → M G (Unit {0})
become s w = done tt (record w { app_state = s })

-- The rest of a call through a pointer that may be null.
abbrev pub through : {G A B : Type 0} → Option A → (A → Outcome G B) → Outcome G B
through none f = crashed
through (some a) f = f a

unfoldable pub set_led : {G : Type 0} → Led → Bool → M G (Unit {0})
set_led led state w =
    through w.gpio
      (λ c. through (Gpio.set_led led state c) (λ d. done tt (record w { gpio = some d })))

unfoldable pub three_leds : {G : Type 0} → Bool → Bool → Bool → M G (Unit {0})
three_leds stop_scan copy_data continous = do
  set_led led_gpio_stop_scan stop_scan
  set_led led_gpio_copy_data copy_data
  set_led led_gpio_continous_scanning continous

-- `if(gpioClientPtr)`.
abbrev pub if_gpio : {G : Type 0} → M G (Unit {0}) → M G (Unit {0})
if_gpio m w = when (is_some w.gpio) m w

abbrev total : List ℕ → ℕ
total [] = 0
total (n ∷ ns) = n + total ns

module _ {G : Type 0} ⦃fl : Doubles⦄ ⦃mm : Minmea G⦄ where
  unfoldable pub next_batch : World G → World G
  next_batch w = elim w.schedule [
    | [] ↦ w
    | es ∷ rest ↦ apply_all es (record w { schedule = rest })
  ]

  unfoldable pub sleep : ℕ → M G (Unit {0})
  unfolding next_batch
  sleep millis w = done tt (next_batch (record w { clock = w.clock + ms millis }))

  unfoldable pub now : M G ℕ
  unfolding next_batch
  now w = let v = next_batch w in done v.clock v

  -- system("sync").
  unfoldable pub sync : M G (Unit {0})
  unfolding next_batch
  sync w = done tt (next_batch w)

  -- The events that happen while it waits between its writes are put after the last one.
  unfoldable pub beep : List ℕ → M G (Unit {0})
  unfolding sleep
  beep durations w = through w.gpio (λ c.
      if c.use_simulated_gpio
      then done tt w
      else sleep (total durations) (record w { gpio = some (Gpio.beep durations c) }))
