-- ===== src/Watcher/Timing.antt =====
-- The deadlines of a stop scan in stateWatcher: what its steps and the other threads leave of the
-- clock, of the deadlines and, in the states of a stop scan, of the state.
use mandeye_controller.Prelude.{ℕ, ◌+◌, ◌≤◌, ◌≡◌, refl, ap, ◌∙◌, Bool, false, List, [], ◌∷◌, arith}
use mandeye_controller.Hardware.{
  Led, led_gpio_stop_scan, led_gpio_copy_data, led_gpio_continous_scanning, button_stop_scan,
  button_continous_scanning,
}
use mandeye_controller.Livox.{Doubles}
use mandeye_controller.Gnss.{Minmea}
use mandeye_controller.Gpio
use mandeye_controller.App.{
  World, Event, apply, apply_all, press, request_start, request_stop, request_stop_scan, livox_made,
  gnss_made, gpio_made, publisher_made, lidar_failed, livox_event, gnss_line, clock_advances,
  laz_saves, disk_opens, led_set, callback_added, livox_started, trigger_continous_scanning,
  trigger_stop_scan, start_scan, stop_scan, ms,
}
use mandeye_controller.App.Triggers.{listens, apply_all-quiet}
use mandeye_controller.Watcher.Steps.{M, ◌>>◌, when, set_led, three_leds, next_batch, sleep}
use mandeye_controller.Watcher.Changes.{Does, does, Ends-through, does_seq, does_when}

-- Time goes on, and the deadlines stay.
abbrev pub Ticks : {G : Type 0} → World G → World G → Type 0
Ticks w v =
    (w.clock ≤ v.clock)
    × ((v.stop_scan_initial_deadline ≡ w.stop_scan_initial_deadline)
        × (v.stop_scan_deadline ≡ w.stop_scan_deadline))

-- And so does a state that listens to no trigger.
abbrev pub Steady : {G : Type 0} → World G → World G → Type 0
Steady w v = Ticks w v × (listens w.app_state ≡ false → v.app_state ≡ w.app_state)

module _ {G : Type 0} where
  pub Ticks-refl : (w : World G) → Ticks w w
  Ticks-refl w = (omega arith, (refl, refl))

  pub Ticks-trans : (w v u : World G) → Ticks w v → Ticks v u → Ticks w u
  Ticks-trans w v u (a, (b, c)) (a', (b', c')) = (omega arith, (b' ∙ b, c' ∙ c))

  pub Steady-refl : (w : World G) → Steady w w
  Steady-refl w = (Ticks-refl w, λ quiet. refl)

  pub Steady-trans : (w v u : World G) → Steady w v → Steady v u → Steady w u
  Steady-trans w v u (t, s) (t', s') =
      (Ticks-trans w v u t t', λ quiet. s' (ap listens (s quiet) ∙ quiet) ∙ s quiet)

  trigger_stop_scan-Ticks : (w : World G) → Ticks w (trigger_stop_scan w).1
  unfolding trigger_stop_scan
  trigger_stop_scan-Ticks w = (ground arith, (ground arith, ground arith))

  start_scan-Ticks : (w : World G) → Ticks w (start_scan w).1
  unfolding start_scan
  start_scan-Ticks w = (ground arith, (ground arith, ground arith))

  stop_scan-Ticks : (w : World G) → Ticks w (stop_scan w).1
  unfolding stop_scan
  stop_scan-Ticks w = (ground arith, (ground arith, ground arith))

  trigger_continous_scanning-Ticks : (w : World G) → Ticks w (trigger_continous_scanning w).1
  unfolding trigger_continous_scanning
  trigger_continous_scanning-Ticks w = (ground arith, (ground arith, ground arith))

module _ {G : Type 0} ⦃fl : Doubles⦄ ⦃mm : Minmea G⦄ where
  apply-Ticks : (e : Event G) (w : World G) → Ticks w (apply e w)
  unfolding apply
  apply-Ticks (press button_stop_scan) w = trigger_stop_scan-Ticks w
  apply-Ticks (press button_continous_scanning) w = trigger_continous_scanning-Ticks w
  apply-Ticks request_start w = start_scan-Ticks w
  apply-Ticks request_stop w = stop_scan-Ticks w
  apply-Ticks request_stop_scan w = trigger_stop_scan-Ticks w
  apply-Ticks (clock_advances n) w = (omega arith, (refl, refl))
  apply-Ticks (livox_made c) w = Ticks-refl w
  apply-Ticks (gnss_made c) w = Ticks-refl w
  apply-Ticks (gpio_made c) w = Ticks-refl w
  apply-Ticks publisher_made w = Ticks-refl w
  apply-Ticks lidar_failed w = Ticks-refl w
  apply-Ticks (livox_event e) w = Ticks-refl w
  apply-Ticks (gnss_line line millis) w = Ticks-refl w
  apply-Ticks (laz_saves b) w = Ticks-refl w
  apply-Ticks (disk_opens b) w = Ticks-refl w
  apply-Ticks (led_set l state) w = Ticks-refl w
  apply-Ticks (callback_added b name) w = Ticks-refl w
  apply-Ticks (livox_started ok) w = Ticks-refl w

  apply_all-Ticks : (es : List (Event G)) (w : World G) → Ticks w (apply_all es w)
  unfolding apply_all
  apply_all-Ticks [] w = Ticks-refl w
  apply_all-Ticks (e ∷ es) w =
      Ticks-trans w (apply e w) (apply_all es (apply e w)) (apply-Ticks e w)
        (apply_all-Ticks es (apply e w))

  batch_at :
      (s : List (List (Event G))) (w : World G)
      → Steady w (elim s [ [] ↦ w | es ∷ rest ↦ apply_all es (record w { schedule = rest }) ])
  batch_at [] w = Steady-refl w
  batch_at (es ∷ rest) w =
      let v : World G = record w { schedule = rest } in
      (apply_all-Ticks es v, λ quiet. apply_all-quiet es v quiet)

  pub next_batch-Steady : (w : World G) → Steady w (next_batch w)
  unfolding next_batch
  next_batch-Steady w = batch_at w.schedule w

  pub wait : (millis : ℕ) → Does {G = G} Steady (sleep millis)
  unfolding sleep
  wait millis = does (λ w.
      let v : World G = record w { clock = w.clock + ms millis } in
      Steady-trans w v (next_batch v) ((omega arith, (refl, refl)), λ quiet. refl)
        (next_batch-Steady v))

  pub led : (l : Led) (state : Bool) → Does {G = G} Steady (set_led l state)
  unfolding set_led
  led l state = does (λ w.
      Ends-through (Steady w) w.gpio _
        λ c. Ends-through (Steady w) (Gpio.set_led l state c) _ λ d. Steady-refl w)

  pub seq : {m k : M G (Unit {0})} → Does Steady m → Does Steady k → Does Steady (◌>>◌ m k)
  seq h g = does_seq Steady Steady-refl Steady-trans h g

  pub when_now :
      (b : World G → Bool) {m : M G (Unit {0})} → Does Steady m → Does Steady (λ w. when (b w) m w)
  when_now b h = does_when Steady Steady-refl Steady-trans b h

  pub three : (a b c : Bool) → Does {G = G} Steady (three_leds a b c)
  unfolding three_leds
  three a b c =
      seq (led led_gpio_stop_scan a)
        (seq (led led_gpio_copy_data b) (led led_gpio_continous_scanning c))
