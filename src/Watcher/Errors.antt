-- ===== src/Watcher/Errors.antt =====
-- The two error states of stateWatcher.
use mandeye_controller.Prelude.{
  ℕ, zero, suc, ◌+◌, ◌≡◌, refl, ap, ◌∙◌, Bool, true, false, not, ◌&&◌, Option, none, some, List, [],
  ◌∷◌, leb, if◌then◌else◌, is_some,
}
use mandeye_controller.States.{States, state_eq, lidar_error, usb_io_error, name_at-named}
use mandeye_controller.Hardware.{
  Led, led_gpio_stop_scan, led_gpio_copy_data, led_gpio_continous_scanning,
}
use mandeye_controller.Livox.{Doubles}
use mandeye_controller.Gnss.{Minmea}
use mandeye_controller.Gpio
use mandeye_controller.App.{World, Event, apply_all, ms}
use mandeye_controller.App.Triggers.{listens, apply_all-quiet}
use mandeye_controller.Watcher.{report_state, note_state, dispatch, iterate, iterations}
use mandeye_controller.Watcher.Steps.{
  done, aborted, through, set_led, sleep, next_batch, beep, three_leds, when,
}
use mandeye_controller.Watcher.Scan.{on_lidar_error, on_usb_io_error}
use mandeye_controller.Watcher.Rules.{Runs, runs, run, Post, seq, when_now, if_Post}
use mandeye_controller.Watcher.Safe.{
  HasLeds, IsReady, Demand, between_rounds, is_shown, set_led-keeps, beep-keeps,
}
use mandeye_controller.Watcher.Keeps.{Safe}
use mandeye_controller.Watcher.Primitives.{sleep-Safe}
use mandeye_controller.Watcher.Rounds.{both_true}

-- The loop can go on, and it is in the state `s`.
unfoldable pub IsIn : {G : Type 0} → States → World G → Type 0
IsIn s w = Safe between_rounds w × (w.app_state ≡ s)

unfoldable pub is_error : States → Bool
is_error lidar_error = true
is_error usb_io_error = true
is_error _ = false

module _ {G : Type 0} (s : States) where
  set_led_at :
      (l : Led) (state : Bool) (g : Option Gpio.Client) (w : World G)
      → is_shown l ≡ true
      → IsReady w.board g
      → Demand between_rounds w.app_state w.livox
      → w.app_state ≡ s
      → Post
          (λ (_ : Unit {0}) v. IsIn s v)
          (through g
            (λ c. through (Gpio.set_led l state c) (λ d. done tt (record w { gpio = some d }))))
  unfolding HasLeds Safe IsIn
  set_led_at l state none w shown h d q = elim h.1 [ ]
  set_led_at l state (some c) w shown h d q =
      let (c', e, leds) = set_led-keeps l state c shown h.1 in rw e (((h.0, leds), d), q)

  set_led-IsIn :
      (l : Led) (state : Bool)
      → is_shown l ≡ true
      → Runs {G = G} (IsIn s) (set_led l state) (λ _. IsIn s)
  unfolding set_led Safe IsIn
  set_led-IsIn l state shown = runs (λ w h. set_led_at l state w.gpio w shown h.0.0 h.0.1 h.1)

  three_leds-IsIn : (a b c : Bool) → Runs {G = G} (IsIn s) (three_leds a b c) (λ _. IsIn s)
  unfolding three_leds
  three_leds-IsIn a b c = seq (set_led-IsIn led_gpio_stop_scan a refl) (
      seq (set_led-IsIn led_gpio_copy_data b refl)
        (set_led-IsIn led_gpio_continous_scanning c refl))

module _ {G : Type 0} ⦃fl : Doubles⦄ ⦃mm : Minmea G⦄ (s : States) (deaf : listens s ≡ false) where
  batch_at :
      (batches : List (List (Event G))) (w : World G)
      → w.app_state ≡ s
      → let v : World G = elim batches [
        | [] ↦ w
        | es ∷ rest ↦ apply_all es (record w { schedule = rest })
      ] in
        v.app_state ≡ s
  batch_at [] w q = q
  batch_at (es ∷ rest) w q =
      apply_all-quiet es (record w { schedule = rest }) (ap listens q ∙ deaf) ∙ q

  sleep-IsIn : (millis : ℕ) → Runs {G = G} (IsIn s) (sleep millis) (λ _. IsIn s)
  unfolding sleep next_batch IsIn
  sleep-IsIn millis = runs (λ w h. (
    run (sleep-Safe between_rounds millis) w h.0,
    batch_at w.schedule (record w { clock = w.clock + ms millis }) h.1,
  ))

  beep_at :
      (ds : List ℕ) (millis : ℕ) (g : Option Gpio.Client) (w : World G)
      → IsIn s w
      → HasLeds g
      → Post
          (λ (_ : Unit {0}) v. IsIn s v)
          (through g (λ c.
            if c.use_simulated_gpio
            then done tt w
            else sleep millis (record w { gpio = some (Gpio.beep ds c) })))
  unfolding HasLeds Safe IsIn
  beep_at ds millis none w h leds = elim leds [ ]
  beep_at ds millis (some c) w h leds =
      if_Post (λ _. IsIn s) c.use_simulated_gpio (done tt w)
        (sleep millis (record w { gpio = some (Gpio.beep ds c) })) h
        (run (sleep-IsIn millis) (record w { gpio = some (Gpio.beep ds c) })
          (((h.0.0.0, beep-keeps ds c leds), h.0.1), h.1))

  beep-IsIn : (ds : List ℕ) → Runs {G = G} (IsIn s) (beep ds) (λ _. IsIn s)
  unfolding beep Safe IsIn
  beep-IsIn ds = runs (λ w h. beep_at ds _ w.gpio w h h.0.0.1)

  quiet-IsIn :
      (ds : List ℕ)
      → Runs {G = G} (IsIn s) (λ w. when (not w.disable_buzzer) (beep ds) w) (λ _. IsIn s)
  quiet-IsIn ds = when_now (λ w. not w.disable_buzzer) (beep-IsIn ds)

  on_lidar_error-IsIn : Runs {G = G} (IsIn s) on_lidar_error (λ _. IsIn s)
  unfolding on_lidar_error
  on_lidar_error-IsIn =
      when_now (λ w. is_some w.gpio)
        (seq (three_leds-IsIn s false false false) (
          seq (sleep-IsIn 1000)
            (seq (three_leds-IsIn s true false true) (seq (sleep-IsIn 1000) (quiet-IsIn _)))))

  on_usb_io_error-IsIn : Runs {G = G} (IsIn s) on_usb_io_error (λ _. IsIn s)
  unfolding on_usb_io_error
  on_usb_io_error-IsIn =
      when_now (λ w. is_some w.gpio)
        (seq (three_leds-IsIn s false false false) (
          seq (sleep-IsIn 1000)
            (seq (three_leds-IsIn s false true false) (seq (sleep-IsIn 1000) (quiet-IsIn _)))))

module _ {G : Type 0} ⦃fl : Doubles⦄ ⦃mm : Minmea G⦄ where
  note_state-IsIn : (s : States) → Runs {G = G} (IsIn s) note_state (λ _. IsIn s)
  unfolding note_state Safe IsIn
  note_state-IsIn s = runs (λ w p. let (name, e) = name_at-named w.app_state in rw e p)

  report_at :
      (s : States) (b : Bool) (n : ℕ) (w : World G)
      → b ≡ (w.board.aborts_on_usb_error && state_eq w.app_state usb_io_error)
      → IsIn s w
      → Post
          (λ (_ : Unit {0}) v. IsIn s v)
          (if b
            then if leb 2 n then aborted w else done tt (record w { usb_error_reports = n + 1 })
            else done tt w)
  unfolding Safe IsIn
  report_at s true n w e p =
      if_Post (λ _. IsIn s) (leb 2 n) (aborted w) (done tt (record w { usb_error_reports = n + 1 }))
        (both_true w.board.aborts_on_usb_error (state_eq w.app_state usb_io_error) e) p
  report_at s false n w e p = p

  report_state-IsIn : (s : States) → Runs {G = G} (IsIn s) report_state (λ _. IsIn s)
  unfolding report_state
  report_state-IsIn s = runs (λ w p.
      report_at s (w.board.aborts_on_usb_error && state_eq w.app_state usb_io_error)
        w.usb_error_reports w refl p)

  dispatch-IsIn :
      (s : States) → is_error s ≡ true → Runs {G = G} (IsIn s) (dispatch s) (λ _. IsIn s)
  unfolding dispatch is_error listens
  dispatch-IsIn lidar_error e = runs (λ w p. run (on_lidar_error-IsIn lidar_error refl) w p)
  dispatch-IsIn usb_io_error e = runs (λ w p. run (on_usb_io_error-IsIn usb_io_error refl) w p)
  dispatch-IsIn _ e = cc

  at_state :
      (t s : States) (w : World G)
      → t ≡ s
      → Post (λ (_ : Unit {0}) v. IsIn s v) (dispatch s w)
      → Post (λ (_ : Unit {0}) v. IsIn s v) (dispatch t w)
  at_state t s w e p = rw e p

  iterate-IsIn : (s : States) → is_error s ≡ true → Runs {G = G} (IsIn s) iterate (λ _. IsIn s)
  unfolding iterate IsIn
  iterate-IsIn s e = seq (note_state-IsIn s) (
      seq (report_state-IsIn s)
        (runs (λ w p. at_state w.app_state s w p.1 (run (dispatch-IsIn s e) w p))))

  iterations-Runs :
      (s : States) (n : ℕ) → is_error s ≡ true → Runs {G = G} (IsIn s) (iterations n) (λ _. IsIn s)
  unfolding iterations
  iterations-Runs s zero e = runs (λ w p. p)
  iterations-Runs s (suc n) e = seq (iterate-IsIn s e) (iterations-Runs s n e)

  -- From LIDAR_ERROR or USB_IO_ERROR, with what the loop relies on, every number of rounds ends in
  -- the same state, whatever the other threads do, unless the board aborts the program.
  pub iterations-IsIn :
      (s : States) (n : ℕ) (w : World G)
      → is_error s ≡ true
      → IsIn s w
      → Post (λ (_ : Unit {0}) v. IsIn s v) (iterations n w)
  iterations-IsIn s n w e p = run (iterations-Runs s n e) w p
