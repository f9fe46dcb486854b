-- ===== src/Watcher/Primitives.antt =====
-- The steps that touch an LED, wait, or beep.
use mandeye_controller.Prelude.{
  ℕ, ◌+◌, ◌≡◌, refl, Bool, true, Option, none, some, List, [], ◌∷◌, if◌then◌else◌,
}
use mandeye_controller.States.{States}
use mandeye_controller.Hardware.{
  Led, led_gpio_stop_scan, led_gpio_copy_data, led_gpio_continous_scanning,
}
use mandeye_controller.Livox
use mandeye_controller.Livox.{Doubles}
use mandeye_controller.Gnss.{Minmea}
use mandeye_controller.Gpio
use mandeye_controller.App.{World, Event, apply_all, ms}
use mandeye_controller.Watcher.Steps.{
  done, set_led, next_batch, sleep, now, sync, beep, three_leds, through, become, modify,
}
use mandeye_controller.Watcher.Rules.{if_Post, Runs, runs, run, Post, seq}
use mandeye_controller.Watcher.Safe.{
  HasLeds, IsReady, Mode, Demand, is_shown, set_led-keeps, beep-keeps,
}
use mandeye_controller.Watcher.Keeps.{Safe, apply_all-Safe}

module _ {G : Type 0} where
  -- `w` with its GPIO client, whatever it is, put in by hand.
  set_led_at :
      (k : Mode) (l : Led) (state : Bool) (g : Option Gpio.Client) (w : World G)
      → is_shown l ≡ true
      → IsReady w.board g
      → Demand k w.app_state w.livox
      → Post
          (λ (_ : Unit {0}) v. Safe k v)
          (through g
            (λ c. through (Gpio.set_led l state c) (λ d. done tt (record w { gpio = some d }))))
  unfolding HasLeds Safe
  set_led_at k l state none w shown h d = elim h.1 [ ]
  set_led_at k l state (some c) w shown h d =
      let (c', e, leds) = set_led-keeps l state c shown h.1 in rw e ((h.0, leds), d)

  pub set_led-Safe :
      (k : Mode) (l : Led) (state : Bool)
      → is_shown l ≡ true
      → Runs {G = G} (Safe k) (set_led l state) (λ _. Safe k)
  unfolding set_led Safe
  set_led-Safe k l state shown = runs (λ w h. set_led_at k l state w.gpio w shown h.0 h.1)

module _ {G : Type 0} ⦃fl : Doubles⦄ ⦃mm : Minmea G⦄ where
  batch_at :
      (k : Mode) (s : List (List (Event G))) (w : World G)
      → Safe k w
      → Safe k (elim s [ [] ↦ w | es ∷ rest ↦ apply_all es (record w { schedule = rest }) ])
  unfolding Safe
  batch_at k [] w h = h
  batch_at k (es ∷ rest) w h = apply_all-Safe k es (record w { schedule = rest }) h

  next_batch-Safe : (k : Mode) (w : World G) → Safe k w → Safe k (next_batch w)
  unfolding next_batch
  next_batch-Safe k w h = batch_at k w.schedule w h

  pub sleep-Safe : (k : Mode) (millis : ℕ) → Runs {G = G} (Safe k) (sleep millis) (λ _. Safe k)
  unfolding sleep Safe
  sleep-Safe k millis = runs (λ w h. next_batch-Safe k (record w { clock = w.clock + ms millis }) h)

  pub now-Safe : (k : Mode) → Runs {G = G} (Safe k) now (λ _. Safe k)
  unfolding now
  now-Safe k = runs (λ w h. next_batch-Safe k w h)

  pub sync-Safe : (k : Mode) → Runs {G = G} (Safe k) sync (λ _. Safe k)
  unfolding sync
  sync-Safe k = runs (λ w h. next_batch-Safe k w h)

  beep_at :
      (k : Mode) (ds : List ℕ) (millis : ℕ) (g : Option Gpio.Client) (w : World G)
      → Safe k w
      → HasLeds g
      → Post
          (λ (_ : Unit {0}) v. Safe k v)
          (through g (λ c.
            if c.use_simulated_gpio
            then done tt w
            else sleep millis (record w { gpio = some (Gpio.beep ds c) })))
  unfolding HasLeds Safe
  beep_at k ds millis none w h leds = elim leds [ ]
  beep_at k ds millis (some c) w h leds =
      if_Post (λ _. Safe k) c.use_simulated_gpio (done tt w)
        (sleep millis (record w { gpio = some (Gpio.beep ds c) })) h
        (run (sleep-Safe k millis) (record w { gpio = some (Gpio.beep ds c) })
          ((h.0.0, beep-keeps ds c leds), h.1))

  pub beep-Safe : (k : Mode) (ds : List ℕ) → Runs {G = G} (Safe k) (beep ds) (λ _. Safe k)
  unfolding beep Safe
  beep-Safe k ds = runs (λ w h. beep_at k ds _ w.gpio w h h.0.1)

  pub three_leds-Safe :
      (k : Mode) (a b c : Bool) → Runs {G = G} (Safe k) (three_leds a b c) (λ _. Safe k)
  unfolding three_leds
  three_leds-Safe k a b c = seq (set_led-Safe k led_gpio_stop_scan a refl) (
      seq (set_led-Safe k led_gpio_copy_data b refl)
        (set_led-Safe k led_gpio_continous_scanning c refl))

  pub become-Safe :
      (k : Mode) (s : States)
      → ((l : Option Livox.Client) (t : States) → Demand k t l → Demand k s l)
      → Runs {G = G} (Safe k) (become s) (λ _. Safe k)
  unfolding Safe
  become-Safe k s h = runs (λ w p. (p.0, h w.livox w.app_state p.1))

  -- A step that changes neither the clients nor the state.
  pub modify-Safe :
      (k : Mode) (f : World G → World G)
      → ((w : World G) → Safe k w → Safe k (f w))
      → Runs (Safe k) (modify f) (λ _. Safe k)
  modify-Safe k f h = runs h
