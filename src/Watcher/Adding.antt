-- ===== src/Watcher/Adding.antt =====
-- Rules for steps of stateWatcher that add numbered files, and its simple steps.
use mandeye_controller.Prelude.{ℕ, refl, Bool, not, Option, none, some, List, [], ◌∷◌, Text}
use mandeye_controller.States.{States}
use mandeye_controller.Hardware.{
  Led, led_gpio_stop_scan, led_gpio_copy_data, led_gpio_continous_scanning,
}
use mandeye_controller.Livox.{Doubles}
use mandeye_controller.Gnss
use mandeye_controller.Gnss.{Minmea}
use mandeye_controller.App.{World, Content}
use mandeye_controller.Watcher.Steps.{
  M, done, ◌>>=◌, ◌>>◌, when, get, modify, become, set_led, three_leds, sleep, now, beep,
}
use mandeye_controller.Watcher.Saving.{
  write_file, retrieve_lidar, retrieve_gnss, retrieve_gnss_raw, start_lidar_log, stop_lidar_log,
  start_gnss_log, stop_gnss_log,
}
use mandeye_controller.Watcher.Changes.{
  Ends, Does, does, Ends-through, does_also, does_seq, does_bind, does_when,
}
use mandeye_controller.Watcher.Chunks.{
  Same, Adds, Under, Same-Adds, Adds-refl, Adds-trans, sleep-Same, now-Same, set_led-Same,
  beep-Same,
}

module _ {G : Type 0} where
  -- Rules for what adds files, and for what adds files of one number.
  also : {A : Type 0} {m : M G A} → Does Same m → Does Adds m
  also h = does_also Same-Adds h

  pub seq :
      {B : Type 0} {m : M G (Unit {0})} {k : M G B}
      → Does Adds m
      → Does Adds k
      → Does Adds (◌>>◌ m k)
  seq h g = does_seq Adds Adds-refl Adds-trans h g

  pub bind :
      {A B : Type 0} {m : M G A} {f : A → M G B}
      → Does Adds m
      → ((a : A) → Does Adds (f a))
      → Does Adds (◌>>=◌ m f)
  bind h g = does_bind Adds Adds-refl Adds-trans h g

  pub when_now :
      (b : World G → Bool) {m : M G (Unit {0})} → Does Adds m → Does Adds (λ w. when (b w) m w)
  when_now b h = does_when Adds Adds-refl Adds-trans b h

  pub plain : (f : World G → World G) → ((w : World G) → Same w (f w)) → Does Adds (modify f)
  plain f h = does (λ w. Same-Adds w (f w) (h w))

  pub enter : (s : States) → Does {G = G} Adds (become s)
  enter s = plain (λ w. record w { app_state = s }) λ w. (refl, refl)

  pub got : {A : Type 0} (f : World G → A) → Does Adds (get f)
  got f = does Adds-refl

  pub wrote :
      (directory : Text) (c : ℕ) (content : Content)
      → Does {G = G} (Under c) (modify (write_file directory c content))
  wrote directory c content = does (λ w. (refl, (_ ∷ [], (refl, (refl, tt)))))

module _ {G : Type 0} ⦃fl : Doubles⦄ ⦃mm : Minmea G⦄ where
  pub led : (l : Led) (state : Bool) → Does {G = G} Adds (set_led l state)
  led l state = also (set_led-Same l state)

  pub three : (a b c : Bool) → Does {G = G} Adds (three_leds a b c)
  unfolding three_leds
  three a b c =
      seq (led led_gpio_stop_scan a)
        (seq (led led_gpio_copy_data b) (led led_gpio_continous_scanning c))

  pub wait : (millis : ℕ) → Does {G = G} Adds (sleep millis)
  wait millis = also (sleep-Same millis)

  pub clock : Does {G = G} Adds now
  clock = also now-Same

  sound : (ds : List ℕ) → Does {G = G} Adds (beep ds)
  sound ds = also (beep-Same ds)

  pub quiet : (ds : List ℕ) → Does {G = G} Adds (λ w. when (not w.disable_buzzer) (beep ds) w)
  quiet ds = when_now (λ w. not w.disable_buzzer) (sound ds)

  pub start_lidar : Does {G = G} Adds start_lidar_log
  unfolding start_lidar_log
  start_lidar = does (λ w. Ends-through (Adds w) w.livox _ λ c. Adds-refl w)

  pub stop_lidar : Does {G = G} Adds stop_lidar_log
  unfolding stop_lidar_log
  stop_lidar = does (λ w. Ends-through (Adds w) w.livox _ λ c. Adds-refl w)

  pub start_gnss : Does {G = G} Adds start_gnss_log
  unfolding start_gnss_log
  start_gnss = does Adds-refl

  pub stop_gnss : Does {G = G} Adds stop_gnss_log
  unfolding stop_gnss_log
  stop_gnss = does Adds-refl

  pub lidar_data : Does {G = G} Adds retrieve_lidar
  unfolding retrieve_lidar
  lidar_data = does (λ w. Ends-through (Adds w) w.livox _ λ c. Adds-refl w)

  gnss_at :
      (g : Option (Gnss.Client G)) (w : World G) (f : Gnss.Client G → List Text × Gnss.Client G)
      → Ends (Adds w) (elim g [
        | none ↦ done [] w
        | some c ↦ let (lines, d) = f c in done lines (record w { gnss = some d })
      ])
  gnss_at none w f = Adds-refl w
  gnss_at (some c) w f = Adds-refl w

  pub gnss_data : Does {G = G} Adds retrieve_gnss
  unfolding retrieve_gnss
  gnss_data = does (λ w. gnss_at w.gnss w Gnss.retrieve_data)

  pub raw_data : Does {G = G} Adds retrieve_gnss_raw
  unfolding retrieve_gnss_raw
  raw_data = does (λ w. gnss_at w.gnss w Gnss.retrieve_raw_data)
