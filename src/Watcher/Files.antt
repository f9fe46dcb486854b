-- ===== src/Watcher/Files.antt =====
-- What a chunk leaves on the disk, and null pointers in the branches.
use mandeye_controller.Prelude.{
  ℕ, ◌≡◌, refl, ◌∙◌, Bool, true, false, Option, none, some, [], Text, ◌⊎◌, inl, inr, Option-cases,
  is_some,
}
use mandeye_controller.Gpio
use mandeye_controller.Hardware.{Led, led_gpio_copy_data}
use mandeye_controller.Livox
use mandeye_controller.Livox.{Doubles}
use mandeye_controller.Gnss.{Minmea}
use mandeye_controller.App.{World, Content, File}
use mandeye_controller.Watcher.Steps.{
  M, Outcome, done, crashed, beep, set_led, through, when, if_gpio, ◌>>◌, ◌>>=◌,
}
use mandeye_controller.Watcher.Scan.{on_wait_for_resources}
use mandeye_controller.Watcher.Stopping.{on_stoping_stop_scan}
use mandeye_controller.Watcher.Saving.{retrieve_lidar}

abbrev pub file_of : Text → ℕ → Content → File
file_of directory chunk content = record { directory = directory; chunk = chunk; content = content }

then_done :
    {G B : Type 0} (m : M G (Unit {0})) (k : M G B) (w v : World G)
    → m w ≡ done tt v
    → ◌>>◌ m k w ≡ k v
then_done m k w v e = rw (e, ◌>>◌)

then_crashed :
    {G B : Type 0} (m : M G (Unit {0})) (k : M G B) (w : World G)
    → m w ≡ crashed
    → ◌>>◌ m k w ≡ crashed
then_crashed m k w e = rw (e, ◌>>◌)

bind_crashed :
    {G A B : Type 0} (m : M G A) (f : A → M G B) (w : World G)
    → m w ≡ crashed
    → ◌>>=◌ m f w ≡ crashed
bind_crashed m f w e = rw (e, ◌>>=◌)

module _ {G : Type 0} ⦃fl : Doubles⦄ ⦃mm : Minmea G⦄ where
  -- The world when nothing more happens.
  abbrev still : World G → World G
  still w = record w { schedule = [] }

  -- While stateWatcher waits for resources with its buzzer enabled, a GPIO client that the main
  -- thread has not made yet is dereferenced.
  pub waiting_without_gpio_crashes :
      (w : World G) → w.gpio ≡ none → w.disable_buzzer ≡ false → on_wait_for_resources w ≡ crashed
  unfolding on_wait_for_resources beep
  waiting_without_gpio_crashes w gpio loud = rw (loud, gpio) refl

  led_then :
      (led : Led) (state : Bool) (g : Option Gpio.Client) (w : World G)
      → let o : Outcome G (Unit {0}) =
          through g
            (λ c. through (Gpio.set_led led state c) (λ d. done tt (record w { gpio = some d }))) in
        (o ≡ crashed) ⊎ ((v : World G) × (o ≡ done tt v) × (v.livox ≡ w.livox))
  led_then led state none w = inl refl
  led_then led state (some c) w = elim (Option-cases (Gpio.set_led led state c)) [
    | inl e ↦ inl (rw e refl)
    | inr (d, e) ↦ inr (record w { gpio = some d }, rw e refl, refl)
  ]

  -- Lighting the LED of the copy fails its assertion or leaves the lidar client as it is.
  copy_led :
      (b : Bool) (w : World G)
      → let o = when b (set_led led_gpio_copy_data true) w in
        (o ≡ crashed) ⊎ ((v : World G) × (o ≡ done tt v) × (v.livox ≡ w.livox))
  unfolding set_led
  copy_led true w = led_then led_gpio_copy_data true w.gpio w
  copy_led false w = inr (w, refl, refl)

  retrieve_none : (w : World G) → w.livox ≡ none → retrieve_lidar w ≡ crashed
  unfolding retrieve_lidar
  retrieve_none w e = rw e refl

  -- At the end of a stop scan, a lidar client that was never made is dereferenced.
  pub stop_scan_without_lidar_crashes :
      (w : World G) → w.livox ≡ none → on_stoping_stop_scan w ≡ crashed
  unfolding on_stoping_stop_scan
  stop_scan_without_lidar_crashes w livox = elim (copy_led (is_some w.gpio) w) [
    | inl e ↦ then_crashed (if_gpio (set_led led_gpio_copy_data true)) _ w e
    | inr (v, e, same) ↦
        then_done (if_gpio (set_led led_gpio_copy_data true)) _ w v e
        ∙ bind_crashed retrieve_lidar _ v (retrieve_none v (same ∙ livox))
  ]
