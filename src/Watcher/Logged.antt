-- ===== src/Watcher/Logged.antt =====
-- The branches of stateWatcher in which the lidar logs.
use mandeye_controller.Prelude.{
  ℕ, ◌+◌, ◌-◌, ◌*◌, refl, Bool, true, false, not, ◌&&◌, Option, List, ltb, Text, is_some,
}
use mandeye_controller.States.{
  States, state_eq, scanning, stopping_stage_1, stopping_stage_2, usb_io_error,
}
use mandeye_controller.Hardware.{
  led_gpio_stop_scan, led_gpio_copy_data, led_gpio_continous_scanning,
}
use mandeye_controller.Livox.{Doubles, Point, Imu}
use mandeye_controller.Gnss.{Minmea}
use mandeye_controller.App.{ms}
use mandeye_controller.Watcher.Steps.{modify, become, set_led}
use mandeye_controller.Watcher.Saving.{is_empty, next_chunk}
use mandeye_controller.Watcher.Scanning.{
  blink_old, save_chunk, save_or_fail, new_chunk, chunk_if_old, stage_1, stage_2, on_scanning,
  toggle_1, toggle_2,
}
use mandeye_controller.Watcher.Rules.{Runs, runs, seq, bind, got, when_now, if_now, look, given}
use mandeye_controller.Watcher.Safe.{Mode, Demand, logging}
use mandeye_controller.Watcher.Keeps.{Safe}
use mandeye_controller.Watcher.Primitives.{set_led-Safe, sleep-Safe, now-Safe, become-Safe}
use mandeye_controller.Watcher.Saves.{
  Filled, retrieve_lidar-Safe, retrieve_gnss-Safe, retrieve_gnss_raw-Safe, save_lidar-Safe,
  save_gnss_data-Safe, save_gnss_raw_data-Safe,
}

module _ {G : Type 0} ⦃fl : Doubles⦄ ⦃mm : Minmea G⦄ where
  pub on_copy :
      (k : Mode) (b : Bool) → Runs {G = G} (Safe k) (set_led led_gpio_copy_data b) (λ _. Safe k)
  on_copy k b = set_led-Safe k led_gpio_copy_data b refl

  pub on_continous :
      (k : Mode) (b : Bool)
      → Runs {G = G} (Safe k) (set_led led_gpio_continous_scanning b) (λ _. Safe k)
  on_continous k b = set_led-Safe k led_gpio_continous_scanning b refl

  pub on_stop :
      (k : Mode) (b : Bool) → Runs {G = G} (Safe k) (set_led led_gpio_stop_scan b) (λ _. Safe k)
  on_stop k b = set_led-Safe k led_gpio_stop_scan b refl

  become_logged : (s : States) → Runs {G = G} (Safe logging) (become s) (λ _. Safe logging)
  unfolding Demand
  become_logged s = become-Safe logging s (λ l t h. h)

  blink_old-Safe :
      (at seconds millis : ℕ)
      → Runs {G = G} (Safe logging) (blink_old at seconds millis) (λ _. Safe logging)
  unfolding blink_old
  blink_old-Safe at seconds millis =
      when_now (λ w. ltb (ms (seconds * 1000)) (at - w.chunk_start))
        (seq (on_continous logging false) (
          seq (sleep-Safe logging millis)
            (seq (on_continous logging true) (sleep-Safe logging millis))))

  count_chunk-Safe :
      (k : Mode)
      → Runs {G = G} (Safe k) (modify (λ w. record w { chunks_cs = w.chunks_cs + 1 })) (λ _. Safe k)
  unfolding Safe
  count_chunk-Safe k = runs (λ w p. p)

  save_or_fail-Safe :
      (lidar : Option (List Point) × Option (List Imu)) (gnss raw : List Text) (directory : Text)
      (chunk : ℕ)
      → Filled lidar
      → Runs {G = G}
          (Safe logging)
          (save_or_fail lidar gnss raw directory chunk)
          (λ _. Safe logging)
  unfolding save_or_fail save_chunk
  save_or_fail-Safe lidar gnss raw directory chunk h =
      if_now (λ w. is_empty directory) (become_logged usb_io_error)
        (seq (save_lidar-Safe logging lidar directory chunk h) (
          seq (save_gnss_data-Safe logging gnss directory chunk) (
            seq (save_gnss_raw_data-Safe logging raw directory chunk)
              (seq (on_copy logging false) (count_chunk-Safe logging)))))

  set_start-Safe :
      (k : Mode) (start : ℕ)
      → Runs {G = G} (Safe k) (modify (λ w. record w { chunk_start = start })) (λ _. Safe k)
  unfolding Safe
  set_start-Safe k start = runs (λ w p. p)

  new_chunk-Safe : Runs {G = G} (Safe logging) new_chunk (λ _. Safe logging)
  unfolding new_chunk
  new_chunk-Safe = seq (on_copy logging true) (
      bind (now-Safe logging) λ start. seq (set_start-Safe logging start) (
        bind retrieve_lidar-Safe λ lidar. given λ filled. bind (retrieve_gnss-Safe logging) λ gnss.
          bind (retrieve_gnss_raw-Safe logging) λ raw.
            look (λ v. save_or_fail lidar gnss raw v.continous_scan_directory (next_chunk v))
              (λ v.
                save_or_fail-Safe lidar gnss raw v.continous_scan_directory (next_chunk v) filled)))

  pub new_chunk_if-Safe :
      (at : ℕ) → Runs {G = G} (Safe logging) (chunk_if_old at) (λ _. Safe logging)
  unfolding chunk_if_old
  new_chunk_if-Safe at =
      when_now (λ w. ltb (ms 10000) (at - w.chunk_start) && state_eq w.app_state scanning)
        new_chunk-Safe

  toggle_1-Safe : Runs {G = G} (Safe logging) toggle_1 (λ _. Safe logging)
  unfolding toggle_1 Safe
  toggle_1-Safe = bind (got (λ w. w.led_1)) λ led. seq (on_continous logging led) (
      seq {m = modify (λ w. record w { led_1 = not led })} (runs (λ w p. p))
        (bind (now-Safe logging) λ at. runs (λ w p. p)))

  toggle_2-Safe : Runs {G = G} (Safe logging) toggle_2 (λ _. Safe logging)
  unfolding toggle_2 Safe
  toggle_2-Safe = bind (got (λ w. w.led_2)) λ led. seq (on_continous logging led) (
      seq {m = modify (λ w. record w { led_2 = not led })} (runs (λ w p. p))
        (bind (now-Safe logging) λ at. runs (λ w p. p)))

  stage_1-Safe : Runs {G = G} (Safe logging) stage_1 (λ _. Safe logging)
  unfolding stage_1
  stage_1-Safe = bind (now-Safe logging) λ at.
      seq (when_now (λ w. ltb w.stage_1_led_deadline at) toggle_1-Safe)
        (when_now (λ w. ltb w.stage_1_deadline at) (become_logged scanning))

  stage_2-Safe : Runs {G = G} (Safe logging) stage_2 (λ _. Safe logging)
  unfolding stage_2
  stage_2-Safe = bind (now-Safe logging) λ at.
      seq (when_now (λ w. ltb w.stage_2_led_deadline at) toggle_2-Safe)
        (when_now (λ w. ltb w.stage_2_deadline at) (become_logged scanning))

  -- The branch of SCANNING and its two stages does not crash, and it leaves the lidar logging.
  pub on_scanning-Safe : Runs {G = G} (Safe logging) on_scanning (λ _. Safe logging)
  unfolding on_scanning
  on_scanning-Safe =
      seq
        (when_now (λ w. is_some w.gpio)
          (when_now (λ w. state_eq w.app_state scanning) (on_continous logging true)))
        (bind (now-Safe logging) λ at. seq (blink_old-Safe at 60 1000) (
          seq (blink_old-Safe at 600 100) (
            seq (new_chunk_if-Safe at) (
              seq (when_now (λ w. state_eq w.app_state stopping_stage_1) stage_1-Safe) (
                seq (when_now (λ w. state_eq w.app_state stopping_stage_2) stage_2-Safe)
                  (sleep-Safe logging 20))))))
