-- ===== src/Watcher/Scanning.antt =====
-- code/main.cpp: stateWatcher's branch for SCANNING and its two stages of stopping.
use mandeye_controller.Prelude.{
  ℕ, ◌+◌, ◌-◌, ◌*◌, true, false, not, ◌&&◌, Option, List, ltb, if◌then◌else◌, Text,
}
use mandeye_controller.States.{state_eq, scanning, stopping_stage_1, stopping_stage_2, usb_io_error}
use mandeye_controller.Hardware.{led_gpio_copy_data, led_gpio_continous_scanning}
use mandeye_controller.Livox.{Doubles, Point, Imu}
use mandeye_controller.Gnss.{Minmea}
use mandeye_controller.App.{ms}
use mandeye_controller.Watcher.Steps.{
  ◌>>=◌, ◌>>◌, M, modify, get, when, become, set_led, sleep, now, if_gpio,
}
use mandeye_controller.Watcher.Saving.{
  retrieve_lidar, retrieve_gnss, retrieve_gnss_raw, save_lidar, save_gnss_data, save_gnss_raw_data,
  is_empty, next_chunk,
}

module _ {G : Type 0} ⦃fl : Doubles⦄ ⦃mm : Minmea G⦄ where
  -- A chunk that is older than `seconds` blinks. Both times are of one steady clock.
  unfoldable pub blink_old : ℕ → ℕ → ℕ → M G (Unit {0})
  blink_old at seconds millis w =
      when (ltb (ms (seconds * 1000)) (at - w.chunk_start))
        (do
          set_led led_gpio_continous_scanning false
          sleep millis
          set_led led_gpio_continous_scanning true
          sleep millis)
        w

  -- What is saved of a chunk's buffers, and the chunk's number counted.
  unfoldable pub save_chunk :
      Option (List Point) × Option (List Imu) → List Text → List Text → Text → ℕ → M G (Unit {0})
  save_chunk lidar gnss raw directory chunk = do
    save_lidar lidar directory chunk
    save_gnss_data gnss directory chunk
    save_gnss_raw_data raw directory chunk
    set_led led_gpio_copy_data false
    modify (λ w. record w { chunks_cs = w.chunks_cs + 1 })

  -- Without a directory the retrieved buffers are dropped.
  unfoldable pub save_or_fail :
      Option (List Point) × Option (List Imu) → List Text → List Text → Text → ℕ → M G (Unit {0})
  save_or_fail lidar gnss raw directory chunk w =
      if is_empty directory
      then become usb_io_error w
      else save_chunk lidar gnss raw directory chunk w

  unfoldable pub new_chunk : M G (Unit {0})
  new_chunk = do
    set_led led_gpio_copy_data true
    start ← now
    modify (λ w. record w { chunk_start = start })
    lidar ← retrieve_lidar
    gnss ← retrieve_gnss
    raw ← retrieve_gnss_raw
    λ w. save_or_fail lidar gnss raw w.continous_scan_directory (next_chunk w) w

  unfoldable pub chunk_if_old : ℕ → M G (Unit {0})
  chunk_if_old at w =
      when (ltb (ms 10000) (at - w.chunk_start) && state_eq w.app_state scanning) new_chunk w

  -- Past the LED's deadline it is toggled, and past the stage's the scan goes on.
  unfoldable pub toggle_1 : M G (Unit {0})
  toggle_1 = do
    led ← get (λ w. w.led_1)
    set_led led_gpio_continous_scanning led
    modify (λ w. record w { led_1 = not led })
    at ← now
    modify (λ w. record w { stage_1_led_deadline = at + ms 500 })

  unfoldable pub stage_1 : M G (Unit {0})
  unfolding toggle_1
  stage_1 = do
    at ← now
    λ w. when (ltb w.stage_1_led_deadline at) toggle_1 w
    λ w. when (ltb w.stage_1_deadline at) (become scanning) w

  unfoldable pub toggle_2 : M G (Unit {0})
  toggle_2 = do
    led ← get (λ w. w.led_2)
    set_led led_gpio_continous_scanning led
    modify (λ w. record w { led_2 = not led })
    at ← now
    modify (λ w. record w { stage_2_led_deadline = at + ms 250 })

  unfoldable pub stage_2 : M G (Unit {0})
  unfolding toggle_2
  stage_2 = do
    at ← now
    λ w. when (ltb w.stage_2_led_deadline at) toggle_2 w
    λ w. when (ltb w.stage_2_deadline at) (become scanning) w

  -- The state is read again before each part, since a click may have come between.
  unfoldable pub on_scanning : M G (Unit {0})
  on_scanning = do
    if_gpio (λ w. when (state_eq w.app_state scanning) (set_led led_gpio_continous_scanning true) w)
    at ← now
    blink_old at 60 1000
    blink_old at 600 100
    chunk_if_old at
    λ w. when (state_eq w.app_state stopping_stage_1) stage_1 w
    λ w. when (state_eq w.app_state stopping_stage_2) stage_2 w
    sleep 20
