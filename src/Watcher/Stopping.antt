-- ===== src/Watcher/Stopping.antt =====
-- code/main.cpp: stateWatcher's branches that stop a continuous scan, and those of a stop scan.
use mandeye_controller.Prelude.{
  ℕ, zero, suc, ◌+◌, true, false, Option, List, ltb, if◌then◌else◌, Text, is_some,
}
use mandeye_controller.States.{
  idle, usb_io_error, stop_scan_in_initial_progress, stop_scan_in_progress, stoping_stop_scan,
}
use mandeye_controller.Hardware.{
  led_gpio_stop_scan, led_gpio_copy_data, led_gpio_continous_scanning,
}
use mandeye_controller.Livox.{Doubles, Point, Imu}
use mandeye_controller.Gnss.{Minmea}
use mandeye_controller.App.{ms}
use mandeye_controller.Watcher.Steps.{
  ◌>>=◌, ◌>>◌, M, done, modify, when, become, set_led, sleep, now, three_leds, if_gpio,
}
use mandeye_controller.Watcher.Saving.{
  retrieve_lidar, retrieve_gnss, save_lidar, save_gnss_data, start_lidar_log, start_gnss_log,
  stop_lidar_log, stop_gnss_log, is_empty, next_chunk,
}

module _ {G : Type 0} ⦃fl : Doubles⦄ ⦃mm : Minmea G⦄ where
  unfoldable pub blinks : ℕ → M G (Unit {0})
  blinks zero w = done tt w
  blinks (suc n) w =
      let rest : M G (Unit {0}) = blinks n in
      (do
        set_led led_gpio_continous_scanning true
        sleep 50
        set_led led_gpio_continous_scanning false
        sleep 50
        rest)
        w

  unfoldable pub save_last :
      Option (List Point) × Option (List Imu) → List Text → Text → ℕ → M G (Unit {0})
  save_last lidar gnss directory chunk w =
      if is_empty directory
      then become usb_io_error w
      else (do
        save_lidar lidar directory chunk
        save_gnss_data gnss directory chunk
        modify (λ v. record v { chunks_cs = v.chunks_cs + 1 })
        set_led led_gpio_copy_data false
        become idle)
          w

  -- The raw GNSS lines are not retrieved.
  unfoldable pub on_stopping : M G (Unit {0})
  unfolding blinks
  on_stopping = do
    set_led led_gpio_continous_scanning true
    set_led led_gpio_copy_data true
    lidar ← retrieve_lidar
    stop_lidar_log
    gnss ← retrieve_gnss
    stop_gnss_log
    blinks 20
    set_led led_gpio_continous_scanning true
    set_led led_gpio_copy_data true
    λ w. save_last lidar gnss w.continous_scan_directory (next_chunk w) w

  unfoldable pub on_starting_stop_scan : M G (Unit {0})
  on_starting_stop_scan = do
    if_gpio (three_leds false false false)
    at ← now
    modify (λ w. record w {
      stop_scan_initial_deadline = at + ms 5000;
      stop_scan_deadline = at + ms 5000 + ms 30000;
    })
    become stop_scan_in_initial_progress

  unfoldable pub start_stop_scan : M G (Unit {0})
  start_stop_scan = do
    λ w. when (is_some w.livox) (do set_led led_gpio_stop_scan true; start_lidar_log) w
    start_gnss_log
    become stop_scan_in_progress

  unfoldable pub on_initial_progress : M G (Unit {0})
  on_initial_progress = do
    at ← now
    λ w.
        if ltb at w.stop_scan_initial_deadline
        then (do
          set_led led_gpio_stop_scan false
          sleep 100
          set_led led_gpio_stop_scan true
          sleep 100)
            w
        else start_stop_scan w

  unfoldable pub on_progress : M G (Unit {0})
  on_progress = do at ← now; λ w. when (ltb w.stop_scan_deadline at) (become stoping_stop_scan) w

  unfoldable pub save_stop_scan :
      Option (List Point) × Option (List Imu) → List Text → Text → ℕ → M G (Unit {0})
  save_stop_scan lidar gnss directory chunk w =
      if is_empty directory
      then become usb_io_error w
      else (do
        save_lidar lidar directory chunk
        save_gnss_data gnss directory chunk
        modify (λ v. record v { chunks_ss = v.chunks_ss + 1 })
        if_gpio do set_led led_gpio_copy_data false; set_led led_gpio_stop_scan false
        become idle)
          w

  unfoldable pub on_stoping_stop_scan : M G (Unit {0})
  on_stoping_stop_scan = do
    if_gpio (set_led led_gpio_copy_data true)
    lidar ← retrieve_lidar
    stop_lidar_log
    gnss ← retrieve_gnss
    stop_gnss_log
    λ w. save_stop_scan lidar gnss w.stop_scan_directory (next_chunk w) w
