-- ===== src/Watcher/Scan.antt =====
-- code/main.cpp: stateWatcher's branches for continuous scanning, and for the states before it.
use mandeye_controller.Prelude.{
  ℕ, zero, suc, Bool, true, false, not, ◌&&◌, none, some, List, [], ◌∷◌, if◌then◌else◌, is_some,
}
use mandeye_controller.States.{idle, starting_scan, scanning, lidar_error}
use mandeye_controller.Hardware.{led_gpio_continous_scanning}
use mandeye_controller.Livox.{Doubles, is_synced}
use mandeye_controller.Gnss.{Minmea}
use mandeye_controller.App.{on_some}
use mandeye_controller.Watcher.Steps.{
  ◌>>=◌, ◌>>◌, M, done, crashed, modify, get, when, become, set_led, sleep, now, beep, three_leds,
  if_gpio,
}
use mandeye_controller.Watcher.Saving.{start_lidar_log, start_gnss_log}

module _ {G : Type 0} ⦃fl : Doubles⦄ ⦃mm : Minmea G⦄ where
  abbrev unless_quiet : List ℕ → M G (Unit {0})
  unless_quiet durations w = when (not w.disable_buzzer) (beep durations) w

  unfoldable pub on_lidar_error : M G (Unit {0})
  on_lidar_error = if_gpio do
    three_leds false false false
    sleep 1000
    three_leds true false true
    sleep 1000
    unless_quiet (2000 ∷ 100 ∷ 2000 ∷ 100 ∷ 2000 ∷ 100 ∷ 10000 ∷ [])

  unfoldable pub on_usb_io_error : M G (Unit {0})
  on_usb_io_error = if_gpio do
    three_leds false false false
    sleep 1000
    three_leds false true false
    sleep 1000
    unless_quiet (2000 ∷ 100 ∷ 2000 ∷ 100 ∷ 2000 ∷ 100 ∷ 5000 ∷ [])

  -- One look at the lidar: false without one.
  unfoldable pub look_at_sync : M G Bool
  look_at_sync w = elim w.livox [
    | none ↦ done false w
    | some c ↦ elim (is_synced c) [ none ↦ crashed | some synced ↦ done synced w ]
  ]

  -- The loop of at most `n` waits for a synchronised lidar.
  unfoldable pub wait_for_sync : ℕ → M G Bool
  unfolding look_at_sync
  wait_for_sync zero w = done false w
  wait_for_sync (suc n) w =
      let rest : M G Bool = wait_for_sync n in
      (do sleep 1000; synced ← look_at_sync; λ v. if synced then done true v else rest v) w

  unfoldable pub sync_or_fail : M G (Unit {0})
  sync_or_fail = do
    synced ← wait_for_sync 60
    when (not synced) (modify (λ v. record v { is_lidar_error = true }))

  -- The main thread waits for both locks while the lidar is looked at.
  unfoldable pub check_lidar_sync : M G (Unit {0})
  unfolding sync_or_fail
  check_lidar_sync w = when w.board.wait_for_lidar_sync sync_or_fail w

  unfoldable pub tell_publisher : M G (Unit {0})
  tell_publisher = modify (λ w. record w {
    publisher =
        on_some
          (λ p. record p {
            stop_scan_directory = w.stop_scan_directory;
            continous_scan_directory = w.continous_scan_directory;
          })
          w.publisher;
  })

  unfoldable pub on_wait_for_resources : M G (Unit {0})
  on_wait_for_resources = do
    unless_quiet (10 ∷ [])
    sleep 100
    check_lidar_sync
    ready ← get (λ w. is_some w.gpio && w.has_file_system)
    when ready do
      become idle
      unless_quiet (100 ∷ 50 ∷ 100 ∷ 50 ∷ 100 ∷ 50 ∷ 100 ∷ 50 ∷ 100 ∷ 50 ∷ 100 ∷ 50 ∷ [])
    tell_publisher

  unfoldable pub on_idle : M G (Unit {0})
  on_idle = do
    failed ← get (λ w. w.is_lidar_error)
    when failed (become lidar_error)
    if_gpio (three_leds false false false)
    sleep 100
    start ← get (λ w. w.board.autostart && not w.is_lidar_error)
    when start (become starting_scan)

  unfoldable pub blink : ℕ → M G (Unit {0})
  blink millis = do
    set_led led_gpio_continous_scanning true
    sleep millis
    set_led led_gpio_continous_scanning false
    sleep millis

  -- `if(livoxCLientPtr)`: without a lidar the state stays.
  unfoldable pub start_if_lidar : M G (Unit {0})
  start_if_lidar w = when (is_some w.livox) (do start_lidar_log; start_gnss_log; become scanning) w

  unfoldable pub on_starting_scan : M G (Unit {0})
  unfolding blink
  on_starting_scan = do
    if_gpio do
      three_leds false false true
      sleep 100
      set_led led_gpio_continous_scanning false
      sleep 100
      blink 100
    start_if_lidar
    start ← now
    modify (λ w. record w { chunk_start = start })
