-- ===== src/Watcher/Resting.antt =====
-- The branches of stateWatcher that save nothing.
use mandeye_controller.Prelude.{
  ℕ, zero, suc, ◌+◌, refl, true, false, not, ◌&&◌, Option, none, some, [], ◌∷◌, is_some, ltb,
}
use mandeye_controller.States.{
  idle, starting_scan, lidar_error, scanning, stop_scan_in_initial_progress, stop_scan_in_progress,
  stoping_stop_scan,
}
use mandeye_controller.Hardware.{led_gpio_stop_scan, led_gpio_continous_scanning}
use mandeye_controller.Livox
use mandeye_controller.Livox.{Doubles, is_synced}
use mandeye_controller.Gnss.{Minmea}
use mandeye_controller.App.{World, ms}
use mandeye_controller.Watcher.Steps.{done, crashed}
use mandeye_controller.Watcher.Scan.{
  on_lidar_error, on_usb_io_error, look_at_sync, wait_for_sync, sync_or_fail, check_lidar_sync,
  tell_publisher, on_wait_for_resources, on_idle, blink, start_if_lidar, on_starting_scan,
}
use mandeye_controller.Watcher.Stopping.{
  on_starting_stop_scan, start_stop_scan, on_initial_progress, on_progress,
}
use mandeye_controller.Watcher.Changes.{Ends, Does, does, does_if}
use mandeye_controller.Watcher.Chunks.{Adds, Adds-refl}
use mandeye_controller.Watcher.Adding.{
  seq, bind, when_now, plain, enter, got, led, three, wait, clock, quiet, start_lidar, start_gnss,
}

module _ {G : Type 0} ⦃fl : Doubles⦄ ⦃mm : Minmea G⦄ where
  pub on_lidar_error-Adds : Does {G = G} Adds on_lidar_error
  unfolding on_lidar_error
  on_lidar_error-Adds =
      when_now (λ w. is_some w.gpio)
        (seq (three false false false)
          (seq (wait 1000) (seq (three true false true) (seq (wait 1000) (quiet _)))))

  pub on_usb_io_error-Adds : Does {G = G} Adds on_usb_io_error
  unfolding on_usb_io_error
  on_usb_io_error-Adds =
      when_now (λ w. is_some w.gpio)
        (seq (three false false false)
          (seq (wait 1000) (seq (three false true false) (seq (wait 1000) (quiet _)))))

  pub on_idle-Adds : Does {G = G} Adds on_idle
  unfolding on_idle
  on_idle-Adds = bind (got (λ w. w.is_lidar_error)) λ failed.
      seq (when_now (λ _. failed) (enter lidar_error)) (
        seq (when_now (λ w. is_some w.gpio) (three false false false)) (
          seq (wait 100) (
            bind (got (λ w. w.board.autostart && not w.is_lidar_error))
              λ start. when_now (λ _. start) (enter starting_scan))))

  look_at :
      (l : Option Livox.Client) (w : World G)
      → Ends (Adds w) (elim l [
        | none ↦ done false w
        | some c ↦ elim (is_synced c) [ none ↦ crashed | some synced ↦ done synced w ]
      ])
  look_at none w = Adds-refl w
  look_at (some c) w =
      elim (is_synced c)
        as (λ o. Ends (Adds w) (elim o [ none ↦ crashed | some synced ↦ done synced w ])) [
          | none ↦ tt
          | some synced ↦ Adds-refl w
        ]

  wait_for_sync-Adds : (n : ℕ) → Does {G = G} Adds (wait_for_sync n)
  unfolding wait_for_sync look_at_sync
  wait_for_sync-Adds zero = does Adds-refl
  wait_for_sync-Adds (suc n) = seq (wait 1000) (
      bind (does (λ w. look_at w.livox w))
        λ synced. does_if (λ _. synced) (does Adds-refl) (wait_for_sync-Adds n))

  check_lidar_sync-Adds : Does {G = G} Adds check_lidar_sync
  unfolding check_lidar_sync sync_or_fail
  check_lidar_sync-Adds =
      when_now (λ w. w.board.wait_for_lidar_sync)
        (bind (wait_for_sync-Adds 60)
          λ synced. when_now (λ _. not synced) (does (λ w. Adds-refl w)))

  tell_publisher-Adds : Does {G = G} Adds tell_publisher
  unfolding tell_publisher
  tell_publisher-Adds = does Adds-refl

  pub on_wait_for_resources-Adds : Does {G = G} Adds on_wait_for_resources
  unfolding on_wait_for_resources
  on_wait_for_resources-Adds = seq (quiet (10 ∷ [])) (
      seq (wait 100) (
        seq check_lidar_sync-Adds (
          bind (got (λ w. is_some w.gpio && w.has_file_system)) λ ready.
            seq
              (when_now (λ _. ready)
                (seq (enter idle)
                  (quiet (100 ∷ 50 ∷ 100 ∷ 50 ∷ 100 ∷ 50 ∷ 100 ∷ 50 ∷ 100 ∷ 50 ∷ 100 ∷ 50 ∷ []))))
              tell_publisher-Adds)))

  pub on_starting_stop_scan-Adds : Does {G = G} Adds on_starting_stop_scan
  unfolding on_starting_stop_scan
  on_starting_stop_scan-Adds = seq (when_now (λ w. is_some w.gpio) (three false false false)) (
      bind clock λ at.
        seq
          (plain
            (λ w. record w {
              stop_scan_initial_deadline = at + ms 5000;
              stop_scan_deadline = at + ms 5000 + ms 30000;
            })
            λ w. (refl, refl))
          (enter stop_scan_in_initial_progress))

  pub on_initial_progress-Adds : Does {G = G} Adds on_initial_progress
  unfolding on_initial_progress start_stop_scan
  on_initial_progress-Adds = bind clock λ at.
      does_if (λ w. ltb at w.stop_scan_initial_deadline)
        (seq (led led_gpio_stop_scan false)
          (seq (wait 100) (seq (led led_gpio_stop_scan true) (wait 100))))
        (seq (when_now (λ w. is_some w.livox) (seq (led led_gpio_stop_scan true) start_lidar))
          (seq start_gnss (enter stop_scan_in_progress)))

  pub on_progress-Adds : Does {G = G} Adds on_progress
  unfolding on_progress
  on_progress-Adds =
      bind clock λ at. when_now (λ w. ltb w.stop_scan_deadline at) (enter stoping_stop_scan)

  pub on_starting_scan-Adds : Does {G = G} Adds on_starting_scan
  unfolding on_starting_scan blink start_if_lidar
  on_starting_scan-Adds =
      seq
        (when_now (λ w. is_some w.gpio)
          (seq (three false false true) (
            seq (wait 100) (
              seq (led led_gpio_continous_scanning false) (
                seq (wait 100) (
                  seq (led led_gpio_continous_scanning true)
                    (seq (wait 100) (seq (led led_gpio_continous_scanning false) (wait 100)))))))))
        (seq (when_now (λ w. is_some w.livox) (seq start_lidar (seq start_gnss (enter scanning))))
          (bind clock λ start. plain (λ w. record w { chunk_start = start }) λ w. (refl, refl)))
