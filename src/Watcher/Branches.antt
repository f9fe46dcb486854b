-- ===== src/Watcher/Branches.antt =====
-- The other branches of stateWatcher: what comes before a scan, the errors, and a stop scan.
use mandeye_controller.Prelude.{
  ℕ, refl, true, false, not, ◌&&◌, Option, List, [], ◌∷◌, ltb, is_some,
}
use mandeye_controller.States.{
  States, idle, starting_scan, scanning, stop_scan_in_progress, stoping_stop_scan, lidar_error,
}
use mandeye_controller.Livox
use mandeye_controller.Livox.{Doubles}
use mandeye_controller.Gnss.{Minmea}
use mandeye_controller.App.{World}
use mandeye_controller.Watcher.Steps.{M, when, become, beep}
use mandeye_controller.Watcher.Scan.{
  on_lidar_error, on_usb_io_error, on_wait_for_resources, on_idle, on_starting_scan, start_if_lidar,
  check_lidar_sync, sync_or_fail, tell_publisher, blink,
}
use mandeye_controller.Watcher.Stopping.{start_stop_scan, on_initial_progress, on_progress}
use mandeye_controller.Watcher.Rules.{
  Runs, runs, run, seq, bind, got, when_now, when_keeps, if_now, weaken,
}
use mandeye_controller.Watcher.Safe.{Mode, Demand, present, logging, between_rounds, needs_log}
use mandeye_controller.Watcher.Keeps.{Safe}
use mandeye_controller.Watcher.Primitives.{
  sleep-Safe, now-Safe, beep-Safe, three_leds-Safe, become-Safe, modify-Safe,
}
use mandeye_controller.Watcher.Saves.{start_lidar_log-Safe, start_gnss_log-Safe, Demand-some}
use mandeye_controller.Watcher.Rules.{not_taken}
use mandeye_controller.Watcher.Logged.{on_continous, on_stop}
use mandeye_controller.Watcher.Saved.{come_to_rest}

Logs-Demand :
    (l : Option Livox.Client) (s t : States) → Demand logging s l → Demand between_rounds t l
unfolding Demand
Logs-Demand l s t h = (Demand-some logging s l h, λ need. h)

module _ {G : Type 0} ⦃fl : Doubles⦄ ⦃mm : Minmea G⦄ where
  pub Safe-end : (w : World G) → Safe logging w → Safe between_rounds w
  unfolding Safe
  Safe-end w h = (h.0, Logs-Demand w.livox w.app_state w.app_state h.1)

  Safe-present : (w : World G) → Safe between_rounds w → Safe present w
  unfolding Safe Demand
  Safe-present w h = (h.0, h.1.0)

  -- The first part of a `with lidar` branch is always taken.
  with_lidar :
      {m : M G (Unit {0})}
      → Runs (Safe present) m (λ _. Safe logging)
      → Runs (Safe present) (λ w. when (is_some w.livox) m w) (λ _. Safe logging)
  unfolding Safe Demand
  with_lidar h = runs (λ w p. rw p.1 (run h w p))

  become_logged : (s : States) → Runs {G = G} (Safe logging) (become s) (λ _. Safe logging)
  unfolding Demand
  become_logged s = become-Safe logging s (λ l t h. h)

  start_stop_scan-Safe : Runs {G = G} (Safe present) start_stop_scan (λ _. Safe logging)
  unfolding start_stop_scan
  start_stop_scan-Safe =
      seq (with_lidar (seq (on_stop present true) start_lidar_log-Safe))
        (seq (start_gnss_log-Safe logging) (become_logged stop_scan_in_progress))

  pub on_initial_progress-Safe :
      Runs {G = G} (Safe between_rounds) on_initial_progress (λ _. Safe between_rounds)
  unfolding on_initial_progress
  on_initial_progress-Safe = bind (now-Safe between_rounds) λ at.
      if_now (λ w. ltb at w.stop_scan_initial_deadline)
        (seq (on_stop between_rounds false) (
          seq (sleep-Safe between_rounds 100)
            (seq (on_stop between_rounds true) (sleep-Safe between_rounds 100))))
        (weaken Safe-present (λ _. Safe-end) start_stop_scan-Safe)

  pub on_progress-Safe : Runs {G = G} (Safe logging) on_progress (λ _. Safe logging)
  unfolding on_progress
  on_progress-Safe =
      bind (now-Safe logging)
        λ at. when_now (λ w. ltb w.stop_scan_deadline at) (become_logged stoping_stop_scan)

  start_if_lidar-Safe : Runs {G = G} (Safe present) start_if_lidar (λ _. Safe logging)
  unfolding start_if_lidar
  start_if_lidar-Safe =
      with_lidar
        (seq start_lidar_log-Safe (seq (start_gnss_log-Safe logging) (become_logged scanning)))

  pub on_starting_scan-Safe :
      Runs {G = G} (Safe between_rounds) on_starting_scan (λ _. Safe between_rounds)
  unfolding on_starting_scan blink Safe
  on_starting_scan-Safe =
      weaken Safe-present (λ _. Safe-end)
        (seq
          (when_now (λ w. is_some w.gpio)
            (seq (three_leds-Safe present false false true) (
              seq (sleep-Safe present 100) (
                seq (on_continous present false) (
                  seq (sleep-Safe present 100) (
                    seq (on_continous present true) (
                      seq (sleep-Safe present 100)
                        (seq (on_continous present false) (sleep-Safe present 100)))))))))
          (seq start_if_lidar-Safe (
            bind (now-Safe logging)
              λ start. modify-Safe logging (λ w. record w { chunk_start = start }) (λ w p. p))))

  quiet-Safe :
      (k : Mode) (ds : List ℕ)
      → Runs {G = G} (Safe k) (λ w. when (not w.disable_buzzer) (beep ds) w) (λ _. Safe k)
  quiet-Safe k ds = when_now (λ w. not w.disable_buzzer) (beep-Safe k ds)

  pub on_lidar_error-Safe : (k : Mode) → Runs {G = G} (Safe k) on_lidar_error (λ _. Safe k)
  unfolding on_lidar_error
  on_lidar_error-Safe k =
      when_now (λ w. is_some w.gpio)
        (seq (three_leds-Safe k false false false) (
          seq (sleep-Safe k 1000)
            (seq (three_leds-Safe k true false true) (seq (sleep-Safe k 1000) (quiet-Safe k _)))))

  pub on_usb_io_error-Safe : (k : Mode) → Runs {G = G} (Safe k) on_usb_io_error (λ _. Safe k)
  unfolding on_usb_io_error
  on_usb_io_error-Safe k =
      when_now (λ w. is_some w.gpio)
        (seq (three_leds-Safe k false false false) (
          seq (sleep-Safe k 1000)
            (seq (three_leds-Safe k false true false) (seq (sleep-Safe k 1000) (quiet-Safe k _)))))

  pub on_idle-Safe : Runs {G = G} (Safe between_rounds) on_idle (λ _. Safe between_rounds)
  unfolding on_idle needs_log
  on_idle-Safe = bind (got (λ w. w.is_lidar_error)) λ failed.
      seq (when_keeps failed (come_to_rest between_rounds lidar_error refl)) (
        seq (when_now (λ w. is_some w.gpio) (three_leds-Safe between_rounds false false false)) (
          seq (sleep-Safe between_rounds 100) (
            bind (got (λ w. w.board.autostart && not w.is_lidar_error))
              λ start. when_keeps start (come_to_rest between_rounds starting_scan refl))))

  check_lidar_sync-Safe :
      Runs {G = G} (Safe between_rounds) check_lidar_sync (λ _. Safe between_rounds)
  unfolding check_lidar_sync Safe
  check_lidar_sync-Safe = runs (λ w p.
      not_taken (λ _. Safe between_rounds) w.board.wait_for_lidar_sync sync_or_fail w p.0.0 p)

  tell_publisher-Safe : Runs {G = G} (Safe between_rounds) tell_publisher (λ _. Safe between_rounds)
  unfolding tell_publisher Safe
  tell_publisher-Safe = runs (λ w p. p)

  pub on_wait_for_resources-Safe :
      Runs {G = G} (Safe between_rounds) on_wait_for_resources (λ _. Safe between_rounds)
  unfolding on_wait_for_resources needs_log
  on_wait_for_resources-Safe = seq (quiet-Safe between_rounds (10 ∷ [])) (
      seq (sleep-Safe between_rounds 100) (
        seq check_lidar_sync-Safe (
          bind (got (λ w. is_some w.gpio && w.has_file_system)) λ ready.
            seq
              (when_keeps ready (
                seq (come_to_rest between_rounds idle refl) (
                  quiet-Safe between_rounds
                    (100 ∷ 50 ∷ 100 ∷ 50 ∷ 100 ∷ 50 ∷ 100 ∷ 50 ∷ 100 ∷ 50 ∷ 100 ∷ 50 ∷ []))))
              tell_publisher-Safe)))
