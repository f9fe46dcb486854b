-- ===== src/Watcher/Saved.antt =====
-- The branches of stateWatcher that stop a scan, those of a stop scan, and those before a scan.
use mandeye_controller.Prelude.{
  ℕ, zero, suc, ◌+◌, ◌≡◌, refl, true, false, Option, List, Text, is_some,
}
use mandeye_controller.States.{States, idle, stop_scan_in_initial_progress, usb_io_error}
use mandeye_controller.Livox
use mandeye_controller.Livox.{Doubles, Point, Imu}
use mandeye_controller.Gnss.{Minmea}
use mandeye_controller.App.{ms}
use mandeye_controller.Watcher.Steps.{modify, become}
use mandeye_controller.Watcher.Saving.{is_empty, next_chunk}
use mandeye_controller.Watcher.Stopping.{
  blinks, save_last, on_stopping, on_starting_stop_scan, save_stop_scan, on_stoping_stop_scan,
}
use mandeye_controller.Watcher.Rules.{Runs, runs, seq, bind, when_now, if_now, look, given}
use mandeye_controller.Watcher.Safe.{Mode, Demand, present, logging, between_rounds, needs_log}
use mandeye_controller.Watcher.Keeps.{Safe}
use mandeye_controller.Watcher.Primitives.{sleep-Safe, now-Safe, three_leds-Safe}
use mandeye_controller.Watcher.Saves.{
  Filled, retrieve_lidar-Safe, stop_lidar_log-Safe, retrieve_gnss-Safe, stop_gnss_log-Safe,
  save_lidar-Safe, save_gnss_data-Safe, Demand-some,
}
use mandeye_controller.Watcher.Logged.{on_copy, on_continous, on_stop}

-- The states that ask for no log can be entered from anywhere.
pub rest-Demand :
    (k : Mode) (s : States)
    → needs_log s ≡ false
    → (l : Option Livox.Client) (t : States) → Demand k t l
    → Demand between_rounds s l
unfolding Demand
rest-Demand k s quiet l t h = (Demand-some k t l h, λ need. cc)

module _ {G : Type 0} ⦃fl : Doubles⦄ ⦃mm : Minmea G⦄ where
  pub come_to_rest :
      (k : Mode) (s : States)
      → needs_log s ≡ false
      → Runs {G = G} (Safe k) (become s) (λ _. Safe between_rounds)
  unfolding Safe
  come_to_rest k s quiet = runs (λ w p. (p.0, rest-Demand k s quiet w.livox w.app_state p.1))

  blinks-Safe : (n : ℕ) → Runs {G = G} (Safe present) (blinks n) (λ _. Safe present)
  unfolding blinks
  blinks-Safe zero = runs (λ w p. p)
  blinks-Safe (suc n) = seq (on_continous present true) (
      seq (sleep-Safe present 50)
        (seq (on_continous present false) (seq (sleep-Safe present 50) (blinks-Safe n))))

  save_last-Safe :
      (lidar : Option (List Point) × Option (List Imu)) (gnss : List Text) (directory : Text)
      (chunk : ℕ)
      → Filled lidar
      → Runs {G = G}
          (Safe present)
          (save_last lidar gnss directory chunk)
          (λ _. Safe between_rounds)
  unfolding save_last Safe needs_log
  save_last-Safe lidar gnss directory chunk h =
      if_now (λ w. is_empty directory) (come_to_rest present usb_io_error refl)
        (seq (save_lidar-Safe present lidar directory chunk h) (
          seq (save_gnss_data-Safe present gnss directory chunk) (
            seq {m = modify (λ v. record v { chunks_cs = v.chunks_cs + 1 })} (runs (λ w p. p))
              (seq (on_copy present false) (come_to_rest present idle refl)))))

  pub on_stopping-Safe : Runs {G = G} (Safe logging) on_stopping (λ _. Safe between_rounds)
  unfolding on_stopping
  on_stopping-Safe = seq (on_continous logging true) (
      seq (on_copy logging true) (
        bind retrieve_lidar-Safe λ lidar. given λ filled. seq stop_lidar_log-Safe (
          bind (retrieve_gnss-Safe present) λ gnss. seq (stop_gnss_log-Safe present) (
            seq (blinks-Safe 20) (
              seq (on_continous present true) (
                seq (on_copy present true) (
                  look (λ v. save_last lidar gnss v.continous_scan_directory (next_chunk v))
                    (λ v.
                      save_last-Safe lidar gnss v.continous_scan_directory (next_chunk v)
                        filled))))))))

  save_stop_scan-Safe :
      (lidar : Option (List Point) × Option (List Imu)) (gnss : List Text) (directory : Text)
      (chunk : ℕ)
      → Filled lidar
      → Runs {G = G}
          (Safe present)
          (save_stop_scan lidar gnss directory chunk)
          (λ _. Safe between_rounds)
  unfolding save_stop_scan Safe needs_log
  save_stop_scan-Safe lidar gnss directory chunk h =
      if_now (λ w. is_empty directory) (come_to_rest present usb_io_error refl)
        (seq (save_lidar-Safe present lidar directory chunk h) (
          seq (save_gnss_data-Safe present gnss directory chunk) (
            seq {m = modify (λ v. record v { chunks_ss = v.chunks_ss + 1 })} (runs (λ w p. p)) (
              seq
                (when_now (λ w. is_some w.gpio)
                  (seq (on_copy present false) (on_stop present false)))
                (come_to_rest present idle refl)))))

  pub on_stoping_stop_scan-Safe :
      Runs {G = G} (Safe logging) on_stoping_stop_scan (λ _. Safe between_rounds)
  unfolding on_stoping_stop_scan
  on_stoping_stop_scan-Safe = seq (when_now (λ w. is_some w.gpio) (on_copy logging true)) (
      bind retrieve_lidar-Safe λ lidar. given λ filled. seq stop_lidar_log-Safe (
        bind (retrieve_gnss-Safe present) λ gnss. seq (stop_gnss_log-Safe present) (
          look (λ v. save_stop_scan lidar gnss v.stop_scan_directory (next_chunk v))
            (λ v. save_stop_scan-Safe lidar gnss v.stop_scan_directory (next_chunk v) filled))))

  pub on_starting_stop_scan-Safe :
      Runs {G = G} (Safe between_rounds) on_starting_stop_scan (λ _. Safe between_rounds)
  unfolding on_starting_stop_scan Safe needs_log
  on_starting_stop_scan-Safe =
      seq (when_now (λ w. is_some w.gpio) (three_leds-Safe between_rounds false false false)) (
        bind (now-Safe between_rounds) λ at.
          seq
            {m = modify (λ w. record w {
              stop_scan_initial_deadline = at + ms 5000;
              stop_scan_deadline = at + ms 5000 + ms 30000;
            })}
            (runs (λ w p. p)) (come_to_rest between_rounds stop_scan_in_initial_progress refl))
