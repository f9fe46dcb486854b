-- ===== src/Tests/Loop.antt =====
-- The loop of stateWatcher and the triggers on concrete worlds.
use mandeye_controller.Prelude.{
  ℕ, ◌+◌, ◌≤◌, ◌≡◌, refl, true, false, none, some, [], ◌∷◌, arith, codes,
}
use mandeye_controller.Prelude.Assoc.{lookup}
use mandeye_controller.States.{States, starting_stop_scan, scanning, stopping, lidar_error}
use mandeye_controller.Hardware.{button_stop_scan, standard_rpi4}
use mandeye_controller.App.{World, press, request_start, clock_advances, ms}
use mandeye_controller.App.Triggers.{listens, click, wait, three_clicks}
use mandeye_controller.Watcher.{iterate, iterations}
use mandeye_controller.Watcher.Rules.{Post}
use mandeye_controller.Watcher.Safe.{HasLeds, Logs, Demand, between_rounds}
use mandeye_controller.Watcher.Keeps.{Safe}
use mandeye_controller.Watcher.Rounds.{iterations-Safe}
use mandeye_controller.Watcher.Lasting.{Lasts, stop_scan-Lasts}
use mandeye_controller.Watcher.Changes.{Ends}
use mandeye_controller.Watcher.Chunks.{Adds}
use mandeye_controller.Watcher.Numbered.{iterations-Adds}
use mandeye_controller.Watcher.Errors.{IsIn, is_error, iterations-IsIn}
use mandeye_controller.Tests.Lidar.{whole_doubles, two_lidars}
use mandeye_controller.Tests.Devices.{any_fix, leds_client}

-- A scan that runs, with both clients there; a button and a request come while the loop waits.
abbrev scene : States → World ℕ
scene s = record {
  board = standard_rpi4;
  app_state = s;
  is_lidar_error = false;
  disable_buzzer = false;
  livox = some two_lidars;
  gnss = none;
  gpio = some leds_client;
  has_file_system = true;
  publisher = none;
  stage_1_deadline = 0;
  stage_1_led_deadline = 0;
  stage_2_deadline = 0;
  stage_2_led_deadline = 0;
  clock = 1000;
  laz_works = true;
  disk_works = true;
  chunk_start = 0;
  stop_scan_deadline = 0;
  stop_scan_initial_deadline = 0;
  old_state = s;
  continous_scan_directory = codes "/media/usb/continousScanning_0007";
  stop_scan_directory = codes "/media/usb/stopScans_0007";
  chunks_cs = 0;
  chunks_ss = 0;
  led_1 = true;
  led_2 = true;
  usb_error_reports = 0;
  files = [];
  schedule = (press button_stop_scan ∷ []) ∷ (clock_advances (ms 20000) ∷ request_start ∷ []) ∷ [];
}

scene-Safe : (s : States) → Safe between_rounds (scene s)
unfolding Safe HasLeds Demand Logs standard_rpi4 lookup
scene-Safe s = ((refl, λ l shown. ground arith), (refl, λ need. (refl, refl)))

one_click : (scene scanning).board.stop_1_click ≡ false
unfolding standard_rpi4
one_click = refl

three_clicks_example :
    (click (wait (ms 500) (click (wait (ms 800) (click (scene scanning)))))).app_state ≡ stopping
three_clicks_example = three_clicks (scene scanning) (ms 800) (ms 500) refl one_click

quiet : listens lidar_error ≡ false
unfolding listens
quiet = refl

iterations-Safe_example :
    Post (λ (_ : Unit {0}) v. Safe between_rounds v) (iterations 5 (scene scanning))
iterations-Safe_example = iterations-Safe 5 (scene scanning) (scene-Safe scanning)

failed : IsIn lidar_error (scene lidar_error)
unfolding IsIn
failed = (scene-Safe lidar_error, refl)

is_failed : is_error lidar_error ≡ true
unfolding is_error
is_failed = refl

iterations-Adds_example :
    Post (λ (_ : Unit {0}) v. Adds (scene scanning) v) (iterations 3 (scene scanning))
iterations-Adds_example = iterations-Adds 3 (scene scanning) (scene-Safe scanning)

iterations-IsIn_example :
    Post (λ (_ : Unit {0}) v. IsIn lidar_error v) (iterations 5 (scene lidar_error))
iterations-IsIn_example = iterations-IsIn lidar_error 5 (scene lidar_error) is_failed failed

abbrev quiet_scene : World ℕ
quiet_scene = record (scene scanning) { schedule = [] }

stop_scan-Lasts_example :
    Ends
      (λ v. (d : ℕ) × (((scene starting_stop_scan).clock + ms 5000 ≤ d) × Lasts d 3 v))
      (iterate (scene starting_stop_scan))
stop_scan-Lasts_example = stop_scan-Lasts 3 (scene starting_stop_scan) refl
