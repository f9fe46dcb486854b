-- ===== src/Tests/Start.antt =====
-- The program's start on concrete boards, answers and files.
use mandeye_controller.Prelude.{
  ℕ, ◌≡◌, refl, true, false, none, some, List, [], ◌∷◌, ◌++◌, arith, codes, length, ◌↔◌, Among, ◌<◌,
}
use mandeye_controller.Prelude.Assoc.{lookup}
use mandeye_controller.Prelude.Merge.{Merge-append}
use mandeye_controller.Prelude.Int.{pos}
use mandeye_controller.Hardware.{standard_rpi4, button_stop_scan}
use mandeye_controller.FileSystem.Sessions.{Session}
use mandeye_controller.App.{Event, apply_all, press}
use mandeye_controller.App.Startup.{boot, livox_thread, gpio_thread}
use mandeye_controller.Livox.Listener.{
  sdk_init, set_point_cloud_callback, set_imu_data_callback, set_info_change_callback,
  start_watch_thread, set_work_mode, query_internal_info, normal, test_round, start_listener,
  placeholder,
}
use mandeye_controller.Livox.{Client}
use mandeye_controller.Livox.Events.{query_info, deliver}
use mandeye_controller.Livox.Query.Params.{Param, encode, response_of}
use mandeye_controller.Livox.Listener.Config.{config}
use mandeye_controller.Livox.Listener.Woken.{mode_after, answer_wakes}
use mandeye_controller.Livox.Listener.Watched.{
  pieces, joined, Known, Sleeps, start_listener-calls, test_round-calls,
}
use mandeye_controller.Watcher.{iterations}
use mandeye_controller.Watcher.Rules.{Post}
use mandeye_controller.Watcher.Safe.{between_rounds}
use mandeye_controller.Watcher.Keeps.{Safe}
use mandeye_controller.Watcher.Started.{program-Safe}
use mandeye_controller.Tests.Lidar.{whole_doubles, two_lidars}
use mandeye_controller.Tests.Devices.{any_fix}

-- A stick is there.
abbrev session : Session
session = record {
  stop_scan_directory = some (codes "/media/usb/stopScans_0007");
  continous_scan_directory = some (codes "/media/usb/continousScanning_0007");
  id_manifest = pos 7;
}

abbrev lidar_steps : List (Event ℕ)
lidar_steps = livox_thread (λ file. true) (codes "192.168.1.50") standard_rpi4

abbrev gpio_steps : List (Event ℕ)
gpio_steps = gpio_thread standard_rpi4 false true (λ n. true)

quick : standard_rpi4.wait_for_lidar_sync ≡ false
unfolding standard_rpi4
quick = refl

program-Safe_example :
    Post
      (λ (_ : Unit {0}) v. Safe between_rounds v)
      (iterations 3 (
        apply_all
          ((lidar_steps ++ gpio_steps) ++ (press button_stop_scan ∷ []))
          (boot standard_rpi4 false session 0 [])))
program-Safe_example =
    program-Safe standard_rpi4 false session 0 [] (λ file. true) (codes "192.168.1.50") false true
      (λ n. true) (Merge-append lidar_steps gpio_steps)
      (Merge-append (lidar_steps ++ gpio_steps) (press button_stop_scan ∷ [])) quick (tt, tt) 3

abbrev waking : Client
waking = record two_lidars { lidar_work_mode = (7, pos 2) ∷ [] }

start_listener-calls_example :
    (config ≡ joined placeholder pieces)
    × (start_listener (λ file. true) (codes "192.168.1.50") two_lidars
        ≡ some (
          (true, two_lidars),
          sdk_init (joined (codes "192.168.1.50") pieces)
              ∷ set_point_cloud_callback
              ∷ set_imu_data_callback
              ∷ set_info_change_callback
              ∷ start_watch_thread
              ∷ [],
        ))
start_listener-calls_example = start_listener-calls (λ file. true) (codes "192.168.1.50") two_lidars

test_round-calls_example :
    (Among (query_internal_info 7) (test_round waking) ↔ Known 7 waking.handle_to_serial_number)
    × (Among (set_work_mode 7 1) (test_round waking) ↔ (
        (1 ≡ normal)
        × Sleeps (lookup 7 waking.lidar_work_mode)
        × Known 7 waking.handle_to_serial_number))
test_round-calls_example = test_round-calls waking 7 1

-- The lidar answers that it is in mode 2.
abbrev in_mode_2 : List Param
in_mode_2 = record { key = 0x001a; value = 2 ∷ [] } ∷ []

in_mode_2-small : length (encode in_mode_2) < 65536
unfolding encode
in_mode_2-small = omega arith

known : Known 7 two_lidars.handle_to_serial_number
unfolding lookup
known = refl

answer_wakes_example :
    (Among
        (set_work_mode 7 normal)
        (test_round (deliver (query_info 0 7 (some (response_of in_mode_2))) two_lidars))
      ↔ Sleeps (mode_after in_mode_2 (lookup 7 two_lidars.lidar_work_mode)))
    × Among (set_work_mode 7 normal) (test_round (deliver (query_info 4 7 none) two_lidars))
answer_wakes_example =
    answer_wakes 7 in_mode_2 two_lidars 4 none known ((omega arith, omega arith, omega arith), tt)
      (omega arith) in_mode_2-small (omega arith)
