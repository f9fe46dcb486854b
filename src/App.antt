-- ===== src/App.antt =====
-- code/main.cpp: the objects that the program's threads share, what the other threads do to them,
-- and the triggers of the buttons, the keyboard and the web page. Times are nanoseconds of the
-- steady clock.
pub mod Triggers
pub mod Web
pub mod Startup
use mandeye_controller.Prelude.{
  ℕ, ◌+◌, ◌*◌, Bool, true, false, ◌||◌, Option, none, some, List, [], ◌∷◌, ltb, if◌then◌else◌, Text,
}
use mandeye_controller.States.{
  States, state_eq, idle, starting_scan, scanning, stopping, stopping_stage_1, stopping_stage_2,
  stopped, starting_stop_scan,
}
use mandeye_controller.Hardware.{Board, Button, Led, button_stop_scan, button_continous_scanning}
use mandeye_controller.Livox
use mandeye_controller.Livox.{Doubles, Point, Imu, initialize_duration}
use mandeye_controller.Livox.Events
use mandeye_controller.Livox.Events.{deliver}
use mandeye_controller.Gnss
use mandeye_controller.Gnss.{Minmea, worker_line}
use mandeye_controller.Gpio

abbrev pub ms : ℕ → ℕ
ms n = n * 1000000

-- What a saved file holds. The report in a status file is cut to the state that it names.
pub data Content : Type 0 where
  laz : List Point → Content
  imu_csv : List Imu → Content
  status : States → Content
  lidar_sn : List (ℕ × Text) → Content
  gnss_csv : List Text → Content
  nmea : List Text → Content

pub record File : Type 0 where
  pub directory : Text
  pub chunk : ℕ
  pub content : Content

pub record Publisher : Type 0 where
  pub mode : Text
  pub stop_scan_directory : Text
  pub continous_scan_directory : Text

-- What another thread does between two steps of stateWatcher. `gnss_line` has the system clock;
-- `laz_saves` says whether saveLaz succeeds from now on; `livox_started` is what startListener notes.
pub data Event (G : Type 0) : Type 0 where
  press : Button → Event G
  request_start request_stop request_stop_scan : Event G
  livox_made : Livox.Client → Event G
  gnss_made : Gnss.Client G → Event G
  gpio_made : Gpio.Client → Event G
  publisher_made : Event G
  lidar_failed : Event G
  livox_event : Livox.Events.Event → Event G
  gnss_line : Text → ℕ → Event G
  clock_advances : ℕ → Event G
  laz_saves disk_opens : Bool → Event G
  led_set : Led → Bool → Event G
  callback_added : Button → Text → Event G
  livox_started : Bool → Event G

-- The globals of main.cpp, the locals of stateWatcher and its static variables, the files written
-- so far, and the schedule: what happens at each point where stateWatcher waits or reads a clock.
pub record World (G : Type 0) : Type 0 where
  pub board : Board
  pub app_state : States
  pub is_lidar_error : Bool
  pub disable_buzzer : Bool
  pub livox : Option Livox.Client
  pub gnss : Option (Gnss.Client G)
  pub gpio : Option Gpio.Client
  pub has_file_system : Bool
  pub publisher : Option Publisher
  pub stage_1_deadline : ℕ
  pub stage_1_led_deadline : ℕ
  pub stage_2_deadline : ℕ
  pub stage_2_led_deadline : ℕ
  pub clock : ℕ
  pub laz_works : Bool
  pub disk_works : Bool
  pub chunk_start : ℕ
  pub stop_scan_deadline : ℕ
  pub stop_scan_initial_deadline : ℕ
  pub old_state : States
  pub continous_scan_directory : Text
  pub stop_scan_directory : Text
  pub chunks_cs : ℕ
  pub chunks_ss : ℕ
  pub led_1 : Bool
  pub led_2 : Bool
  pub usb_error_reports : ℕ
  pub files : List File
  pub schedule : List (List (Event G))

abbrev pub on_some : {A : Type 0} → (A → A) → Option A → Option A
on_some f none = none
on_some f (some a) = some (f a)

abbrev pub is_ready : States → Bool
is_ready s = state_eq s idle || state_eq s stopped

-- m_timestamp of the provider, 0 without one.
abbrev pub stamp_of : Option Livox.Client → ℕ
stamp_of none = 0
stamp_of (some c) = c.timestamp

module _ {G : Type 0} where
  unfoldable pub start_scan : World G → Bool × World G
  start_scan w =
      if is_ready w.app_state then (true, record w { app_state = starting_scan }) else (false, w)

  unfoldable pub stop_scan : World G → Bool × World G
  stop_scan w =
      if state_eq w.app_state scanning
      then (true, record w { app_state = stopping })
      else (false, w)

  unfoldable pub trigger_stop_scan : World G → Bool × World G
  trigger_stop_scan w =
      if is_ready w.app_state
      then (true, record w { app_state = starting_stop_scan })
      else (false, w)

  unfoldable pub trigger_continous_scanning : World G → Bool × World G
  trigger_continous_scanning w =
      if is_ready w.app_state
      then (
        true,
        record w { livox = on_some initialize_duration w.livox; app_state = starting_scan },
      )
      else if state_eq w.app_state scanning
      then if w.board.stop_1_click then (true, record w { app_state = stopping }) else (
        true,
        record w {
          app_state = stopping_stage_1;
          stage_1_deadline = w.clock + ms 2000;
          stage_1_led_deadline = w.clock + ms 100;
        },
      )
      else if state_eq w.app_state stopping_stage_1
      then (
        true,
        if ltb w.clock w.stage_1_deadline
            then record w {
              stage_2_deadline = w.clock + ms 2000;
              stage_2_led_deadline = w.clock + ms 25;
              app_state = stopping_stage_2;
            }
            else w,
      )
      else if state_eq w.app_state stopping_stage_2
      then (true, if ltb w.clock w.stage_2_deadline then record w { app_state = stopping } else w)
      else (false, w)

-- The callbacks that main gives to the two buttons.
abbrev pub button_pressed : {G : Type 0} → Button → World G → World G
button_pressed button_stop_scan w = (trigger_stop_scan w).1
button_pressed button_continous_scanning w = (trigger_continous_scanning w).1

-- setLed by another thread; without the LED, where its assertion would fail, nothing is changed.
abbrev pub led_or_same : Led → Bool → Gpio.Client → Gpio.Client
led_or_same l state c = elim (Gpio.set_led l state c) [ none ↦ c | some d ↦ d ]

module _ {G : Type 0} ⦃fl : Doubles⦄ ⦃mm : Minmea G⦄ where
  unfoldable pub apply : Event G → World G → World G
  apply (press b) w = button_pressed b w
  apply request_start w = (start_scan w).1
  apply request_stop w = (stop_scan w).1
  apply request_stop_scan w = (trigger_stop_scan w).1
  apply (livox_made c) w = record w { livox = elim w.livox [ none ↦ some c | some d ↦ some d ] }
  apply (gnss_made c) w = record w { gnss = elim w.gnss [ none ↦ some c | some d ↦ some d ] }
  apply (gpio_made c) w = record w { gpio = elim w.gpio [ none ↦ some c | some d ↦ some d ] }
  apply publisher_made w = record w {
    publisher =
        some (record { mode = []; stop_scan_directory = []; continous_scan_directory = [] });
  }
  apply lidar_failed w = record w { is_lidar_error = true }
  apply (livox_event e) w = record w { livox = on_some (deliver e) w.livox }
  apply (gnss_line line millis) w = record w {
    gnss = on_some (worker_line line (stamp_of w.livox) millis) w.gnss;
  }
  apply (clock_advances n) w = record w { clock = w.clock + n }
  apply (laz_saves b) w = record w { laz_works = b }
  apply (disk_opens b) w = record w { disk_works = b }
  apply (led_set l state) w = record w { gpio = on_some (led_or_same l state) w.gpio }
  apply (callback_added b name) w = record w {
    gpio = on_some (Gpio.add_button_callback b name) w.gpio;
  }
  apply (livox_started ok) w = record w {
    livox = on_some (λ c. record c { init_succes = ok }) w.livox;
  }

  unfoldable pub apply_all : List (Event G) → World G → World G
  unfolding apply
  apply_all [] w = w
  apply_all (e ∷ es) w = apply_all es (apply e w)
