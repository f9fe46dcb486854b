-- ===== src/App/Startup.antt =====
-- code/main.cpp, main: the program before its threads, what its threads for the lidar, the GPIO and
-- the keyboard do, as events, and the callback that beeps at a GNSS fix.
use mandeye_controller.Prelude.{
  ℕ, Bool, true, false, not, ◌&&◌, Option, none, some, List, [], ◌∷◌, ◌++◌, ltb, ◌==◌,
  if◌then◌else◌, Text, codes, is_some, is_empty,
}
use mandeye_controller.Prelude.Int.{ℤ, pos, negsuc}
use mandeye_controller.States.{States, idle, wait_for_resources, usb_io_error}
use mandeye_controller.Hardware.{
  Board, led_gpio_stop_scan, led_gpio_copy_data, led_gpio_continous_scanning, buzzer,
  button_stop_scan, button_continous_scanning,
}
use mandeye_controller.Livox
use mandeye_controller.Livox.Listener.{Call, start_listener}
use mandeye_controller.Gnss
use mandeye_controller.Gnss.{Minmea}
use mandeye_controller.Gpio.{gpio_client}
use mandeye_controller.FileSystem.Sessions.{Session}
use mandeye_controller.App.{
  World, Event, livox_made, livox_started, lidar_failed, gnss_made, publisher_made, gpio_made,
  led_set, callback_added, request_start, request_stop,
}

abbrev pub or_empty : Option Text → Text
or_empty none = []
or_empty (some s) = s

-- The state after the head of stateWatcher: it asks for both directories.
abbrev pub first_state : Session → States
first_state s =
    if is_some s.stop_scan_directory && is_some s.continous_scan_directory
    then wait_for_resources
    else usb_io_error

-- The program when the loop of stateWatcher begins, with nothing made by another thread yet.
unfoldable pub boot : {G : Type 0} → Board → Bool → Session → ℕ → List (List (Event G)) → World G
boot b disable s clock schedule = record {
  board = b;
  app_state = first_state s;
  is_lidar_error = false;
  disable_buzzer = disable;
  livox = none;
  gnss = none;
  gpio = none;
  has_file_system = true;
  publisher = none;
  stage_1_deadline = 0;
  stage_1_led_deadline = 0;
  stage_2_deadline = 0;
  stage_2_led_deadline = 0;
  clock = clock;
  laz_works = true;
  disk_works = true;
  chunk_start = clock;
  stop_scan_deadline = clock;
  stop_scan_initial_deadline = clock;
  old_state = idle;
  continous_scan_directory = or_empty s.continous_scan_directory;
  stop_scan_directory = or_empty s.stop_scan_directory;
  chunks_cs = 0;
  chunks_ss = 0;
  led_1 = true;
  led_2 = true;
  usb_error_reports = 0;
  files = [];
  schedule = schedule;
}

abbrev pub livox_client : Livox.Client
livox_client = record {
  buffer_livox = none;
  buffer_imu = none;
  timestamp = 0;
  elapsed = 0;
  session_start = none;
  recived_imu_msgs = [];
  recived_point_messages = [];
  lidar_info = [];
  lidar_work_mode = [];
  lidar_time_sync = [];
  handle_to_last_timestamp = [];
  handle_to_serial_number = [];
  serial_numbers = [];
  init_succes = false;
}

abbrev pub gnss_client : {G : Type 0} → Gnss.Client G
gnss_client = record {
  buffer = [];
  rawbuffer = [];
  last_line = [];
  is_logging = false;
  last_gga = none;
  message_count = 0;
}

-- What the greeting of the LEDs does three times.
abbrev pub greeting : {G : Type 0} → List (Event G)
greeting =
    led_set led_gpio_stop_scan true
    ∷ led_set led_gpio_stop_scan false
    ∷ led_set led_gpio_continous_scanning true
    ∷ led_set led_gpio_continous_scanning false
    ∷ led_set led_gpio_copy_data true
    ∷ led_set led_gpio_copy_data false
    ∷ []

abbrev above : ℕ → ℤ → Bool
above n (pos m) = ltb n m
above n (negsuc m) = false

module _ {G : Type 0} where
  -- What thLivox does after startListener has returned; whether the GNSS client opens its port is
  -- not looked at.
  abbrev pub after_listener : Board → Option ((Bool × Livox.Client) × List Call) → List (Event G)
  after_listener b none = []
  after_listener b (some ((ok, c), calls)) =
      livox_started ok
      ∷ ((if ok then [] else lidar_failed ∷ [])
          ++ ((if is_empty b.gnss_port then [] else gnss_made gnss_client ∷ [])
              ++ publisher_made ∷ []))

  -- The thread thLivox.
  unfoldable pub livox_thread : (accepts : Text → Bool) → Text → Board → List (Event G)
  livox_thread accepts ip b =
      livox_made livox_client ∷ after_listener b (start_listener accepts ip livox_client)

  -- The thread thGpio.
  unfoldable pub gpio_thread : Board → Bool → Bool → (ℕ → Bool) → List (Event G)
  gpio_thread b sim chip has_line =
      gpio_made (gpio_client b sim chip has_line)
      ∷ (greeting
          ++ (greeting
              ++ (greeting
                  ++ callback_added button_stop_scan (codes "BUTTON_STOP_SCAN")
                    ∷ callback_added button_continous_scanning (codes "BUTTON_CONTINOUS_SCANNING")
                    ∷ [])))

  -- The loop of main over the characters that are typed; after a q it ends.
  unfoldable pub keyboard : List ℕ → List (Event G)
  keyboard [] = []
  keyboard (ch ∷ rest) =
      let later = keyboard rest in
      if ch == b'q'
      then []
      else if ch == b's'
      then request_start ∷ later
      else if ch == b'e'
      then request_stop ∷ later
      else later

  -- The callback for a sentence with a position: a beep of ten milliseconds.
  unfoldable pub fix_beep : ⦃mm : Minmea G⦄ → G → World G → List (Event G)
  fix_beep ⦃mm⦄ gga w =
      if is_some w.gpio
        && (above 0 (mm.fix_quality gga)
            && (above 5 (mm.satellites_tracked gga) && not w.disable_buzzer))
      then led_set buzzer true ∷ led_set buzzer false ∷ []
      else []
