-- ===== src/Tests/Devices.antt =====
-- The GNSS client, the GPIO client and the medium on concrete inputs.
use mandeye_controller.Prelude.{
  ℕ, ◌≡◌, refl, Bool, true, false, none, some, List, [], ◌∷◌, ◌++◌, arith, Text, codes, map,
  if◌then◌else◌,
}
use mathlib.Core.List.{flatten}
use mandeye_controller.Prelude.Assoc.{lookup}
use mandeye_controller.Prelude.Int.{pos}
use mandeye_controller.Gnss
use mandeye_controller.Gnss.{Minmea, worker_line, stop_log, sanitize_line, raw_entry_to_line}
use mandeye_controller.Gnss.Logging.{Op, line, take, hand_overs, csv_lines, hand_overs-csv_lines}
use mandeye_controller.Hardware.{led_gpio_copy_data, up}
use mandeye_controller.Gpio
use mandeye_controller.Gpio.{LedData, ButtonData, set_led, set_led_data, beep, led_or_new}
use mandeye_controller.Gpio.Debounce.{read_backs, fires, read_backs-fires}
use mandeye_controller.FileSystem.{Disk, line_of}
use mandeye_controller.FileSystem.Sessions.{
  IsUsable, session_numbers, count_from, session_numbers-count_from,
}
use mandeye_controller.FileSystem.Frozen.{IsFrozen}
use mandeye_controller.Tests.Lidar.{whole_doubles}

-- A parser that takes every line for the same fix.
instance abbrev pub any_fix : Minmea ℕ
any_fix = record {
  check = λ s. true;
  parse_gga = λ s. some 0;
  latitude = λ g. codes "52.1";
  longitude = λ g. codes "21.0";
  altitude = λ g. codes "110";
  hdop = λ g. codes "0.9";
  height = λ g. codes "35";
  dgps_age = λ g. codes "0";
  satellites_tracked = λ g. pos 9;
  hours = λ g. pos 12;
  minutes = λ g. pos 30;
  seconds = λ g. pos 5;
  fix_quality = λ g. pos 1;
}

abbrev logging_client : Gnss.Client ℕ
logging_client = record {
  buffer = [];
  rawbuffer = [];
  last_line = [];
  is_logging = true;
  last_gga = none;
  message_count = 0;
}

abbrev minute : List Op
minute = line (codes "$GPGGA") 100 200 ∷ take ∷ line (codes "$GPGGA") 300 400 ∷ []

hand_overs-csv_lines_example :
    ((hand_overs minute logging_client).1.is_logging ≡ true)
    × (flatten (hand_overs minute logging_client).0 ++ (hand_overs minute logging_client).1.buffer
        ≡ [] ++ csv_lines ℕ minute)
hand_overs-csv_lines_example = hand_overs-csv_lines minute logging_client refl

-- A letter, a control character and a byte above ASCII.
abbrev noise : Text
noise = 65 ∷ 1 ∷ 200 ∷ []

abbrev button : ButtonData
button = record {
  name = codes "BUTTON_STOP_SCAN";
  line = some 5;
  pressed_time = 0;
  pull_mode = up;
  pressed = false;
  callbacks = codes "BUTTON_STOP_SCAN" ∷ [];
}

abbrev levels : List Bool
levels = false ∷ true ∷ true ∷ true ∷ false ∷ true ∷ []

read_backs-fires_example :
    (read_backs levels button).0
    ≡ map (λ fire. if fire then button.callbacks else []) (fires false false levels)
read_backs-fires_example = read_backs-fires levels button (omega arith)

abbrev held_button : ButtonData
held_button = record button { pressed = true }

abbrev led_of : Text → ℕ → LedData
led_of name pin = record { name = name; state = false; line = some pin }

abbrev pub leds_client : Gpio.Client
leds_client = record {
  use_simulated_gpio = false;
  led_gpio =
      (0, led_of (codes "LED_GPIO_STOP_SCAN") 26)
      ∷ (1, led_of (codes "LED_GPIO_COPY_DATA") 19)
      ∷ (2, led_of (codes "LED_GPIO_CONTINOUS_SCANNING") 13)
      ∷ (3, led_of (codes "BUZZER") 12)
      ∷ [];
  buttons = [];
  writes = [];
}

set_copy :
    set_led led_gpio_copy_data true leds_client
    ≡ some (set_led_data led_gpio_copy_data true leds_client)
unfolding set_led lookup
set_copy = refl

abbrev disk_of : Bool → Disk
disk_of manifest_writable = record {
  writable = true;
  manifest = some (line_of (pos 7));
  manifest_readable = true;
  manifest_writable = manifest_writable;
  version = none;
  version_writable = true;
  create_directories = λ path. record { value = 0; message = [] };
  directories = [];
}

abbrev usable : IsUsable (disk_of true)
usable = record {
  writable = refl;
  manifest_readable = refl;
  manifest_writable = refl;
  creates = λ path. refl;
}

session_numbers-count_from_example :
    session_numbers 3 (codes "/media/usb/") (disk_of true) ≡ count_from 7 3
session_numbers-count_from_example =
    session_numbers-count_from 3 (codes "/media/usb/") (disk_of true) 7 usable refl (omega arith)

abbrev frozen : IsFrozen 7 (disk_of false)
frozen = record {
  writable = refl;
  manifest_readable = refl;
  manifest_frozen = refl;
  manifest = refl;
}
