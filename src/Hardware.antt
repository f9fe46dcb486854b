-- ===== src/Hardware.antt =====
-- code/hardware_config: LEDs, buttons, pull modes, and one record for each board's header.
pub mod Boards
use mandeye_controller.Prelude.{ℕ, Bool, true, false, List, [], ◌∷◌, Text, codes}
use mandeye_controller.Prelude.Int.{ℤ, pos, minus_one}

pub data Led : Type 0 where
  led_gpio_stop_scan led_gpio_copy_data led_gpio_continous_scanning buzzer : Led
  lidar_sync_1 lidar_sync_2 : Led

pub data Button : Type 0 where
  button_stop_scan button_continous_scanning : Button

pub data Pull : Type 0 where
  up down off : Pull

-- The enumerators' values, by which the maps are keyed.
abbrev pub led_id : Led → ℕ
led_id led_gpio_stop_scan = 0
led_id led_gpio_copy_data = 1
led_id led_gpio_continous_scanning = 2
led_id buzzer = 3
led_id lidar_sync_1 = 4
led_id lidar_sync_2 = 5

abbrev pub button_id : Button → ℕ
button_id button_stop_scan = 0
button_id button_continous_scanning = 1

-- What a board's header defines. `stop_1_click` is MANDEYE_COUNTINOUS_SCANNING_STOP_1_CLICK;
-- `aborts_on_usb_error` and `beeps_on_save` stand for the bodies of ReportState and OnSavedLaz.
pub record Board : Type 0 where
  pub name : Text
  pub chip : Text
  pub autostart : Bool
  pub wait_for_lidar_sync : Bool
  pub stop_1_click : Bool
  pub aborts_on_usb_error : Bool
  pub beeps_on_save : Bool
  pub led_pin : Led → ℤ
  pub button_pin : Button → ℤ
  pub pull : Button → Pull
  pub lidar_sync_leds : List Led
  pub lidar_sync_ports : List Text
  pub gnss_port : Text
  pub gnss_baudrate : ℕ

-- A GetLED table: stop scan, copy data, continuous scanning, buzzer, sync 1, sync 2.
abbrev leds : ℤ → ℤ → ℤ → ℤ → ℤ → ℤ → Led → ℤ
leds a b c d e f led_gpio_stop_scan = a
leds a b c d e f led_gpio_copy_data = b
leds a b c d e f led_gpio_continous_scanning = c
leds a b c d e f buzzer = d
leds a b c d e f lidar_sync_1 = e
leds a b c d e f lidar_sync_2 = f

abbrev buttons : ℤ → ℤ → Button → ℤ
buttons a b button_stop_scan = a
buttons a b button_continous_scanning = b

unfoldable pub standard_rpi4 : Board
standard_rpi4 = record {
  name = codes "MandeyeStandard";
  chip = codes "/dev/gpiochip0";
  autostart = false;
  wait_for_lidar_sync = false;
  stop_1_click = false;
  aborts_on_usb_error = false;
  beeps_on_save = false;
  led_pin = leds (pos 26) (pos 19) (pos 13) (pos 12) minus_one minus_one;
  button_pin = buttons (pos 5) (pos 6);
  pull = λ b. up;
  lidar_sync_leds = [];
  lidar_sync_ports = [];
  gnss_port = codes "/dev/S0";
  gnss_baudrate = 38400;
}

unfoldable pub standard_rpi5 : Board
standard_rpi5 = record {
  name = codes "MandeyeStandard";
  chip = codes "/dev/gpiochip4";
  autostart = false;
  wait_for_lidar_sync = false;
  stop_1_click = true;
  aborts_on_usb_error = false;
  beeps_on_save = false;
  led_pin = leds (pos 26) (pos 19) (pos 13) (pos 12) minus_one minus_one;
  button_pin = buttons (pos 5) (pos 6);
  pull = λ b. up;
  lidar_sync_leds = [];
  lidar_sync_ports = [];
  gnss_port = codes "/dev/ttyAMA0";
  gnss_baudrate = 115200;
}

unfoldable pub standard_rpi4_pps : Board
standard_rpi4_pps = record {
  name = codes "MandeyeStandardRPi4PPS";
  chip = codes "/dev/gpiochip0";
  autostart = false;
  wait_for_lidar_sync = false;
  stop_1_click = false;
  aborts_on_usb_error = false;
  beeps_on_save = false;
  led_pin = leds (pos 26) (pos 19) (pos 13) (pos 12) (pos 17) minus_one;
  button_pin = buttons (pos 5) (pos 6);
  pull = λ b. up;
  lidar_sync_leds = lidar_sync_1 ∷ [];
  lidar_sync_ports = codes "/dev/ttyAMA2" ∷ [];
  gnss_port = codes "/dev/ttyAMA0";
  gnss_baudrate = 38400;
}

unfoldable pub direct_cm5 : Board
direct_cm5 = record {
  name = codes "MandeyeStandard";
  chip = codes "/dev/gpiochip4";
  autostart = true;
  wait_for_lidar_sync = true;
  stop_1_click = true;
  aborts_on_usb_error = true;
  beeps_on_save = true;
  led_pin = leds (pos 26) (pos 19) (pos 13) (pos 24) minus_one minus_one;
  button_pin = buttons (pos 5) (pos 6);
  pull = λ b. up;
  lidar_sync_leds = [];
  lidar_sync_ports = [];
  gnss_port = codes "/dev/ttyAMA0";
  gnss_baudrate = 115200;
}

unfoldable pub pro_cm4_bullseye : Board
pro_cm4_bullseye = record {
  name = codes "MandeyePro";
  chip = codes "/dev/gpiochip0";
  autostart = false;
  wait_for_lidar_sync = false;
  stop_1_click = false;
  aborts_on_usb_error = false;
  beeps_on_save = false;
  led_pin = leds (pos 20) (pos 16) (pos 21) (pos 24) (pos 3) (pos 2);
  button_pin = buttons (pos 25) (pos 8);
  pull = λ b. down;
  lidar_sync_leds = lidar_sync_1 ∷ lidar_sync_2 ∷ [];
  lidar_sync_ports = codes "/dev/ttyAMA1" ∷ codes "/dev/ttyAMA4" ∷ [];
  gnss_port = codes "/dev/ttyAMA2";
  gnss_baudrate = 38400;
}

unfoldable pub pro_cm4_bookworm : Board
pro_cm4_bookworm = record {
  name = codes "MandeyePro";
  chip = codes "/dev/gpiochip0";
  autostart = false;
  wait_for_lidar_sync = false;
  stop_1_click = false;
  aborts_on_usb_error = false;
  beeps_on_save = false;
  led_pin = leds (pos 20) (pos 16) (pos 21) (pos 24) (pos 3) (pos 2);
  button_pin = buttons (pos 25) (pos 8);
  pull = λ b. down;
  lidar_sync_leds = lidar_sync_1 ∷ lidar_sync_2 ∷ [];
  lidar_sync_ports = codes "/dev/ttyAMA2" ∷ codes "/dev/ttyAMA5" ∷ [];
  gnss_port = codes "/dev/ttyAMA3";
  gnss_baudrate = 38400;
}

-- The headers that a build chooses from.
pub data Model : Type 0 where
  rpi4 rpi5 rpi4_pps cm5 cm4_bullseye cm4_bookworm : Model

unfoldable pub board : Model → Board
unfolding standard_rpi4 standard_rpi5 standard_rpi4_pps direct_cm5 pro_cm4_bullseye pro_cm4_bookworm
board rpi4 = standard_rpi4
board rpi5 = standard_rpi5
board rpi4_pps = standard_rpi4_pps
board cm5 = direct_cm5
board cm4_bullseye = pro_cm4_bullseye
board cm4_bookworm = pro_cm4_bookworm
