-- ===== src/Hardware/Boards.antt =====
-- The wiring that every board's header describes.
use mandeye_controller.Prelude.{ℕ, ◌≡◌, ◌≢◌, refl, arith, length, All}
use mandeye_controller.Prelude.Int.{pos, minus_one}
use mandeye_controller.Hardware.{
  Led, Button, Model, Board, board, button_stop_scan, button_continous_scanning, rpi4, rpi5,
  rpi4_pps, cm5,
}

-- Every pin that is in use serves one LED or one button, every board has its three LEDs, its
-- buzzer and its buttons, and each sync LED has a pin and a serial port.
pub record IsWired (b : Board) : Type 0 where
  pub led_pins_differ : (x y : Led) (n : ℕ) → b.led_pin x ≡ pos n → b.led_pin y ≡ pos n → x ≡ y
  pub button_pins_differ : b.button_pin button_stop_scan ≢ b.button_pin button_continous_scanning
  pub led_is_no_button : (x : Led) (y : Button) → b.led_pin x ≢ b.button_pin y
  pub sync_leds_wired : All (λ x. b.led_pin x ≢ minus_one) b.lidar_sync_leds
  pub sync_ports : length b.lidar_sync_leds ≡ length b.lidar_sync_ports

led_pins_differ_lem :
    (m : Model) (x y : Led) (n : ℕ)
    → (board m).led_pin x ≡ pos n
    → (board m).led_pin y ≡ pos n
    → x ≡ y
unfolding board
led_pins_differ_lem rpi4 x y n e f = ground arith
led_pins_differ_lem _ x y n e f = ground arith

led_is_no_button_lem :
    (m : Model) (x : Led) (y : Button) → (board m).led_pin x ≢ (board m).button_pin y
unfolding board
led_is_no_button_lem rpi4 x y = ground arith
led_is_no_button_lem _ x y = ground arith

button_pins_differ_lem :
    (m : Model)
    → (board m).button_pin button_stop_scan ≢ (board m).button_pin button_continous_scanning
unfolding board
button_pins_differ_lem rpi4 = ground arith
button_pins_differ_lem _ = ground arith

sync_leds_wired_lem :
    (m : Model) → All (λ x. (board m).led_pin x ≢ minus_one) (board m).lidar_sync_leds
unfolding board
sync_leds_wired_lem rpi4 = tt
sync_leds_wired_lem rpi5 = tt
sync_leds_wired_lem cm5 = tt
sync_leds_wired_lem rpi4_pps = (ground arith, tt)
sync_leds_wired_lem _ = (ground arith, (ground arith, tt))

sync_ports_lem : (m : Model) → length (board m).lidar_sync_leds ≡ length (board m).lidar_sync_ports
unfolding board
sync_ports_lem rpi4 = refl
sync_ports_lem _ = refl

-- On every board, each pin in use serves one LED or one button, the two buttons have different
-- pins, and each sync LED has a pin and a serial port.
pub board-IsWired : (m : Model) → IsWired (board m)
board-IsWired m = record {
  led_pins_differ = led_pins_differ_lem m;
  button_pins_differ = button_pins_differ_lem m;
  led_is_no_button = led_is_no_button_lem m;
  sync_leds_wired = sync_leds_wired_lem m;
  sync_ports = sync_ports_lem m;
}
