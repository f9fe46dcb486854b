-- ===== src/Gpio.antt =====
-- code/gpios.h and code/gpios.cpp: LEDs, the buzzer and the debounced buttons. The line values
-- that gpiod is told are a list of writes; the raw button levels come from outside.
pub mod Debounce
pub mod Leds
use mandeye_controller.Prelude.{
  ℕ, ◌+◌, ◌%◌, ◌^◌, Bool, true, false, not, ◌||◌, Option, none, some, List, [], ◌∷◌, ◌++◌, ◌==◌,
  if◌then◌else◌, Text, codes, is_some, text_eq,
}
use mandeye_controller.Prelude.Assoc.{lookup, insert}
use mandeye_controller.Prelude.Int.{ℤ, pos}
use mandeye_controller.Hardware.{
  Board, Led, Button, Pull, led_id, button_id, up, buzzer, led_gpio_stop_scan, led_gpio_copy_data,
  led_gpio_continous_scanning, button_stop_scan, button_continous_scanning,
}

-- A gpiod line is the number of its pin; a null line is `none`.
pub record LedData : Type 0 where
  pub name : Text
  pub state : Bool
  pub line : Option ℕ

-- A callback is known by its name, which is the key of the map of callbacks.
pub record ButtonData : Type 0 where
  pub name : Text
  pub line : Option ℕ
  pub pressed_time : ℕ
  pub pull_mode : Pull
  pub pressed : Bool
  pub callbacks : List Text

-- `writes` holds the calls of gpiod_line_set_value, oldest first.
pub record Client : Type 0 where
  pub use_simulated_gpio : Bool
  pub led_gpio : List (ℕ × LedData)
  pub buttons : List (ℕ × ButtonData)
  pub writes : List (ℕ × Bool)

abbrev pub debounce_time : ℕ
debounce_time = 2

-- GetButtonState: a button with no line is not pressed.
unfoldable pub get_button_state : ButtonData → ℕ → Bool
get_button_state b raw = elim b.line [
  | none ↦ false
  | some line ↦ elim b.pull_mode [ up ↦ raw == 0 | other ↦ raw == 1 ]
]

-- One round of the read-back thread for one button: the button and the callbacks that are called.
unfoldable pub read_back : Bool → ButtonData → ButtonData × List Text
read_back level b =
    let held : ButtonData = record b { pressed_time = (b.pressed_time + 1) % 2 ^ 32 } in
    if level
    then if held.pressed_time == debounce_time
      then (record held { pressed = true }, held.callbacks)
      else (held, [])
    else (record b { pressed_time = 0 }, [])

write_line : Bool → Option ℕ → Bool → List (ℕ × Bool) → List (ℕ × Bool)
write_line true line state ws = ws
write_line false none state ws = ws
write_line false (some pin) state ws = ws ++ ((pin, state) ∷ [])

-- What `m_ledGpio[led]` makes of a missing entry.
abbrev pub new_led : LedData
new_led = record { name = []; state = false; line = none }

abbrev pub led_or_new : Option LedData → LedData
led_or_new none = new_led
led_or_new (some d) = d

-- setLed(m_ledGpio[led], state).
unfoldable pub set_led_data : Led → Bool → Client → Client
unfolding write_line
set_led_data led state c =
    let d = led_or_new (lookup (led_id led) c.led_gpio) in
    record c {
      led_gpio = insert (led_id led) (record d { state = state }) c.led_gpio;
      writes = write_line c.use_simulated_gpio d.line state c.writes;
    }

-- setLed(led, state), behind its assertion that the LED is in the map: `none` if it is not.
unfoldable pub set_led : Led → Bool → Client → Option Client
unfolding set_led_data
set_led led state c =
    if is_some (lookup (led_id led) c.led_gpio) then some (set_led_data led state c) else none

-- The loop of `beep`; the sleeps take time and change nothing here.
unfoldable pub beep_loop : List ℕ → Bool → Client → Client
unfolding set_led_data
beep_loop [] is_on c = c
beep_loop (duration ∷ rest) is_on c = beep_loop rest (not is_on) (set_led_data buzzer (not is_on) c)

unfoldable pub beep : List ℕ → Client → Client
unfolding beep_loop
beep durations c =
    if c.use_simulated_gpio then c else set_led_data buzzer false (beep_loop durations false c)

add_name : Text → List Text → List Text
add_name n [] = n ∷ []
add_name n (m ∷ ms) = if text_eq m n then m ∷ ms else m ∷ add_name n ms

-- An unknown button is reported and nothing is added.
unfoldable pub add_button_callback : Button → Text → Client → Client
unfolding add_name
add_button_callback b name c = elim (lookup (button_id b) c.buttons) [
  | none ↦ c
  | some d ↦ record c {
    buttons = insert (button_id b) (record d { callbacks = add_name name d.callbacks }) c.buttons;
  }
]

-- gpiod_chip_get_line of a pin; -1 is a pin that the board does not have.
abbrev pub get_line : (ℕ → Bool) → ℤ → Option ℕ
get_line has_line (pos n) = if has_line n then some n else none
get_line has_line _ = none

abbrev pub fresh_led : Text → Option ℕ → LedData
fresh_led name line = record { name = name; state = false; line = line }

abbrev pub fresh_button : Text → Option ℕ → Pull → ButtonData
fresh_button name line pull = record {
  name = name;
  line = line;
  pressed_time = 0;
  pull_mode = pull;
  pressed = false;
  callbacks = [];
}

-- The maps that LedToName and ButtonToName give, with the lines and pull modes found for them.
abbrev pub named : Bool → (Led → Option ℕ) → (Button → Option ℕ) → (Button → Pull) → Client
named sim led_line button_line pull = record {
  use_simulated_gpio = sim;
  led_gpio =
      (0, fresh_led (codes "LED_GPIO_STOP_SCAN") (led_line led_gpio_stop_scan))
      ∷ (1, fresh_led (codes "LED_GPIO_COPY_DATA") (led_line led_gpio_copy_data))
      ∷ (2, fresh_led (codes "LED_GPIO_CONTINOUS_SCANNING") (led_line led_gpio_continous_scanning))
      ∷ (3, fresh_led (codes "BUZZER") (led_line buzzer))
      ∷ [];
  buttons =
      (
        0,
        fresh_button (codes "BUTTON_STOP_SCAN") (button_line button_stop_scan)
            (pull button_stop_scan),
      )
      ∷ (
        1,
        fresh_button (codes "BUTTON_CONTINOUS_SCANNING") (button_line button_continous_scanning)
            (pull button_continous_scanning),
      )
      ∷ [];
  writes = [];
}

-- The constructor. With no chip it returns early: no debug callbacks and no read-back thread.
unfoldable pub gpio_client : Board → Bool → Bool → (ℕ → Bool) → Client
unfolding add_button_callback
gpio_client board sim chip has_line =
    let plain = named sim (λ l. none) (λ b. none) (λ b. up) in
    let wired =
      named sim (λ l. get_line has_line (board.led_pin l))
        (λ b. get_line has_line (board.button_pin b)) board.pull in
    let opened = if sim then plain else wired in
    let debug =
      add_button_callback button_continous_scanning (codes "DBGBUTTON_CONTINOUS_SCANNING")
        (add_button_callback button_stop_scan (codes "DBGBUTTON_STOP_SCAN") opened) in
    if sim || chip then debug else plain
