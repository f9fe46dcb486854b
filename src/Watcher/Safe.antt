-- ===== src/Watcher/Safe.antt =====
-- The three things that stateWatcher relies on: the LEDs, a lidar client, and buffers while it logs.
use mandeye_controller.Prelude.{
  Text, ℕ, ◌≡◌, refl, ap, ◌∙◌, Bool, true, false, not, Option, none, some, List, [], ◌∷◌, arith,
  ltb, ◌==◌, if◌then◌else◌, is_some, Bool-cases, inl, inr,
}
use mandeye_controller.Prelude.Assoc.{lookup, lookup-insert}
use mandeye_controller.States.{
  States, scanning, stopping, stopping_stage_1, stopping_stage_2, stop_scan_in_progress,
  stoping_stop_scan,
}
use mandeye_controller.Hardware.{Board, Led, Button, led_id, buzzer}
use mandeye_controller.Livox
use mandeye_controller.Livox.{
  Doubles, point_cloud_callback, imu_data_callback, lidar_info_change_callback,
}
use mandeye_controller.Livox.Events
use mandeye_controller.Livox.Events.{deliver, returned}
use mandeye_controller.Livox.Query.Keeps.{query_keeps}
use mandeye_controller.Livox.Query.{query_internal_info_callback}
use mandeye_controller.Gpio
use mandeye_controller.Gpio.{led_or_new, set_led_data, gpio_client, beep_loop, add_button_callback}

-- The LEDs that the program sets.
abbrev pub is_shown : Led → Bool
is_shown l = ltb (led_id l) 4

unfoldable pub HasLeds : Option Gpio.Client → Type 0
HasLeds none = ⊥
HasLeds (some c) = (l : Led) → is_shown l ≡ true → is_some (lookup (led_id l) c.led_gpio) ≡ true

-- A board that does not wait for a synchronised lidar, and a GPIO client with the LEDs.
abbrev pub IsReady : Board → Option Gpio.Client → Type 0
IsReady b g = (b.wait_for_lidar_sync ≡ false) × HasLeds g

unfoldable pub Logs : Option Livox.Client → Type 0
Logs none = ⊥
Logs (some c) = (is_some c.buffer_livox ≡ true) × (is_some c.buffer_imu ≡ true)

-- The states in which the lidar's buffers are there.
unfoldable pub needs_log : States → Bool
needs_log scanning = true
needs_log stopping_stage_1 = true
needs_log stopping_stage_2 = true
needs_log stopping = true
needs_log stop_scan_in_progress = true
needs_log stoping_stop_scan = true
needs_log _ = false

-- How much a point of the loop can rely on.
pub data Mode : Type 0 where
  present logging between_rounds : Mode

unfoldable pub Demand : Mode → States → Option Livox.Client → Type 0
Demand present s l = is_some l ≡ true
Demand logging s l = Logs l
Demand between_rounds s l = (is_some l ≡ true) × (needs_log s ≡ true → Logs l)

pub set_led_data-keeps :
    (l : Led) (state : Bool) (c : Gpio.Client)
    → HasLeds (some c)
    → HasLeds (some (set_led_data l state c))
unfolding HasLeds set_led_data
set_led_data-keeps l state c h m shown =
    let d : Gpio.LedData = record (led_or_new (lookup (led_id l) c.led_gpio)) { state = state } in
    let e = lookup-insert (led_id l) (led_id m) d c.led_gpio in
    elim (Bool-cases (led_id l == led_id m)) [
      | inl same ↦ ap is_some e ∙ rw same
      | inr other ↦ ap is_some e ∙ rw other (h m shown)
    ]

pub set_led-keeps :
    (l : Led) (state : Bool) (c : Gpio.Client)
    → is_shown l ≡ true
    → HasLeds (some c)
    → (d : Gpio.Client) × (Gpio.set_led l state c ≡ some d) × HasLeds (some d)
unfolding Gpio.set_led HasLeds
set_led-keeps l state c shown h =
    (set_led_data l state c, rw (h l shown) refl, set_led_data-keeps l state c h)

beep_loop-keeps :
    (ds : List ℕ) (on : Bool) (c : Gpio.Client)
    → HasLeds (some c)
    → HasLeds (some (beep_loop ds on c))
unfolding beep_loop
beep_loop-keeps [] on c h = h
beep_loop-keeps (d ∷ ds) on c h =
    beep_loop-keeps ds (not on) (set_led_data buzzer (not on) c)
      (set_led_data-keeps buzzer (not on) c h)

either-keeps :
    (b : Bool) (c d : Gpio.Client)
    → HasLeds (some c)
    → HasLeds (some d)
    → HasLeds (some (if b then c else d))
either-keeps true c d h g = h
either-keeps false c d h g = g

pub beep-keeps :
    (ds : List ℕ) (c : Gpio.Client) → HasLeds (some c) → HasLeds (some (Gpio.beep ds c))
unfolding Gpio.beep
beep-keeps ds c h =
    either-keeps c.use_simulated_gpio c _ h
      (set_led_data-keeps buzzer false _ (beep_loop-keeps ds false c h))

add_button_callback-leds :
    (b : Button) (name : Text) (c : Gpio.Client)
    → (add_button_callback b name c).led_gpio ≡ c.led_gpio
unfolding add_button_callback
add_button_callback-leds b name c = ground arith

pub add_button_callback-keeps :
    (b : Button) (name : Text) (c : Gpio.Client)
    → HasLeds (some c)
    → HasLeds (some (add_button_callback b name c))
unfolding HasLeds
add_button_callback-keeps b name c h l shown =
    ap (λ m. is_some (lookup (led_id l) m)) (add_button_callback-leds b name c) ∙ h l shown

-- Whatever the board and the pins, the client that the constructor makes has the LEDs.
pub gpio_client-HasLeds :
    (b : Board) (sim chip : Bool) (has_line : ℕ → Bool)
    → HasLeds (some (gpio_client b sim chip has_line))
unfolding HasLeds gpio_client add_button_callback lookup
gpio_client-HasLeds b true chip has_line l shown = ground arith
gpio_client-HasLeds b false true has_line l shown = ground arith
gpio_client-HasLeds b false false has_line l shown = ground arith

module _ ⦃fl : Doubles⦄ where
  -- The callbacks of the SDK add to buffers that are there, and never take them away.
  pub deliver-Logs :
      (e : Livox.Events.Event) (c : Livox.Client) → Logs (some c) → Logs (some (deliver e c))
  unfolding Logs deliver point_cloud_callback imu_data_callback lidar_info_change_callback
  deliver-Logs (Livox.Events.point_cloud handle p) c h = ground arith
  deliver-Logs (Livox.Events.imu_sample handle p millis) c h = ground arith
  deliver-Logs (Livox.Events.info_change handle info) c h = ground arith
  deliver-Logs (Livox.Events.query_info status handle r) c h =
      let c' = returned (query_internal_info_callback status handle r c) c in
      let points = query_keeps (λ d. d.buffer_livox) (λ m d. refl, λ m d. refl) status handle r c in
      let samples = query_keeps (λ d. d.buffer_imu) (λ m d. refl, λ m d. refl) status handle r c in
      (ap is_some points ∙ h.0, ap is_some samples ∙ h.1)
