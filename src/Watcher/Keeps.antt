-- ===== src/Watcher/Keeps.antt =====
-- What the other threads leave true while stateWatcher waits.
use mandeye_controller.Prelude.{
  false, Bool, Text, if◌then◌else◌, ◌≡◌, ◌⊎◌, refl, true, Option, none, some, List, [], ◌∷◌, arith,
  is_some, inl, inr,
}
use mandeye_controller.States.{States}
use mandeye_controller.Hardware.{
  Led, Button, led_id, Board, button_stop_scan, button_continous_scanning,
}
use mandeye_controller.Livox
use mandeye_controller.Livox.{Doubles, initialize_duration}
use mandeye_controller.Livox.Events.{deliver}
use mandeye_controller.Gnss.{Minmea}
use mandeye_controller.Gpio
use mandeye_controller.Gpio.{add_button_callback}
use mandeye_controller.Prelude.Assoc.{lookup}
use mandeye_controller.App.{
  World, Event, apply, apply_all, press, request_start, request_stop, request_stop_scan, livox_made,
  gnss_made, gpio_made, publisher_made, lidar_failed, livox_event, gnss_line, clock_advances,
  laz_saves, disk_opens, led_set, callback_added, livox_started, led_or_same,
  trigger_continous_scanning, trigger_stop_scan, start_scan, stop_scan, on_some,
}
use mandeye_controller.Watcher.Safe.{
  set_led_data-keeps, add_button_callback-keeps, HasLeds, IsReady, Logs, needs_log, Mode, Demand,
  present, logging, between_rounds, deliver-Logs,
}

unfoldable pub Safe : {G : Type 0} → Mode → World G → Type 0
Safe k w = IsReady w.board w.gpio × Demand k w.app_state w.livox

-- What a thread may do to the lidar client: make one, or go on with one.
Grows : Option Livox.Client → Option Livox.Client → Type 0
Grows l l' = (is_some l ≡ true → is_some l' ≡ true) × (Logs l → Logs l')

Fewer : States → States → Type 0
Fewer s s' = needs_log s' ≡ true → needs_log s ≡ true

Demand-keeps :
    (k : Mode) (s s' : States) (l l' : Option Livox.Client)
    → Fewer s s'
    → Grows l l'
    → Demand k s l
    → Demand k s' l'
unfolding Demand Fewer Grows
Demand-keeps present s s' l l' f g h = g.0 h
Demand-keeps logging s s' l l' f g h = g.1 h
Demand-keeps between_rounds s s' l l' f g h = (g.0 h.0, λ need. g.1 (h.1 (f need)))

Grows-same : (l : Option Livox.Client) → Grows l l
unfolding Grows
Grows-same l = (λ h. h, λ h. h)

Grows-via : (l m m' : Option Livox.Client) → m' ≡ m → Grows l m → Grows l m'
Grows-via l m m' e g = rw e g

Grows-initialize_duration : (l : Option Livox.Client) → Grows l (on_some initialize_duration l)
unfolding Grows Logs initialize_duration
Grows-initialize_duration none = (λ h. h, λ h. h)
Grows-initialize_duration (some c) = (λ h. h, λ h. h)

Grows-deliver :
    ⦃fl : Doubles⦄
    → (e : Livox.Events.Event) (l : Option Livox.Client) → Grows l (on_some (deliver e) l)
unfolding Grows
Grows-deliver e none = (λ h. h, λ h. h)
Grows-deliver e (some c) = (λ h. refl, λ h. deliver-Logs e c h)

Grows-made :
    (c : Livox.Client) (l : Option Livox.Client)
    → Grows l (elim l [ none ↦ some c | some d ↦ some d ])
unfolding Grows Logs
Grows-made c none = (λ h. refl, λ h. elim h [ ])
Grows-made c (some d) = (λ h. h, λ h. h)

HasLeds-made :
    (c : Gpio.Client) (g : Option Gpio.Client)
    → HasLeds g
    → HasLeds (elim g [ none ↦ some c | some d ↦ some d ])
unfolding HasLeds
HasLeds-made c none h = elim h [ ]
HasLeds-made c (some d) h = h

chosen-keeps :
    (b : Bool) (c d : Gpio.Client)
    → HasLeds (some c)
    → HasLeds (some d)
    → HasLeds (some (elim (if b then some d else none) [ none ↦ c | some e ↦ e ]))
chosen-keeps true c d h k = k
chosen-keeps false c d h k = h

HasLeds-set :
    (l : Led) (state : Bool) (g : Option Gpio.Client)
    → HasLeds g
    → HasLeds (on_some (led_or_same l state) g)
unfolding Gpio.set_led
HasLeds-set l state none h = h
HasLeds-set l state (some c) h =
    chosen-keeps (is_some (lookup (led_id l) c.led_gpio)) c _ h (set_led_data-keeps l state c h)

HasLeds-callback :
    (b : Button) (name : Text) (g : Option Gpio.Client)
    → HasLeds g
    → HasLeds (on_some (add_button_callback b name) g)
unfolding HasLeds
HasLeds-callback b name none h = h
HasLeds-callback b name (some c) h = add_button_callback-keeps b name c h

Grows-started :
    (ok : Bool) (l : Option Livox.Client) → Grows l (on_some (λ c. record c { init_succes = ok }) l)
unfolding Grows Logs
Grows-started ok none = (λ h. h, λ h. h)
Grows-started ok (some c) = (λ h. h, λ h. h)

module _ {G : Type 0} where
  press_stop_scan_Fewer : (w : World G) → Fewer w.app_state (trigger_stop_scan w).1.app_state
  unfolding Fewer needs_log trigger_stop_scan
  press_stop_scan_Fewer w h = ground arith

  press_continous_Fewer :
      (w : World G) → Fewer w.app_state (trigger_continous_scanning w).1.app_state
  unfolding Fewer needs_log trigger_continous_scanning
  press_continous_Fewer w h = ground arith

  start_Fewer : (w : World G) → Fewer w.app_state (start_scan w).1.app_state
  unfolding Fewer needs_log start_scan
  start_Fewer w h = ground arith

  stop_Fewer : (w : World G) → Fewer w.app_state (stop_scan w).1.app_state
  unfolding Fewer needs_log stop_scan
  stop_Fewer w h = ground arith

  -- What a trigger does to the two clients.
  pub same_stop_scan :
      (w : World G)
      → ((trigger_stop_scan w).1.livox ≡ w.livox)
        × ((trigger_stop_scan w).1.gpio ≡ w.gpio)
        × ((trigger_stop_scan w).1.board ≡ w.board)
  unfolding trigger_stop_scan
  same_stop_scan w = (ground arith, ground arith, ground arith)

  pub same_start :
      (w : World G)
      → ((start_scan w).1.livox ≡ w.livox)
        × ((start_scan w).1.gpio ≡ w.gpio)
        × ((start_scan w).1.board ≡ w.board)
  unfolding start_scan
  same_start w = (ground arith, ground arith, ground arith)

  pub same_stop :
      (w : World G)
      → ((stop_scan w).1.livox ≡ w.livox)
        × ((stop_scan w).1.gpio ≡ w.gpio)
        × ((stop_scan w).1.board ≡ w.board)
  unfolding stop_scan
  same_stop w = (ground arith, ground arith, ground arith)

  pub same_continous :
      (w : World G)
      → (((trigger_continous_scanning w).1.livox ≡ w.livox)
          ⊎ ((trigger_continous_scanning w).1.livox ≡ on_some initialize_duration w.livox))
        × ((trigger_continous_scanning w).1.gpio ≡ w.gpio)
        × ((trigger_continous_scanning w).1.board ≡ w.board)
  unfolding trigger_continous_scanning
  same_continous w = (ground arith, ground arith, ground arith)

-- What happens to the state and to the two clients when other threads run.
pub Moves : {G : Type 0} → World G → World G → Type 0
Moves w v =
    Fewer w.app_state v.app_state
    × Grows w.livox v.livox
    × (IsReady w.board w.gpio → IsReady v.board v.gpio)

Fewer-same : (s : States) → Fewer s s
unfolding Fewer
Fewer-same s h = h

IsReady-via :
    {b b' : Board} {g g' : Option Gpio.Client} → b' ≡ b → g' ≡ g → IsReady b g → IsReady b' g'
IsReady-via same e h = rw (same, e) h

module _ {G : Type 0} ⦃fl : Doubles⦄ ⦃mm : Minmea G⦄ where
  pub Safe-Moves : (k : Mode) (w v : World G) → Moves w v → Safe k w → Safe k v
  unfolding Safe Moves
  Safe-Moves k w v (f, g, h) (leds, d) =
      (h leds, Demand-keeps k w.app_state v.app_state w.livox v.livox f g d)

  apply-Moves : (e : Event G) (w : World G) → Moves w (apply e w)
  unfolding Moves apply
  apply-Moves (press button_stop_scan) w =
      let (l, g, b) = same_stop_scan w in
      (press_stop_scan_Fewer w, Grows-via _ _ _ l (Grows-same _), IsReady-via b g)
  apply-Moves (press button_continous_scanning) w =
      let (l, g, b) = same_continous w in
      (
        press_continous_Fewer w,
        elim l [
          | inl e ↦ Grows-via _ _ _ e (Grows-same _)
          | inr e ↦ Grows-via _ _ _ e (Grows-initialize_duration _)
        ],
        IsReady-via b g,
      )
  apply-Moves request_start w =
      let (l, g, b) = same_start w in
      (start_Fewer w, Grows-via _ _ _ l (Grows-same _), IsReady-via b g)
  apply-Moves request_stop w =
      let (l, g, b) = same_stop w in
      (stop_Fewer w, Grows-via _ _ _ l (Grows-same _), IsReady-via b g)
  apply-Moves request_stop_scan w =
      let (l, g, b) = same_stop_scan w in
      (press_stop_scan_Fewer w, Grows-via _ _ _ l (Grows-same _), IsReady-via b g)
  apply-Moves (livox_made c) w = (Fewer-same _, Grows-made c w.livox, λ h. h)
  apply-Moves (gnss_made c) w = (Fewer-same _, Grows-same _, λ h. h)
  apply-Moves (gpio_made c) w = (Fewer-same _, Grows-same _, λ h. (h.0, HasLeds-made c w.gpio h.1))
  apply-Moves publisher_made w = (Fewer-same _, Grows-same _, λ h. h)
  apply-Moves lidar_failed w = (Fewer-same _, Grows-same _, λ h. h)
  apply-Moves (livox_event e) w = (Fewer-same _, Grows-deliver e w.livox, λ h. h)
  apply-Moves (gnss_line line millis) w = (Fewer-same _, Grows-same _, λ h. h)
  apply-Moves (clock_advances n) w = (Fewer-same _, Grows-same _, λ h. h)
  apply-Moves (laz_saves b) w = (Fewer-same _, Grows-same _, λ h. h)
  apply-Moves (disk_opens b) w = (Fewer-same _, Grows-same _, λ h. h)
  apply-Moves (led_set l state) w =
      (Fewer-same _, Grows-same _, λ h. (h.0, HasLeds-set l state w.gpio h.1))
  apply-Moves (callback_added b name) w =
      (Fewer-same _, Grows-same _, λ h. (h.0, HasLeds-callback b name w.gpio h.1))
  apply-Moves (livox_started ok) w = (Fewer-same _, Grows-started ok w.livox, λ h. h)

  pub apply_all-Safe :
      (k : Mode) (es : List (Event G)) (w : World G) → Safe k w → Safe k (apply_all es w)
  unfolding apply_all
  apply_all-Safe k [] w h = h
  apply_all-Safe k (e ∷ es) w h =
      apply_all-Safe k es (apply e w) (Safe-Moves k w (apply e w) (apply-Moves e w) h)

  pub apply_all-IsReady :
      (es : List (Event G)) (w : World G)
      → IsReady w.board w.gpio
      → IsReady (apply_all es w).board (apply_all es w).gpio
  unfolding apply_all Moves
  apply_all-IsReady [] w h = h
  apply_all-IsReady (e ∷ es) w h = apply_all-IsReady es (apply e w) ((apply-Moves e w).2 h)

  pub apply_all-present :
      (es : List (Event G)) (w : World G)
      → is_some w.livox ≡ true
      → is_some (apply_all es w).livox ≡ true
  unfolding apply_all Moves Grows
  apply_all-present [] w h = h
  apply_all-present (e ∷ es) w h = apply_all-present es (apply e w) ((apply-Moves e w).1.0 h)
