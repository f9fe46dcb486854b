-- ===== src/States.antt =====
-- code/state.h: the application's states and their names.
use mandeye_controller.Prelude.{
  ◌≡◌, refl, Bool, Option, none, some, List, [], ◌∷◌, Text, codes, if◌then◌else◌,
}
use mandeye_controller.Prelude.Int.{ℤ, pos, negsuc, int_eq}

pub data States : Type 0 where
  wait_for_resources idle starting_scan scanning stopping stopping_stage_1 : States
  stopping_stage_2 stopped starting_stop_scan stop_scan_in_progress : States
  stop_scan_in_initial_progress stoping_stop_scan lidar_error usb_io_error : States

-- The enumerators' values.
abbrev pub value : States → ℤ
value wait_for_resources = negsuc 9
value idle = pos 0
value starting_scan = pos 10
value scanning = pos 20
value stopping = pos 30
value stopping_stage_1 = pos 31
value stopping_stage_2 = pos 32
value stopped = pos 40
value starting_stop_scan = pos 100
value stop_scan_in_progress = pos 150
value stop_scan_in_initial_progress = pos 160
value stoping_stop_scan = pos 190
value lidar_error = pos 200
value usb_io_error = pos 210

-- `==` on the enumeration.
abbrev pub state_eq : States → States → Bool
state_eq a b = int_eq (value a) (value b)

abbrev pub states_to_string : List (States × Text)
states_to_string =
    (wait_for_resources, codes "WAIT_FOR_RESOURCES")
    ∷ (idle, codes "IDLE")
    ∷ (starting_scan, codes "STARTING_SCAN")
    ∷ (scanning, codes "SCANNING")
    ∷ (stopping, codes "STOPPING")
    ∷ (stopping_stage_1, codes "STOPPING_STAGE_1")
    ∷ (stopping_stage_2, codes "STOPPING_STAGE_2")
    ∷ (stopped, codes "STOPPED")
    ∷ (starting_stop_scan, codes "STARTING_STOP_SCAN")
    ∷ (stop_scan_in_progress, codes "STOP_SCAN_IN_PROGRESS")
    ∷ (stop_scan_in_initial_progress, codes "STOP_SCAN_IN_INITIAL_PROGRESS")
    ∷ (stoping_stop_scan, codes "STOPING_STOP_SCAN")
    ∷ (lidar_error, codes "LIDAR_ERROR")
    ∷ (usb_io_error, codes "USB_IO_ERROR")
    ∷ []

-- `StatesToString.at`; `none` is std::out_of_range.
unfoldable pub name_at : List (States × Text) → States → Option Text
name_at [] s = none
name_at ((t, name) ∷ rest) s = if state_eq t s then some name else name_at rest s

pub name_at-named : (s : States) → (name : Text) × (name_at states_to_string s ≡ some name)
unfolding name_at
name_at-named wait_for_resources = (_, refl)
name_at-named idle = (_, refl)
name_at-named starting_scan = (_, refl)
name_at-named scanning = (_, refl)
name_at-named stopping = (_, refl)
name_at-named stopping_stage_1 = (_, refl)
name_at-named stopping_stage_2 = (_, refl)
name_at-named stopped = (_, refl)
name_at-named starting_stop_scan = (_, refl)
name_at-named stop_scan_in_progress = (_, refl)
name_at-named stop_scan_in_initial_progress = (_, refl)
name_at-named stoping_stop_scan = (_, refl)
name_at-named lidar_error = (_, refl)
name_at-named usb_io_error = (_, refl)
