-- ===== src/Livox/Listener.antt =====
-- code/LivoxClient.cpp: the start of the listener, with the text of its configuration, and the
-- thread that asks the lidars for their state. Calls of the Livox SDK are a list, oldest first.
pub mod Config
pub mod Replaced
pub mod Watched
pub mod Woken
use mandeye_controller.Prelude.{
  ℕ, zero, suc, ◌+◌, ◌++◌, Bool, true, false, not, ◌&&◌, Option, none, some, List, [], ◌∷◌, ltb,
  length, take, drop, if◌then◌else◌, Text, is_empty, codes, starts_with, ◌==◌,
}
use mathlib.Core.Option
use mandeye_controller.Prelude.Assoc.{lookup}
use mandeye_controller.Prelude.Int.{ℤ, pos, negsuc}
use mandeye_controller.Livox.{Client}
use mandeye_controller.Livox.Listener.Config.{config}

-- std::string::find: the first position, from `start` on, at which `from` stands.
unfoldable pub find_in : Text → Text → Option ℕ
find_in from [] = if is_empty from then some 0 else none
find_in from (c ∷ s) =
    let later = Option.map suc (find_in from s) in
    if starts_with from (c ∷ s) then some 0 else later

unfoldable pub find : Text → ℕ → Text → Option ℕ
unfolding find_in
find from start s =
    if ltb (length s) start then none else Option.map (λ p. start + p) (find_in from (drop start s))

-- std::string::replace.
abbrev pub replace : ℕ → ℕ → Text → Text → Text
replace at count to s = take at s ++ (to ++ drop (at + count) s)

-- The loop of ReplaceAll; `none` is a loop that has not ended.
unfoldable pub replace_loop : ℕ → Text → Text → ℕ → Text → Option Text
unfolding find
replace_loop zero from to start s = none
replace_loop (suc fuel) from to start s = elim (find from start s) [
  | none ↦ some s
  | some at ↦ replace_loop fuel from to (at + length to) (replace at (length from) to s)
]

unfoldable pub replace_all : ℕ → Text → Text → Text → Option Text
unfolding replace_loop
replace_all fuel s from to = replace_loop fuel from to 0 s

-- What the client asks of the SDK; the text is the content of the configuration file.
pub data Call : Type 0 where
  sdk_init : Text → Call
  set_point_cloud_callback set_imu_data_callback set_info_change_callback : Call
  start_watch_thread : Call
  query_internal_info : ℕ → Call
  set_work_mode : ℕ → ℕ → Call
  request_reboot : ℕ → Call

abbrev pub placeholder : Text
placeholder = codes "${HOSTIP}"

-- `accepts` is LivoxLidarSdkInit's answer to the file; writing the file is taken to succeed.
unfoldable pub start_listener :
    (accepts : Text → Bool) (interface_ip : Text) → Client → Option ((Bool × Client) × List Call)
unfolding replace_all config
start_listener accepts interface_ip c =
    Option.map
      (λ file.
        let opened : Client = record c { init_succes = accepts file } in
        if accepts file
        then (
          (true, opened),
          sdk_init file
              ∷ set_point_cloud_callback
              ∷ set_imu_data_callback
              ∷ set_info_change_callback
              ∷ start_watch_thread
              ∷ [],
        )
        else ((false, opened), sdk_init file ∷ []))
      (replace_all (suc (length config)) config placeholder interface_ip)

-- kLivoxLidarNormal.
abbrev pub normal : ℕ
normal = 1

abbrev pub is_normal : ℤ → Bool
is_normal (pos n) = n == normal
is_normal (negsuc n) = false

abbrev pub wake : ℕ → Option ℤ → List Call
wake handle none = []
wake handle (some mode) = if is_normal mode then [] else set_work_mode handle normal ∷ []

-- One round of testThread, over the handles that have a serial number.
unfoldable pub ask_all : List (ℕ × ℤ) → List (ℕ × Text) → List Call
ask_all modes [] = []
ask_all modes ((handle, sn) ∷ rest) =
    query_internal_info handle ∷ (wake handle (lookup handle modes) ++ ask_all modes rest)

unfoldable pub test_round : Client → List Call
unfolding ask_all
test_round c = ask_all c.lidar_work_mode c.handle_to_serial_number

-- The response of a lidar whose address was set: its return code and its error key.
unfoldable pub set_ip_info_callback : ℕ → Option (ℕ × ℕ) → List Call
set_ip_info_callback handle none = []
set_ip_info_callback handle (some (ret_code, error_key)) =
    if ret_code == 0 && error_key == 0 then request_reboot handle ∷ [] else []
