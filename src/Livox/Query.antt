-- ===== src/Livox/Query.antt =====
-- code/LivoxClient.cpp, QueryInternalInfoCallback: the key-length-value parameters of a lidar's
-- answer. The response's bytes are a function of the offset: the code checks no bound. The index
-- is a uint8_t and the offset a uint16_t, as declared. `none` is a loop that has not ended.
pub mod Fuel
pub mod Params
pub mod Keeps
use mandeye_controller.Prelude.{
  ℕ, zero, suc, ◌+◌, ◌*◌, ◌%◌, Option, none, some, ltb, ◌==◌, if◌then◌else◌,
}
use mandeye_controller.Prelude.Assoc.{insert}
use mandeye_controller.Prelude.Int.{pos, minus_one}
use mandeye_controller.Livox.{Client}

-- LivoxLidarDiagInternalInfoResponse.
pub record Response : Type 0 where
  pub param_num : ℕ
  pub bytes : ℕ → ℕ

abbrev pub key_work_mode : ℕ
key_work_mode = 0x001a

abbrev pub key_time_sync_type : ℕ
key_time_sync_type = 0x800c

-- A little-endian uint16_t.
abbrev pub uint16_at : Response → ℕ → ℕ
uint16_at r off = r.bytes off + 256 * r.bytes (off + 1)

-- The address parameters are only printed.
unfoldable pub take_param : ℕ → ℕ → ℕ → Client → Client
take_param handle key first c =
    if key == key_work_mode
    then record c { lidar_work_mode = insert handle (pos first) c.lidar_work_mode }
    else if key == key_time_sync_type
    then record c { lidar_time_sync = insert handle first c.lidar_time_sync }
    else c

unfoldable pub param_loop : ℕ → ℕ → ℕ → ℕ → Response → Client → Option Client
param_loop zero i off handle r c = none
param_loop (suc fuel) i off handle r c =
    let rest =
      param_loop fuel ((i + 1) % 256) ((off + 4 + uint16_at r (off + 2)) % 65536) handle r
        (take_param handle (uint16_at r off) (r.bytes (off + 4)) c) in
    if ltb i r.param_num then rest else some c

-- Fuel for the 255 parameters that the index can count, and one test more.
abbrev pub param_fuel : ℕ
param_fuel = 256

unfoldable pub query_internal_info_callback : ℕ → ℕ → Option Response → Client → Option Client
query_internal_info_callback status handle response c =
    if status == 0
    then elim response [ none ↦ some c | some r ↦ param_loop param_fuel 0 0 handle r c ]
    else some (record c { lidar_work_mode = insert handle minus_one c.lidar_work_mode })
