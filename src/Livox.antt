-- ===== src/Livox.antt =====
-- code/LivoxClient.h and code/LivoxClient.cpp: the lidar client. A shared_ptr buffer is an
-- Option (null is `none`); the callbacks of the Livox SDK are functions on the client's record.
-- A float is its bit pattern; arithmetic on doubles is the instance argument `Doubles`.
pub mod Sdk
pub mod Ids
pub mod Recording
pub mod Session
pub mod Query
pub mod Events
pub mod Registry
pub mod Mapping
pub mod Listener
pub use Sdk.{Doubles, RawPoint, RawImu, LidarInfo, Packet, high_data, imu_data}
unfoldable pub use Sdk.{uint64_of}
use mandeye_controller.Prelude.{
  ℕ, zero, suc, ◌+◌, ◌*◌, ◌-◌, ◌%◌, ◌^◌, Bool, true, false, Option, none, some, List, [], ◌∷◌, ◌++◌,
  ltb, ◌==◌, if◌then◌else◌, Text, text_eq, text_lt,
}
use mandeye_controller.Prelude.Assoc.{lookup, insert, or_zero}
use mandeye_controller.Prelude.Int.{ℤ}

pub record Point : Type 0 where
  pub point : RawPoint
  pub timestamp : ℕ
  pub laser_id : ℕ

pub record Imu : Type 0 where
  pub point : RawImu
  pub timestamp : ℕ
  pub laser_id : ℕ
  pub epoch_time : ℕ

-- The members of LivoxClient, without the thread and the mutexes.
pub record Client : Type 0 where
  pub buffer_livox : Option (List Point)
  pub buffer_imu : Option (List Imu)
  pub timestamp : ℕ
  pub elapsed : ℕ
  pub session_start : Option ℕ
  pub recived_imu_msgs : List (ℕ × ℕ)
  pub recived_point_messages : List (ℕ × ℕ)
  pub lidar_info : List (ℕ × LidarInfo)
  pub lidar_work_mode : List (ℕ × ℤ)
  pub lidar_time_sync : List (ℕ × ℕ)
  pub handle_to_last_timestamp : List (ℕ × ℕ)
  pub handle_to_serial_number : List (ℕ × Text)
  pub serial_numbers : List Text
  pub init_succes : Bool

unfoldable pub start_log : Client → Client
start_log c = record c { buffer_livox = some []; buffer_imu = some [] }

unfoldable pub stop_log : Client → Client
stop_log c = record c { buffer_livox = none; buffer_imu = none }

-- Both buffers are swapped with fresh ones, also while nothing is logged.
unfoldable pub retrieve_data : Client → (Option (List Point) × Option (List Imu)) × Client
retrieve_data c =
    ((c.buffer_livox, c.buffer_imu), record c { buffer_livox = some []; buffer_imu = some [] })

-- std::distance from the begin of the sorted set to the serial number.
unfoldable pub distance : Text → List Text → ℕ
distance sn [] = 0
distance sn (t ∷ ts) = if text_eq t sn then 0 else suc (distance sn ts)

abbrev pub id_of : Option Text → List Text → ℕ
id_of none sns = 255
id_of (some sn) sns = distance sn sns % 65536

unfoldable pub handle_to_lidar_id : Client → ℕ → ℕ
unfolding distance
handle_to_lidar_id c handle = id_of (lookup handle c.handle_to_serial_number) c.serial_numbers

-- m_elapsed is a uint64_t: the difference wraps.
abbrev pub elapsed_since : Option ℕ → ℕ → ℕ → ℕ
elapsed_since none stamp old = old
elapsed_since (some start) stamp old = (stamp + 2 ^ 64 - start) % 2 ^ 64

unfoldable pub save_time_stamp : Client → ℕ → Client
save_time_stamp c stamp = record c {
  timestamp = stamp;
  elapsed = elapsed_since c.session_start stamp c.elapsed;
}

unfoldable pub initialize_duration : Client → Client
initialize_duration c = record c {
  session_start = elim c.session_start [ none ↦ some c.timestamp | some start ↦ some start ];
}

module _ ⦃fl : Doubles⦄ where
  open fl use {of_nat, add, mul, div, to_u64}

  -- toUint64.data + static_cast<uint64_t>(i) * (double(time_interval * 100) / dot_num)
  unfoldable pub point_stamp : Packet → ℕ → ℕ
  point_stamp p i = to_u64 (
      add (of_nat (uint64_of p.timestamp))
        (mul (of_nat i) (div (of_nat (p.time_interval * 100)) (of_nat p.dot_num))))

  -- The loop over `n` points from index `i`, appending to the buffer.
  unfoldable pub push_points : ℕ → ℕ → Packet → ℕ → List Point → List Point
  unfolding point_stamp
  push_points zero i p laser_id buffer = buffer
  push_points (suc n) i p laser_id buffer =
      let stamp = point_stamp p i in
      let q : Point = record { point = p.points i; timestamp = stamp; laser_id = laser_id } in
      push_points n (i + 1) p laser_id (if ltb 0 stamp then buffer ++ (q ∷ []) else buffer)

  unfoldable pub point_cloud_callback : ℕ → Packet → Client → Client
  unfolding push_points save_time_stamp handle_to_lidar_id
  point_cloud_callback handle p c =
      let counted : Client = record c {
        recived_point_messages =
            insert handle ((or_zero (lookup handle c.recived_point_messages) + 1) % 2 ^ 64)
              c.recived_point_messages;
      } in
      let laser_id = handle_to_lidar_id counted handle in
      let stamped = save_time_stamp counted (uint64_of p.timestamp) in
      let seen : Client = record stamped {
        handle_to_last_timestamp =
            insert handle (uint64_of p.timestamp) stamped.handle_to_last_timestamp;
      } in
      if p.data_type == high_data
      then record seen {
        buffer_livox = elim seen.buffer_livox [
          | none ↦ none
          | some buffer ↦ some (push_points p.dot_num 0 p laser_id buffer)
        ];
      }
      else counted

-- `millis` is the system clock's reading.
unfoldable pub imu_data_callback : ℕ → Packet → ℕ → Client → Client
unfolding save_time_stamp handle_to_lidar_id
imu_data_callback handle p millis c =
    let counted : Client = record c {
      recived_imu_msgs =
          insert handle ((or_zero (lookup handle c.recived_imu_msgs) + 1) % 2 ^ 64)
            c.recived_imu_msgs;
    } in
    let stamp = uint64_of p.timestamp in
    let stamped = save_time_stamp counted stamp in
    let q : Imu = record {
      point = p.imu;
      timestamp = stamp;
      laser_id = handle_to_lidar_id c handle;
      epoch_time = millis;
    } in
    if p.data_type == imu_data
    then record stamped {
      buffer_imu = elim stamped.buffer_imu [
        | none ↦ none
        | some buffer ↦ some (if ltb 0 stamp then buffer ++ (q ∷ []) else buffer)
      ];
    }
    else c

-- std::set::insert: sorted, without duplicates.
unfoldable pub insert_sn : Text → List Text → List Text
insert_sn sn [] = sn ∷ []
insert_sn sn (t ∷ ts) =
    if text_eq t sn then t ∷ ts else if text_lt sn t then sn ∷ t ∷ ts else t ∷ insert_sn sn ts

-- The commands that the callback sends to the lidar go to the SDK and are not in the client.
unfoldable pub lidar_info_change_callback : ℕ → LidarInfo → Client → Client
unfolding insert_sn
lidar_info_change_callback handle info c = record c {
  lidar_info = insert handle info c.lidar_info;
  recived_imu_msgs = insert handle 0 c.recived_imu_msgs;
  recived_point_messages = insert handle 0 c.recived_point_messages;
  handle_to_last_timestamp = insert handle 0 c.handle_to_last_timestamp;
  handle_to_serial_number = insert handle info.sn c.handle_to_serial_number;
  serial_numbers = insert_sn info.sn c.serial_numbers;
}

serial_numbers_by_id : Client → List (ℕ × LidarInfo) → List (ℕ × Text) → List (ℕ × Text)
serial_numbers_by_id c [] ret = ret
serial_numbers_by_id c ((handle, info) ∷ rest) ret =
    serial_numbers_by_id c rest (insert (handle_to_lidar_id c handle) info.sn ret)

unfoldable pub get_serial_number_to_lidar_id_mapping : Client → List (ℕ × Text)
unfolding serial_numbers_by_id
get_serial_number_to_lidar_id_mapping c = serial_numbers_by_id c c.lidar_info []

-- isSynced, with a throw of `m_handleToSerialNumber.at` as `none`.
all_synced : List (ℕ × ℕ) → List (ℕ × Text) → Option Bool
all_synced [] names = some true
all_synced ((handle, mode) ∷ rest) names =
    if mode == 0
    then elim (lookup handle names) [ none ↦ none | some sn ↦ some false ]
    else all_synced rest names

unfoldable pub is_synced : Client → Option Bool
unfolding all_synced
is_synced c = elim c.lidar_time_sync [
  | [] ↦ some false
  | entry ∷ entries ↦ all_synced (entry ∷ entries) c.handle_to_serial_number
]
