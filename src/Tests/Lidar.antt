-- ===== src/Tests/Lidar.antt =====
-- The lidar client on concrete packets, lidars and answers.
use mandeye_controller.Prelude.{
  ℕ, ◌+◌, ◌*◌, ◌/◌, ◌≡◌, ◌<◌, refl, inl, inr, text_lt, true, some, List, [], ◌∷◌, ◌++◌, arith,
  codes, length,
}
use mathlib.Core.List.{flatten}
use mandeye_controller.Prelude.Assoc.{lookup, IsUnique}
use mandeye_controller.Prelude.Int.{pos}
use mandeye_controller.Livox.{
  Client, Doubles, uint64_of, Packet, LidarInfo, RawPoint, RawImu, handle_to_lidar_id,
  get_serial_number_to_lidar_id_mapping,
}
use mandeye_controller.Livox.Ids.{IsSorted}
use mandeye_controller.Livox.Registry.{IsRegistered, deliver_all-IsRegistered}
use mandeye_controller.Livox.Events.{
  Event, point_cloud, info_change, query_info, deliver, deliver_all,
}
use mandeye_controller.Livox.Mapping.{mapping-handle_to_lidar_id}
use mandeye_controller.Livox.Query.{Response, query_internal_info_callback}
use mandeye_controller.Livox.Query.Params.{Param, query-encode, response_of, take_params, encode}
use mandeye_controller.Livox.Recording.{
  event, take, hand_overs, arrivals, contents, hand_overs-arrivals,
}
use mandeye_controller.Livox.Session.{stamp_of, deliver-elapsed}

-- Natural numbers in the place of doubles.
instance abbrev pub whole_doubles : Doubles
whole_doubles = record {
  D = ℕ;
  of_nat = λ n. n;
  add = λ a b. a + b;
  mul = λ a b. a * b;
  div = λ a b. a / b;
  to_u64 = λ n. n;
}

abbrev avia : LidarInfo
avia = record { dev_type = 9; sn = codes "A1"; lidar_ip = codes "192.168.1.3" }

abbrev mid : LidarInfo
mid = record { dev_type = 9; sn = codes "B1"; lidar_ip = codes "192.168.1.4" }

-- Two lidars are known, and the client records.
abbrev pub two_lidars : Client
two_lidars = record {
  buffer_livox = some [];
  buffer_imu = some [];
  timestamp = 500;
  elapsed = 0;
  session_start = some 400;
  recived_imu_msgs = [];
  recived_point_messages = [];
  lidar_info = (7, mid) ∷ (3, avia) ∷ [];
  lidar_work_mode = [];
  lidar_time_sync = [];
  handle_to_last_timestamp = [];
  handle_to_serial_number = (7, codes "B1") ∷ (3, codes "A1") ∷ [];
  serial_numbers = codes "A1" ∷ codes "B1" ∷ [];
  init_succes = true;
}

two_lidars-IsRegistered : IsRegistered two_lidars
unfolding IsSorted IsUnique lookup text_lt
two_lidars-IsRegistered = record {
  sorted = ((refl, tt), (tt, tt));
  handles_unique = (refl, (refl, tt));
  infos_unique = (refl, (refl, tt));
  in_set = (inr (inl refl), (inl refl, tt));
  described = (refl, (refl, tt));
}

abbrev raw_point : RawPoint
raw_point = record { x = pos 1000; y = pos 2000; z = pos 50; reflectivity = 30; tag = 0 }

abbrev still : RawImu
still = record { gyro_x = 0; gyro_y = 0; gyro_z = 0; acc_x = 0; acc_y = 0; acc_z = 0 }

-- Two points, from stamp 600.
abbrev packet : Packet
packet = record {
  time_interval = 5;
  dot_num = 2;
  data_type = 1;
  timestamp = 88 ∷ 2 ∷ 0 ∷ 0 ∷ 0 ∷ 0 ∷ 0 ∷ 0 ∷ [];
  points = λ i. raw_point;
  imu = still;
}

abbrev one_param : Response
one_param = record { param_num = 1; bytes = λ i. 1 }

abbrev long_answer : Response
long_answer = record { param_num = 300; bytes = λ i. 0 }

-- The work mode, and the time synchronisation in a value of four bytes.
abbrev answers : List Param
answers =
    record { key = 0x001a; value = 1 ∷ [] }
    ∷ record { key = 0x800c; value = 2 ∷ 0 ∷ 0 ∷ 0 ∷ [] }
    ∷ []

answers_small : length (encode answers) < 65536
unfolding encode
answers_small = omega arith

query-encode_example :
    query_internal_info_callback 0 7 (some (response_of answers)) two_lidars
    ≡ some (take_params 7 answers two_lidars)
query-encode_example =
    query-encode 7 answers two_lidars
      ((omega arith, omega arith, omega arith), ((omega arith, omega arith, omega arith), tt))
      (omega arith) answers_small

abbrev story : List Event
story = info_change 3 avia ∷ point_cloud 7 packet ∷ query_info 0 7 (some one_param) ∷ []

deliver_all-IsRegistered_example : IsRegistered (deliver_all story two_lidars)
deliver_all-IsRegistered_example = deliver_all-IsRegistered story two_lidars two_lidars-IsRegistered

named_b : lookup 7 two_lidars.handle_to_serial_number ≡ some (codes "B1")
unfolding lookup
named_b = refl

named_a : lookup 3 two_lidars.handle_to_serial_number ≡ some (codes "A1")
unfolding lookup
named_a = refl

described_b : lookup 7 two_lidars.lidar_info ≡ some mid
unfolding lookup
described_b = refl

mapping-handle_to_lidar_id_example :
    lookup (handle_to_lidar_id two_lidars 7) (get_serial_number_to_lidar_id_mapping two_lidars)
    ≡ some (codes "B1")
mapping-handle_to_lidar_id_example =
    mapping-handle_to_lidar_id two_lidars 7 mid two_lidars-IsRegistered (omega arith) described_b

abbrev early : LidarInfo
early = record { dev_type = 9; sn = codes "A0"; lidar_ip = codes "192.168.1.5" }

hand_overs-arrivals_example :
    ((hand_overs (event (point_cloud 7 packet) ∷ take ∷ []) two_lidars).1.buffer_livox
      ≡ some (
          contents
            (hand_overs (event (point_cloud 7 packet) ∷ take ∷ []) two_lidars).1.buffer_livox))
    × (flatten (hand_overs (event (point_cloud 7 packet) ∷ take ∷ []) two_lidars).0
          ++ contents
              (hand_overs (event (point_cloud 7 packet) ∷ take ∷ []) two_lidars).1.buffer_livox
        ≡ [] ++ arrivals (event (point_cloud 7 packet) ∷ take ∷ []) two_lidars)
hand_overs-arrivals_example =
    hand_overs-arrivals (event (point_cloud 7 packet) ∷ take ∷ []) two_lidars [] refl

stamp_600 : stamp_of (point_cloud 7 packet) ≡ some 600
unfolding stamp_of uint64_of
stamp_600 = refl

deliver-elapsed_example :
    ((deliver (point_cloud 7 packet) two_lidars).timestamp ≡ 600)
    × ((deliver (point_cloud 7 packet) two_lidars).elapsed ≡ 200)
deliver-elapsed_example =
    deliver-elapsed (point_cloud 7 packet) two_lidars 400 600 refl stamp_600 (omega arith)
      (omega arith)
