-- ===== src/Livox/Events.antt =====
-- The SDK's callbacks as events of a client. A query whose loop does not end never returns, so it
-- leaves the client as it was for everybody who waits; `Query.Fuel` says when that happens.
use mandeye_controller.Prelude.{ℕ, Option, none, some, List, [], ◌∷◌}
use mandeye_controller.Livox.{
  Client, Doubles, Packet, LidarInfo, point_cloud_callback, imu_data_callback,
  lidar_info_change_callback,
}
use mandeye_controller.Livox.Query.{Response, query_internal_info_callback}

pub data Event : Type 0 where
  point_cloud : ℕ → Packet → Event
  imu_sample : ℕ → Packet → ℕ → Event
  info_change : ℕ → LidarInfo → Event
  query_info : ℕ → ℕ → Option Response → Event

abbrev pub returned : Option Client → Client → Client
returned none c = c
returned (some d) c = d

module _ ⦃fl : Doubles⦄ where
  unfoldable pub deliver : Event → Client → Client
  deliver (point_cloud handle p) c = point_cloud_callback handle p c
  deliver (imu_sample handle p millis) c = imu_data_callback handle p millis c
  deliver (info_change handle info) c = lidar_info_change_callback handle info c
  deliver (query_info status handle r) c =
      returned (query_internal_info_callback status handle r c) c

  unfoldable pub deliver_all : List Event → Client → Client
  unfolding deliver
  deliver_all [] c = c
  deliver_all (e ∷ es) c = deliver_all es (deliver e c)
