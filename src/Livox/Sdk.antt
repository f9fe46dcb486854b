-- ===== src/Livox/Sdk.antt =====
-- What the lidar client takes from the Livox SDK's headers and from the machine: packets, lidar
-- descriptions, and arithmetic on doubles.
use mandeye_controller.Prelude.{ℕ, ◌+◌, ◌*◌, List, [], ◌∷◌, Text}
use mandeye_controller.Prelude.Int.{ℤ}

-- IEEE doubles and the conversions that the code makes; nothing is assumed of them here.
pub record Doubles : Type 1 where
  pub D : Type 0
  pub of_nat : ℕ → D
  pub add : D → D → D
  pub mul : D → D → D
  pub div : D → D → D
  pub to_u64 : D → ℕ

-- LivoxLidarCartesianHighRawPoint.
pub record RawPoint : Type 0 where
  pub x : ℤ
  pub y : ℤ
  pub z : ℤ
  pub reflectivity : ℕ
  pub tag : ℕ

-- LivoxLidarImuRawPoint, its floats as bit patterns.
pub record RawImu : Type 0 where
  pub gyro_x : ℕ
  pub gyro_y : ℕ
  pub gyro_z : ℕ
  pub acc_x : ℕ
  pub acc_y : ℕ
  pub acc_z : ℕ

pub record LidarInfo : Type 0 where
  pub dev_type : ℕ
  pub sn : Text
  pub lidar_ip : Text

-- LivoxLidarEthernetPacket: the payload read as points, and read as one IMU sample.
pub record Packet : Type 0 where
  pub time_interval : ℕ
  pub dot_num : ℕ
  pub data_type : ℕ
  pub timestamp : List ℕ
  pub points : ℕ → RawPoint
  pub imu : RawImu

abbrev pub imu_data : ℕ
imu_data = 0

abbrev pub high_data : ℕ
high_data = 1

-- The union ToUint64 on a little-endian machine.
unfoldable pub uint64_of : List ℕ → ℕ
uint64_of [] = 0
uint64_of (b ∷ bs) = b + 256 * uint64_of bs
