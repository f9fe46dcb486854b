-- ===== src/Tests.antt =====
-- Concrete inputs of the program's parts, at which the theorems are applied.
pub mod Lidar
pub mod Devices
pub mod Loop
pub mod Files
pub mod Pps
pub mod Rtk
pub mod Photos
pub mod Start
pub mod Json
pub mod Streams
