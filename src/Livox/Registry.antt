-- ===== src/Livox/Registry.antt =====
-- What LivoxClient knows of the lidars: its maps, and the ids that it gives out.
use mandeye_controller.Prelude.{
  ℕ, ◌≤◌, ◌≡◌, ◌≢◌, refl, Option, some, List, [], ◌∷◌, arith, Text, All, Among, All-among, length,
}
use mandeye_controller.Prelude.Assoc.{
  lookup, insert, lookup-insert, IsUnique, insert-IsUnique, All-insert, Among-lookup,
}
use mandeye_controller.Livox.{
  Client, Doubles, Packet, LidarInfo, handle_to_lidar_id, point_cloud_callback, imu_data_callback,
  lidar_info_change_callback,
}
use mandeye_controller.Livox.Ids.{
  IsSorted, rank, distance-rank, distance-lt-length, distance-injective, insert_sn-IsSorted,
  Among-insert_sn, Among-insert_sn_self,
}
use mandeye_controller.Livox.Query.{Response, query_internal_info_callback}
use mandeye_controller.Livox.Query.Keeps.{query_keeps}
use mandeye_controller.Livox.Events.{
  returned, Event, point_cloud, imu_sample, info_change, query_info, deliver, deliver_all,
}

-- The set is sorted, each handle stands once, its serial number is in the set, and the
-- description of a lidar has the serial number of its handle.
pub record IsRegistered (c : Client) : Type 0 where
  pub sorted : IsSorted c.serial_numbers
  pub handles_unique : IsUnique c.handle_to_serial_number
  pub infos_unique : IsUnique c.lidar_info
  pub in_set : All (λ e. Among e.1 c.serial_numbers) c.handle_to_serial_number
  pub described : All (λ e. lookup e.0 c.handle_to_serial_number ≡ some e.1.sn) c.lidar_info

-- The fields that the invariant reads.
abbrev Same : Client → Client → Type 0
Same c d =
    (d.serial_numbers ≡ c.serial_numbers)
    × (d.handle_to_serial_number ≡ c.handle_to_serial_number)
    × (d.lidar_info ≡ c.lidar_info)

Same-IsRegistered : (c d : Client) → Same c d → IsRegistered c → IsRegistered d
Same-IsRegistered c d s r = record {
  sorted = rw s.0 r.sorted;
  handles_unique = rw s.1 r.handles_unique;
  infos_unique = rw s.2 r.infos_unique;
  in_set = rw (s.0, s.1) r.in_set;
  described = rw (s.1, s.2) r.described;
}

module _ ⦃fl : Doubles⦄ where
  point_cloud-Same : (h : ℕ) (p : Packet) (c : Client) → Same c (point_cloud_callback h p c)
  unfolding point_cloud_callback
  point_cloud-Same h p c = ground arith

imu_data-Same : (h : ℕ) (p : Packet) (t : ℕ) (c : Client) → Same c (imu_data_callback h p t c)
unfolding imu_data_callback
imu_data-Same h p t c = ground arith

query-Same :
    (s h : ℕ) (r : Option Response) (c : Client)
    → Same c (returned (query_internal_info_callback s h r c) c)
query-Same s h r c = (
  query_keeps (λ d. d.serial_numbers) (λ m c. refl, λ m c. refl) s h r c,
  query_keeps (λ d. d.handle_to_serial_number) (λ m c. refl, λ m c. refl) s h r c,
  query_keeps (λ d. d.lidar_info) (λ m c. refl, λ m c. refl) s h r c,
)

pub lidar_info_change-IsRegistered :
    (h : ℕ) (info : LidarInfo) (c : Client)
    → IsRegistered c
    → IsRegistered (lidar_info_change_callback h info c)
unfolding lidar_info_change_callback
lidar_info_change-IsRegistered h info c r = record {
  sorted = insert_sn-IsSorted info.sn c.serial_numbers r.sorted;
  handles_unique = insert-IsUnique h info.sn c.handle_to_serial_number r.handles_unique;
  infos_unique = insert-IsUnique h info c.lidar_info r.infos_unique;
  in_set =
      All-insert _ _ h info.sn c.handle_to_serial_number r.handles_unique
        (λ j sn ne m. Among-insert_sn info.sn sn c.serial_numbers m)
        (Among-insert_sn_self info.sn c.serial_numbers) r.in_set;
  described =
      All-insert _ _ h info c.lidar_info r.infos_unique (λ j i ne e. kept j i ne e) self
        r.described;
}
  where
    kept :
        (j : ℕ) (i : LidarInfo)
        → j ≢ h
        → lookup j c.handle_to_serial_number ≡ some i.sn
        → lookup j (insert h info.sn c.handle_to_serial_number) ≡ some i.sn
    kept j i ne e = ground (arith, lookup-insert h j info.sn c.handle_to_serial_number, ne)

    self : lookup h (insert h info.sn c.handle_to_serial_number) ≡ some info.sn
    self = ground (arith, lookup-insert h h info.sn c.handle_to_serial_number)

module _ ⦃fl : Doubles⦄ where
  -- Every callback keeps the registry's invariant.
  pub deliver-IsRegistered : (e : Event) (c : Client) → IsRegistered c → IsRegistered (deliver e c)
  unfolding deliver
  deliver-IsRegistered (point_cloud h p) c r = Same-IsRegistered c _ (point_cloud-Same h p c) r
  deliver-IsRegistered (imu_sample h p t) c r = Same-IsRegistered c _ (imu_data-Same h p t c) r
  deliver-IsRegistered (info_change h info) c r = lidar_info_change-IsRegistered h info c r
  deliver-IsRegistered (query_info s h q) c r = Same-IsRegistered c _ (query-Same s h q c) r

  -- Any sequence of callbacks keeps the registry's invariant: the set of serial numbers is sorted,
  -- no handle stands twice, the serial number of each handle is in the set, and it is the one that
  -- the lidar's description gives.
  pub deliver_all-IsRegistered :
      (es : List Event) (c : Client) → IsRegistered c → IsRegistered (deliver_all es c)
  unfolding deliver_all
  deliver_all-IsRegistered [] c r = r
  deliver_all-IsRegistered (e ∷ es) c r =
      deliver_all-IsRegistered es (deliver e c) (deliver-IsRegistered e c r)

registered-Among :
    (c : Client) (h : ℕ) (sn : Text)
    → IsRegistered c
    → lookup h c.handle_to_serial_number ≡ some sn
    → Among sn c.serial_numbers
registered-Among c h sn r e =
    All-among (λ e. Among e.1 c.serial_numbers) (h, sn) c.handle_to_serial_number r.in_set
      (Among-lookup h sn c.handle_to_serial_number e)

-- Under the registry's invariant, and with at most 65536 serial numbers seen, the id of a lidar is
-- the number of smaller serial numbers seen.
pub handle_to_lidar_id-rank :
    (c : Client) (h : ℕ) (sn : Text)
    → IsRegistered c
    → lookup h c.handle_to_serial_number ≡ some sn
    → length c.serial_numbers ≤ 65536
    → handle_to_lidar_id c h ≡ rank sn c.serial_numbers
unfolding handle_to_lidar_id
handle_to_lidar_id-rank c h sn r e few =
    let m = registered-Among c h sn r e in
    rw e (
      omega (
        arith,
        distance-rank sn c.serial_numbers r.sorted m,
        distance-lt-length sn c.serial_numbers m,
      ))

-- Under the registry's invariant, and with at most 65536 serial numbers seen, two known handles
-- with the same id have the same serial number.
pub handle_to_lidar_id-injective :
    (c : Client) (h k : ℕ) (s t : Text)
    → IsRegistered c
    → lookup h c.handle_to_serial_number ≡ some s
    → lookup k c.handle_to_serial_number ≡ some t
    → length c.serial_numbers ≤ 65536
    → handle_to_lidar_id c h ≡ handle_to_lidar_id c k
    → s ≡ t
handle_to_lidar_id-injective c h k s t r e f few same =
    let m = registered-Among c h s r e in
    let n = registered-Among c k t r f in
    distance-injective s t c.serial_numbers m n (
      omega (
        arith,
        same,
        handle_to_lidar_id-rank c h s r e few,
        handle_to_lidar_id-rank c k t r f few,
        distance-rank s c.serial_numbers r.sorted m,
        distance-rank t c.serial_numbers r.sorted n,
      ))
