-- ===== src/Livox/Mapping.antt =====
-- getSerialNumberToLidarIdMapping: the list that is saved beside each chunk, and what happens to
-- the ids when another lidar announces itself.
use mandeye_controller.Prelude.{
  ℕ, suc, sym, ◌∙◌, ◌≤◌, ◌≡◌, ◌≢◌, ap, inl, inr, some, List, [], ◌∷◌, arith, Text, text_lt,
  if◌then◌else◌, Bool-cases, All, Among, length, ◌==◌,
}
use mandeye_controller.Prelude.Assoc.{lookup, insert, lookup-insert, Among-lookup}
use mandeye_controller.Livox.{
  Client, LidarInfo, handle_to_lidar_id, lidar_info_change_callback,
  get_serial_number_to_lidar_id_mapping, serial_numbers_by_id,
}
use mandeye_controller.Livox.Ids.{rank-insert_sn, length-insert_sn-le}
use mandeye_controller.Livox.Registry.{
  handle_to_lidar_id-rank, lidar_info_change-IsRegistered, IsRegistered,
  handle_to_lidar_id-injective,
}

module _ (c : Client) (r : IsRegistered c) (few : length c.serial_numbers ≤ 65536) where
  abbrev IsDescribed : ℕ × LidarInfo → Type 0
  IsDescribed e = lookup e.0 c.handle_to_serial_number ≡ some e.1.sn

  -- A write for another lidar does not disturb an entry.
  insert_keeps :
      (h k : ℕ) (sn : Text) (i : LidarInfo) (ret : List (ℕ × Text))
      → lookup h c.handle_to_serial_number ≡ some sn
      → IsDescribed (k, i)
      → lookup (handle_to_lidar_id c h) ret ≡ some sn
      → lookup (handle_to_lidar_id c h) (insert (handle_to_lidar_id c k) i.sn ret) ≡ some sn
  insert_keeps h k sn i ret e d p =
      elim (Bool-cases (handle_to_lidar_id c k == handle_to_lidar_id c h)) [
        | inl same ↦
            let eq = handle_to_lidar_id-injective c k h i.sn sn r d e few (ground arith) in
            rw (lookup-insert (handle_to_lidar_id c k) (handle_to_lidar_id c h) i.sn ret, same)
              (ap some eq)
        | inr other ↦
            rw (lookup-insert (handle_to_lidar_id c k) (handle_to_lidar_id c h) i.sn ret, other) p
      ]

  by_id_keeps :
      (h : ℕ) (sn : Text) (l : List (ℕ × LidarInfo)) (ret : List (ℕ × Text))
      → lookup h c.handle_to_serial_number ≡ some sn
      → All IsDescribed l
      → lookup (handle_to_lidar_id c h) ret ≡ some sn
      → lookup (handle_to_lidar_id c h) (serial_numbers_by_id c l ret) ≡ some sn
  unfolding serial_numbers_by_id
  by_id_keeps h sn [] ret e d p = p
  by_id_keeps h sn ((k, i) ∷ l) ret e d p =
      by_id_keeps h sn l (insert (handle_to_lidar_id c k) i.sn ret) e d.1
        (insert_keeps h k sn i ret e d.0 p)

  by_id_finds :
      (h : ℕ) (info : LidarInfo) (l : List (ℕ × LidarInfo)) (ret : List (ℕ × Text))
      → All IsDescribed l
      → Among (h, info) l
      → lookup (handle_to_lidar_id c h) (serial_numbers_by_id c l ret) ≡ some info.sn
  unfolding serial_numbers_by_id
  by_id_finds h info [] ret d m = absurd m
  by_id_finds h info ((k, i) ∷ l) ret d (inl e) =
      let key : k ≡ h = ap (λ (p : ℕ × LidarInfo). p.0) e in
      let same : i ≡ info = ap (λ (p : ℕ × LidarInfo). p.1) e in
      by_id_keeps h info.sn l _ (rw (← key, ← same) d.0) d.1 (
        rw (key, same)
          (ground
            (arith, lookup-insert (handle_to_lidar_id c h) (handle_to_lidar_id c h) info.sn ret)))
  by_id_finds h info ((k, i) ∷ l) ret d (inr m) =
      by_id_finds h info l (insert (handle_to_lidar_id c k) i.sn ret) d.1 m

-- Under the registry's invariant, and with at most 65536 serial numbers seen, the saved list
-- gives, at the id of each described lidar, the serial number of that lidar.
pub mapping-handle_to_lidar_id :
    (c : Client) (h : ℕ) (info : LidarInfo)
    → IsRegistered c
    → length c.serial_numbers ≤ 65536
    → lookup h c.lidar_info ≡ some info
    → lookup (handle_to_lidar_id c h) (get_serial_number_to_lidar_id_mapping c) ≡ some info.sn
unfolding get_serial_number_to_lidar_id_mapping
mapping-handle_to_lidar_id c h info r few e =
    by_id_finds c r few h info c.lidar_info [] r.described (Among-lookup h info c.lidar_info e)

-- Under the registry's invariant, and with at most 65535 serial numbers seen, another handle with
-- a serial number not seen before moves the id of a known lidar up by one if the new serial number
-- is smaller, and leaves it if not.
pub new_lidar_moves_ids :
    (c : Client) (h k : ℕ) (sn : Text) (info : LidarInfo)
    → IsRegistered c
    → length c.serial_numbers ≤ 65535
    → lookup h c.handle_to_serial_number ≡ some sn
    → k ≢ h
    → (Among info.sn c.serial_numbers → ⊥)
    → handle_to_lidar_id (lidar_info_change_callback k info c) h
      ≡ (if text_lt info.sn sn then suc (handle_to_lidar_id c h) else handle_to_lidar_id c h)
unfolding lidar_info_change_callback
new_lidar_moves_ids c h k sn info r few e ne fresh =
    handle_to_lidar_id-rank (lidar_info_change_callback k info c) h sn
      (lidar_info_change-IsRegistered k info c r) known
      (omega (arith, length-insert_sn-le info.sn c.serial_numbers))
    ∙ rank-insert_sn info.sn sn c.serial_numbers r.sorted fresh
    ∙ ap (λ (n : ℕ). if text_lt info.sn sn then suc n else n)
        (sym (handle_to_lidar_id-rank c h sn r e (omega arith)))
  where
    known : lookup h (insert k info.sn c.handle_to_serial_number) ≡ some sn
    known = ground (arith, lookup-insert k h info.sn c.handle_to_serial_number, ne)
