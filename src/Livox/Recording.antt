-- ===== src/Livox/Recording.antt =====
-- The point buffers that retrieveData hands over (code/LivoxClient.cpp).
use mandeye_controller.Prelude.{
  ℕ, zero, suc, ◌+◌, ◌≡◌, refl, sym, ap, ◌∙◌, Option, none, some, List, [], ◌∷◌, ◌++◌, append_assoc,
  append-nil, arith, ltb, ◌==◌, if◌then◌else◌, Bool-cases, inl, inr,
}
use mathlib.Core.List.{flatten}
use mandeye_controller.Livox.{
  Client, Doubles, Packet, Point, high_data, retrieve_data, point_stamp, push_points,
  handle_to_lidar_id, point_cloud_callback, imu_data_callback, lidar_info_change_callback,
}
use mandeye_controller.Livox.Query.Keeps.{query_keeps}
use mandeye_controller.Livox.Events.{
  Event, point_cloud, imu_sample, info_change, query_info, deliver,
}

-- A shared_ptr's contents, nothing if it is null.
abbrev pub contents {ℓ} : {A : Type ℓ} → Option (List A) → List A
contents none = []
contents (some xs) = xs

imu_buffer :
    (h : ℕ) (p : Packet) (t : ℕ) (c : Client)
    → (imu_data_callback h p t c).buffer_livox ≡ c.buffer_livox
unfolding imu_data_callback
imu_buffer h p t c = ground arith

module _ ⦃fl : Doubles⦄ where
  -- The points of a packet that carry a time stamp, in order.
  pub stamped : ℕ → ℕ → Packet → ℕ → List Point
  stamped zero i p laser_id = []
  stamped (suc n) i p laser_id =
      let rest = stamped n (i + 1) p laser_id in
      let q : Point = record {
        point = p.points i;
        timestamp = point_stamp p i;
        laser_id = laser_id;
      } in
      if ltb 0 (point_stamp p i) then q ∷ rest else rest

  push_points-append :
      (n i : ℕ) (p : Packet) (laser_id : ℕ) (buffer : List Point)
      → push_points n i p laser_id buffer ≡ buffer ++ stamped n i p laser_id
  unfolding push_points stamped
  push_points-append zero i p laser_id buffer = sym (append-nil buffer)
  push_points-append (suc n) i p laser_id buffer = elim (Bool-cases (ltb 0 (point_stamp p i))) [
    | inl h ↦ rw h (push_points-append n (i + 1) p laser_id _ ∙ append_assoc buffer _ _)
    | inr h ↦ rw h (push_points-append n (i + 1) p laser_id buffer)
  ]

  -- What an event adds to a buffer that is there.
  pub arriving : Event → Client → List Point
  arriving (point_cloud h p) c =
      if p.data_type == high_data then stamped p.dot_num 0 p (handle_to_lidar_id c h) else []
  arriving _ c = []

  deliver-buffer :
      (e : Event) (c : Client) (b : List Point)
      → c.buffer_livox ≡ some b
      → (deliver e c).buffer_livox ≡ some (b ++ arriving e c)
  unfolding deliver arriving point_cloud_callback lidar_info_change_callback
  deliver-buffer (point_cloud h p) c b e = elim (Bool-cases (p.data_type == high_data)) [
    | inl high ↦ rw (high, e) (ap some (push_points-append p.dot_num 0 p _ b))
    | inr low ↦ rw (low, e) (ap some (sym (append-nil b)))
  ]
  deliver-buffer (imu_sample h p t) c b e = imu_buffer h p t c ∙ e ∙ ap some (sym (append-nil b))
  deliver-buffer (info_change h info) c b e = e ∙ ap some (sym (append-nil b))
  deliver-buffer (query_info s h q) c b e =
      query_keeps (λ d. d.buffer_livox) (λ m c. refl, λ m c. refl) s h q c
      ∙ e
      ∙ ap some (sym (append-nil b))

-- A session of a client that records: callbacks, and hand-overs to the writer of the files.
pub data Op : Type 0 where
  event : Event → Op
  take : Op

module _ ⦃fl : Doubles⦄ where
  -- The point buffers that are handed over, and the client afterwards.
  pub hand_overs : List Op → Client → List (List Point) × Client
  hand_overs [] c = ([], c)
  hand_overs (event e ∷ ops) c = hand_overs ops (deliver e c)
  hand_overs (take ∷ ops) c =
      let (bs, d) = hand_overs ops (retrieve_data c).1 in (contents c.buffer_livox ∷ bs, d)

  pub arrivals : List Op → Client → List Point
  arrivals [] c = []
  arrivals (event e ∷ ops) c = arriving e c ++ arrivals ops (deliver e c)
  arrivals (take ∷ ops) c = arrivals ops (retrieve_data c).1

  -- While a client records, the buffers handed over and the one that is left hold the points that
  -- were there and then, none lost, none twice and in order, those of the packets of Cartesian
  -- high-resolution data whose own stamp is not 0; points of stamp 0 and packets of other data are
  -- what the callback drops. And it keeps recording.
  pub hand_overs-arrivals :
      (ops : List Op) (c : Client) (b : List Point)
      → c.buffer_livox ≡ some b
      → ((hand_overs ops c).1.buffer_livox ≡ some (contents (hand_overs ops c).1.buffer_livox))
        × (flatten (hand_overs ops c).0 ++ contents (hand_overs ops c).1.buffer_livox
            ≡ b ++ arrivals ops c)
  unfolding hand_overs arrivals retrieve_data flatten
  hand_overs-arrivals [] c b e = (rw e, rw e (sym (append-nil b)))
  hand_overs-arrivals (event x ∷ ops) c b e =
      let (on, same) =
        hand_overs-arrivals ops (deliver x c) (b ++ arriving x c) (deliver-buffer x c b e) in
      (on, same ∙ append_assoc b _ _)
  hand_overs-arrivals (take ∷ ops) c b e =
      let (on, same) = hand_overs-arrivals ops (retrieve_data c).1 [] refl in
      (on, rw e (append_assoc b _ _ ∙ ap (◌++◌ b) same))
