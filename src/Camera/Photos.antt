-- ===== src/Camera/Photos.antt =====
-- Which frames of extras/libcamera become photos of an edge.
use mandeye_controller.Prelude.{
  ℕ, ◌+◌, ◌-◌, ◌<◌, ◌≡◌, refl, Bool, true, false, ◌||◌, Option, none, some, List, [], ◌∷◌, map, ltb,
  inl, inr, Bool-cases, All, ltb→lt, ◌∙◌,
}
use mathlib.Core.Path.{subst}
use mandeye_controller.Camera.{
  TriggerMode, internal, nearest_frame, xvs_hard, Wrapper, Photo, distance, Event, edge_stamped,
  edge_raised, frame, with_photo, adjust_system_clock, pps_stamp, pps_raise, decide, noted,
  request_complete, photos,
}

-- The first list is the second without some of its elements.
pub data Within {ℓ} {A : Type ℓ} : List A → List A → Type ℓ where
  done : Within [] []
  skip : {a : A} {xs ys : List A} → Within xs ys → Within xs (a ∷ ys)
  keep : {a : A} {xs ys : List A} → Within xs ys → Within (a ∷ xs) (a ∷ ys)

-- The times of the edges, in their order: an edge's time once at its first store, and a second time
-- at its second store when that does not follow at once. `at_once` says whether the event before is
-- an edge's first store, and `t` is the time stored last.
abbrev pub edge_times : (at_once : Bool) → ℕ → List Event → List ℕ
edge_times at_once t [] = []
edge_times at_once t (edge_stamped real_ns mono_ns event_ns ∷ es) =
    let time = event_ns + (real_ns - mono_ns) in time ∷ edge_times true time es
edge_times true t (edge_raised ∷ es) = edge_times false t es
edge_times false t (edge_raised ∷ es) = t ∷ edge_times false t es
edge_times at_once t (frame c real_ns mono_ns sensor_ns now ∷ es) = edge_times false t es

abbrev pub pending_edge : Bool → ℕ → List ℕ → List ℕ
pending_edge true t ts = t ∷ ts
pending_edge false t ts = ts

abbrev pub reported : List Photo → List ℕ
reported ps = map (λ p. p.report_timestamp_ns) ps

none_within : (b : Bool) (t : ℕ) → Within [] (pending_edge b t [])
none_within true t = skip done
none_within false t = done

Within-pending :
    (b : Bool) (t : ℕ) (xs ts : List ℕ) → Within xs ts → Within xs (pending_edge b t ts)
Within-pending true t xs ts h = skip h
Within-pending false t xs ts h = h

Within-at_once :
    (at_once b : Bool) (t : ℕ) (xs ts : List ℕ)
    → Within xs (pending_edge b t ts)
    → Within xs (pending_edge (at_once || b) t ts)
Within-at_once false b t xs ts h = h
Within-at_once true true t xs ts h = h
Within-at_once true false t xs ts h = skip h

abbrev pub IsNear : ℕ → Photo → Type 0
IsNear age p = distance p.frame_utc_ns p.report_timestamp_ns < age

module _ {V : Type 0} where
  -- The photos of an event before those that follow, in the mode NEAREST_FRAME: `w` before it and
  -- `d` after it.
  abbrev Adds : Wrapper V → Option Photo → Wrapper V → Type 0
  Adds w photo d =
      (d.trigger_mode ≡ w.trigger_mode)
      × (((d.max_frame_age_ns ≡ w.max_frame_age_ns) × (d.last_pps_ns ≡ w.last_pps_ns))
          × ((rest : List Photo) (ts : List ℕ)
              → Within (reported rest) (pending_edge d.pps_pending d.last_pps_ns ts)
              → All (IsNear w.max_frame_age_ns) rest
              → Within (reported (with_photo photo rest))
                  (pending_edge w.pps_pending w.last_pps_ns ts)
                × All (IsNear w.max_frame_age_ns) (with_photo photo rest)))

  nothing-Adds : (w : Wrapper V) → Adds w none w
  nothing-Adds w = (refl, ((refl, refl), λ rest ts h k. (h, k)))

  decide-Adds :
      (utc now : ℕ) (w : Wrapper V)
      → let (photo, d) = decide nearest_frame utc now w in Adds w photo d
  unfolding decide
  decide-Adds utc now w = elim (Bool-cases w.pps_pending) [
    | inr none_pending ↦ rw none_pending (refl, ((refl, refl), λ rest ts h k. (h, k)))
    | inl pending ↦ elim (Bool-cases (ltb (distance utc w.last_pps_ns) w.max_frame_age_ns)) [
      | inr far ↦ rw (pending, far) (refl, ((refl, refl), λ rest ts h k. (h, k)))
      | inl near ↦
          rw (pending, near)
            (refl, ((refl, refl), λ rest ts h k. (keep h, (ltb→lt _ w.max_frame_age_ns near, k))))
    ]
  ]

  noted-Adds :
      (w : Wrapper V) (photo : Option Photo) (d : Wrapper V)
      → Adds w photo d
      → Adds w photo (noted photo d)
  noted-Adds w none d h = h
  noted-Adds w (some p) d h = h

  decide_in :
      (mode : TriggerMode) (utc now : ℕ) (w : Wrapper V)
      → mode ≡ nearest_frame
      → let (photo, d) = decide mode utc now w in Adds w photo (noted photo d)
  decide_in nearest_frame utc now w e =
      let (photo, d) = decide nearest_frame utc now w in
      noted-Adds w photo d (decide-Adds utc now w)
  decide_in internal utc now w e = absurd cc
  decide_in xvs_hard utc now w e = absurd cc

  request_complete-Adds :
      (c : Bool) (real_ns mono_ns sensor_ns now : ℕ) (w : Wrapper V)
      → w.trigger_mode ≡ nearest_frame
      → let ((photo, queued), d) = request_complete c real_ns mono_ns sensor_ns now w in
        Adds w photo d
  unfolding request_complete adjust_system_clock
  request_complete-Adds true real_ns mono_ns sensor_ns now w mode =
      (refl, ((refl, refl), λ rest ts h k. (h, k)))
  request_complete-Adds false real_ns mono_ns sensor_ns now w mode =
      let adjusted = adjust_system_clock real_ns mono_ns w in
      decide_in w.trigger_mode (sensor_ns + (real_ns - mono_ns)) now adjusted mode

  -- What may be reported from `w` on, when an edge's first store may have come just before.
  abbrev Reports : (at_once : Bool) → List Event → Wrapper V → Type 0
  Reports at_once es w =
      Within (reported (photos es w)) (
        pending_edge (at_once || w.pps_pending) w.last_pps_ns (edge_times at_once w.last_pps_ns es))
      × All (IsNear w.max_frame_age_ns) (photos es w)

  photos-Reports :
      (at_once : Bool) (es : List Event) (w : Wrapper V)
      → w.trigger_mode ≡ nearest_frame
      → Reports at_once es w
  unfolding photos pps_stamp pps_raise adjust_system_clock
  photos-Reports at_once [] w mode = (none_within (at_once || w.pps_pending) w.last_pps_ns, tt)
  photos-Reports at_once (edge_stamped real_ns mono_ns event_ns ∷ es) w mode =
      let (h, near) = photos-Reports true es (pps_stamp real_ns mono_ns event_ns w) mode in
      (Within-pending (at_once || w.pps_pending) w.last_pps_ns _ _ h, near)
  photos-Reports true (edge_raised ∷ es) w mode = photos-Reports false es (pps_raise w) mode
  photos-Reports false (edge_raised ∷ es) w mode =
      let (h, near) = photos-Reports false es (pps_raise w) mode in
      (Within-pending w.pps_pending w.last_pps_ns _ _ h, near)
  photos-Reports at_once (frame c real_ns mono_ns sensor_ns now ∷ es) w mode =
      let ((photo, queued), d) = request_complete c real_ns mono_ns sensor_ns now w in
      let (same, ((age, stamp), adds)) =
        request_complete-Adds c real_ns mono_ns sensor_ns now w mode in
      let (h, near) = photos-Reports false es d (same ∙ mode) in
      let later =
        subst
          (λ t.
            Within (reported (photos es d))
              (pending_edge d.pps_pending d.last_pps_ns (edge_times false t es)))
          stamp h in
      let (all, close) =
        adds (photos es d) (edge_times false w.last_pps_ns es) later
          (subst (λ a. All (IsNear a) (photos es d)) age near) in
      (
        Within-at_once at_once w.pps_pending w.last_pps_ns
            (reported (with_photo photo (photos es d))) (edge_times false w.last_pps_ns es) all,
        close,
      )

  -- In the mode NEAREST_FRAME, whatever edges and frames come, every photo reports the time of an
  -- edge, or of the one pending before, in the edges' order, and its frame is less than the greatest age away from it. There is at
  -- most one photo for an edge whose two stores follow one another, and at most two when another
  -- event comes between its stores.
  pub photos-Within :
      (es : List Event) (w : Wrapper V)
      → w.trigger_mode ≡ nearest_frame
      → Within
          (reported (photos es w))
          (pending_edge w.pps_pending w.last_pps_ns (edge_times false w.last_pps_ns es))
        × All (IsNear w.max_frame_age_ns) (photos es w)
  photos-Within es w mode = photos-Reports false es w mode
