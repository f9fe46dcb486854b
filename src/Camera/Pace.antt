-- ===== src/Camera/Pace.antt =====
-- How many frames of extras/libcamera become photos when nothing triggers them.
use mandeye_controller.Prelude.{
  ℕ, suc, ◌+◌, ◌*◌, ◌/◌, ◌-◌, ◌<◌, ◌≤◌, ◌≡◌, refl, Bool, true, false, Option, none, List, [], ◌∷◌,
  ltb, length, inl, inr, Bool-cases, All, ltb→lt, ◌∙◌, arith,
}
use mathlib.Core.Path.{subst}
use mandeye_controller.Camera.{
  TriggerMode, internal, nearest_frame, xvs_hard, Wrapper, Photo, Event, edge_stamped, edge_raised,
  frame, with_photo, adjust_system_clock, pps_stamp, pps_raise, decide, noted, request_complete,
  photos,
}

-- The steady clock's reading of an event is at most `t`.
abbrev pub IsBefore : ℕ → Event → Type 0
IsBefore t (edge_stamped real_ns mono_ns event_ns) = Unit
IsBefore t edge_raised = Unit
IsBefore t (frame c real_ns mono_ns sensor_ns now) = now ≤ t

-- The least time between two photos, in nanoseconds.
abbrev pub pace : ℕ → ℕ
pace rate_ms = (1 + rate_ms) * 1000000

late_enough : (rate now start : ℕ) → rate < (now - start) / 1000000 → start + pace rate ≤ now
late_enough rate now start h = omega arith

one_more :
    (start now step n last : ℕ)
    → start + step ≤ now
    → now + n * step ≤ last
    → start + suc n * step ≤ last
one_more start now step n last h k = grind arith

module _ {V : Type 0} where
  -- The photos of an event before those that follow, in the mode INTERNAL, when the steady clock
  -- stands at `now`: `w` before it and `d` after it.
  abbrev Spends : ℕ → Wrapper V → Option Photo → Wrapper V → Type 0
  Spends now w photo d =
      (d.trigger_mode ≡ w.trigger_mode)
      × ((d.rate_ms ≡ w.rate_ms)
          × (((last : ℕ) → w.frame_start ≤ last → now ≤ last → d.frame_start ≤ last)
              × ((rest : List Photo) (last : ℕ)
                  → d.frame_start + length rest * pace w.rate_ms ≤ last
                  → w.frame_start + length (with_photo photo rest) * pace w.rate_ms ≤ last)))

  none-Spends : (now : ℕ) (w : Wrapper V) → Spends now w none w
  none-Spends now w = (refl, (refl, (λ last h k. h, λ rest last h. h)))

  decide-Spends :
      (utc now : ℕ) (w : Wrapper V)
      → let (photo, d) = decide internal utc now w in Spends now w photo (noted photo d)
  unfolding decide
  decide-Spends utc now w = elim (Bool-cases (ltb w.rate_ms ((now - w.frame_start) / 1000000))) [
    | inr early ↦ rw early (none-Spends now w)
    | inl late ↦
        let enough = late_enough w.rate_ms now w.frame_start (ltb→lt w.rate_ms _ late) in
        rw late (
          refl,
          (
            refl,
            (
              λ last h k. k,
              λ rest last h.
                  one_more w.frame_start now (pace w.rate_ms) (length rest) last enough h,
            ),
          ),
        )
  ]

  decide_in :
      (mode : TriggerMode) (utc now : ℕ) (w : Wrapper V)
      → mode ≡ internal
      → let (photo, d) = decide mode utc now w in Spends now w photo (noted photo d)
  decide_in internal utc now w e = decide-Spends utc now w
  decide_in nearest_frame utc now w e = absurd cc
  decide_in xvs_hard utc now w e = absurd cc

  request_complete-Spends :
      (c : Bool) (real_ns mono_ns sensor_ns now : ℕ) (w : Wrapper V)
      → w.trigger_mode ≡ internal
      → let ((photo, queued), d) = request_complete c real_ns mono_ns sensor_ns now w in
        Spends now w photo d
  unfolding request_complete adjust_system_clock
  request_complete-Spends true real_ns mono_ns sensor_ns now w mode = none-Spends now w
  request_complete-Spends false real_ns mono_ns sensor_ns now w mode =
      let adjusted = adjust_system_clock real_ns mono_ns w in
      decide_in w.trigger_mode (sensor_ns + (real_ns - mono_ns)) now adjusted mode

  -- In the mode INTERNAL, whatever edges and frames come while the steady clock reads at most
  -- `last`, the number of photos times one millisecond more than the rate is at most the time from
  -- the last kept frame before them, or from the capture's start, to `last`.
  pub photos-pace :
      (es : List Event) (w : Wrapper V) (last : ℕ)
      → w.trigger_mode ≡ internal
      → w.frame_start ≤ last
      → All (IsBefore last) es
      → w.frame_start + length (photos es w) * pace w.rate_ms ≤ last
  unfolding photos pps_stamp pps_raise adjust_system_clock
  photos-pace [] w last mode started before = omega arith
  photos-pace (edge_stamped real_ns mono_ns event_ns ∷ es) w last mode started (tt, before) =
      photos-pace es (pps_stamp real_ns mono_ns event_ns w) last mode started before
  photos-pace (edge_raised ∷ es) w last mode started (tt, before) =
      photos-pace es (pps_raise w) last mode started before
  photos-pace (frame c real_ns mono_ns sensor_ns now ∷ es) w last mode started
        (now_before, before) =
      let ((photo, queued), d) = request_complete c real_ns mono_ns sensor_ns now w in
      let (same, (rate, (starts, spends))) =
        request_complete-Spends c real_ns mono_ns sensor_ns now w mode in
      spends (photos es d) last (
        subst (λ r. d.frame_start + length (photos es d) * pace r ≤ last) rate
          (photos-pace es d last (same ∙ mode) (starts last started now_before) before))
