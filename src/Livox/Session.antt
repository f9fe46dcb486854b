-- ===== src/Livox/Session.antt =====
-- Time stamps and the session's duration (saveTimeStamp, initializeDuration).
use mandeye_controller.Prelude.{
  ℕ, ◌-◌, ◌^◌, ◌<◌, ◌≡◌, refl, ◌∙◌, Option, none, some, List, [], ◌∷◌, arith, All, length, ltb,
  ◌==◌, if◌then◌else◌,
}
use mandeye_controller.Livox.{
  Client, Doubles, high_data, imu_data, uint64_of, initialize_duration, point_cloud_callback,
  imu_data_callback, lidar_info_change_callback,
}
use mandeye_controller.Livox.Query.Keeps.{query_keeps}
use mandeye_controller.Livox.Events.{
  Event, point_cloud, imu_sample, info_change, query_info, deliver, deliver_all,
}

-- The stamp that an event brings.
unfoldable pub stamp_of : Event → Option ℕ
stamp_of (point_cloud h p) = if p.data_type == high_data then some (uint64_of p.timestamp) else none
stamp_of (imu_sample h p t) = if p.data_type == imu_data then some (uint64_of p.timestamp) else none
stamp_of _ = none

-- A stamp of eight bytes is a uint64_t.
pub uint64_of-lt : (bs : List ℕ) → length bs ≡ 8 → All (λ b. b < 256) bs → uint64_of bs < 2 ^ 64
unfolding uint64_of
uint64_of-lt (a ∷ b ∷ c ∷ d ∷ e ∷ f ∷ g ∷ h ∷ []) n small = omega arith
uint64_of-lt _ n small = absurd (omega arith)

module _ ⦃fl : Doubles⦄ where
  deliver-session_start : (e : Event) (c : Client) → (deliver e c).session_start ≡ c.session_start
  unfolding deliver point_cloud_callback imu_data_callback lidar_info_change_callback
  deliver-session_start (point_cloud h p) c = ground arith
  deliver-session_start (imu_sample h p t) c = ground arith
  deliver-session_start (info_change h info) c = refl
  deliver-session_start (query_info s h q) c =
      query_keeps (λ d. d.session_start) (λ m c. refl, λ m c. refl) s h q c

  deliver_all-session_start :
      (es : List Event) (c : Client) → (deliver_all es c).session_start ≡ c.session_start
  unfolding deliver_all
  deliver_all-session_start [] c = refl
  deliver_all-session_start (e ∷ es) c =
      deliver_all-session_start es (deliver e c) ∙ deliver-session_start e c

  -- The start of the session, once set, is changed by no callback and by no second start.
  pub session_start_set_once :
      (es : List Event) (c : Client) (start : ℕ)
      → c.session_start ≡ some start
      → (initialize_duration (deliver_all es c)).session_start ≡ some start
  unfolding initialize_duration
  session_start_set_once es c start e = rw (deliver_all-session_start es c, e)

  -- In a running session, a callback that brings a stamp below 2 ^ 64 sets the clock to it. The
  -- elapsed time is the exact difference to the start if the stamp is not before it, and 2 ^ 64
  -- less the time that it is before the start if it is.
  pub deliver-elapsed :
      (e : Event) (c : Client) (start stamp : ℕ)
      → c.session_start ≡ some start
      → stamp_of e ≡ some stamp
      → start < 2 ^ 64
      → stamp < 2 ^ 64
      → ((deliver e c).timestamp ≡ stamp)
        × ((deliver e c).elapsed
            ≡ (if ltb stamp start then 2 ^ 64 - (start - stamp) else stamp - start))
  unfolding deliver stamp_of point_cloud_callback imu_data_callback
  deliver-elapsed (point_cloud h p) c start stamp s t u v = ground arith
  deliver-elapsed (imu_sample h p m) c start stamp s t u v = ground arith
  deliver-elapsed (info_change h info) c start stamp s t u v = cc
  deliver-elapsed (query_info x h q) c start stamp s t u v = cc
