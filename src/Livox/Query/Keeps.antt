-- ===== src/Livox/Query/Keeps.antt =====
-- The fields of the client that a query touches.
use mandeye_controller.Prelude.{
  ℕ, zero, List, suc, ◌+◌, ◌%◌, ◌≡◌, sym, ap, ◌∙◌, Option, none, some, ltb, ◌==◌, inl, inr,
  Bool-cases, Option-cases, some-eq,
}
use mandeye_controller.Prelude.Assoc.{insert}
use mandeye_controller.Prelude.Int.{ℤ, pos, minus_one}
use mandeye_controller.Livox.{Client}
use mandeye_controller.Livox.Query.{
  Response, param_loop, take_param, uint16_at, query_internal_info_callback, param_fuel,
  key_work_mode, key_time_sync_type,
}
use mandeye_controller.Livox.Events.{returned}

-- `f` reads neither the work modes nor the time synchronisation.
abbrev pub Untouched {ℓ} : {A : Type ℓ} → (Client → A) → Type ℓ
Untouched f =
    ((m : List (ℕ × ℤ)) (c : Client) → f (record c { lidar_work_mode = m }) ≡ f c)
    × ((m : List (ℕ × ℕ)) (c : Client) → f (record c { lidar_time_sync = m }) ≡ f c)

module _ {ℓ} {A : Type ℓ} (f : Client → A) (keep : Untouched f) where
  take_param_keeps : (h key first : ℕ) (c : Client) → f (take_param h key first c) ≡ f c
  unfolding take_param
  take_param_keeps h key first c = elim (Bool-cases (key == key_work_mode)) [
    | inl mode ↦ rw mode (keep.0 (insert h (pos first) c.lidar_work_mode) c)
    | inr other ↦ elim (Bool-cases (key == key_time_sync_type)) [
      | inl sync ↦ rw (other, sync) (keep.1 (insert h first c.lidar_time_sync) c)
      | inr neither ↦ rw (other, neither)
    ]
  ]

  param_loop_keeps :
      (fuel i off h : ℕ) (r : Response) (c d : Client)
      → param_loop fuel i off h r c ≡ some d
      → f d ≡ f c
  unfolding param_loop
  param_loop_keeps zero i off h r c d e = cc
  param_loop_keeps (suc fuel) i off h r c d e = elim (Bool-cases (ltb i r.param_num)) [
    | inl more ↦
        param_loop_keeps fuel ((i + 1) % 256) ((off + 4 + uint16_at r (off + 2)) % 65536) h r
          (take_param h (uint16_at r off) (r.bytes (off + 4)) c) d (rw more at e)
        ∙ take_param_keeps h (uint16_at r off) (r.bytes (off + 4)) c
    | inr done ↦ ap f (sym (some-eq (rw done at e)))
  ]

  answer_keeps :
      (s h : ℕ) (r : Option Response) (c d : Client)
      → query_internal_info_callback s h r c ≡ some d
      → f d ≡ f c
  unfolding query_internal_info_callback
  answer_keeps s h none c d e = elim (Bool-cases (s == 0)) [
    | inl good ↦ ap f (sym (some-eq (rw good at e)))
    | inr bad ↦ ap f (sym (some-eq (rw bad at e))) ∙ keep.0 (insert h minus_one c.lidar_work_mode) c
  ]
  answer_keeps s h (some r) c d e = elim (Bool-cases (s == 0)) [
    | inl good ↦ param_loop_keeps param_fuel 0 0 h r c d (rw good at e)
    | inr bad ↦ ap f (sym (some-eq (rw bad at e))) ∙ keep.0 (insert h minus_one c.lidar_work_mode) c
  ]

  pub query_keeps :
      (s h : ℕ) (r : Option Response) (c : Client)
      → f (returned (query_internal_info_callback s h r c) c) ≡ f c
  query_keeps s h r c = elim (Option-cases (query_internal_info_callback s h r c)) [
    | inl hangs ↦ rw hangs
    | inr (d, e) ↦ rw e (answer_keeps s h r c d e)
  ]
