-- ===== src/Livox/Listener/Woken.antt =====
-- What the answer of a lidar makes the watching thread do in its next round.
use mandeye_controller.Prelude.{
  ℕ, ◌<◌, ◌≤◌, ◌≡◌, ◌≢◌, ◌↔◌, refl, sym, ap, ◌∙◌, true, Option, some, List, [], ◌∷◌, length, All,
  Among, arith, Bool-cases, inl, inr, ◌==◌, ==_iff, if◌then◌else◌, get_or,
}
use mathlib.Core.Path.{subst}
use mandeye_controller.Prelude.Assoc.{lookup, insert, lookup-insert}
use mandeye_controller.Prelude.Int.{ℤ, pos, minus_one}
use mandeye_controller.Livox.{Client, Doubles}
use mandeye_controller.Livox.Query.{
  take_param, key_work_mode, query_internal_info_callback, Response,
}
use mandeye_controller.Livox.Query.Params.{
  Param, IsParam, encode, take_params, response_of, query-encode,
}
use mandeye_controller.Livox.Events.{query_info, deliver, returned}
use mandeye_controller.Livox.Listener.{set_work_mode, normal, test_round}
use mandeye_controller.Livox.Listener.Watched.{Sleeps, Known, test_round-calls}

-- The work mode after the parameters, when it was `mode` before them.
abbrev pub mode_after : List Param → Option ℤ → Option ℤ
mode_after [] mode = mode
mode_after (p ∷ ps) mode =
    mode_after ps (if p.key == key_work_mode then some (pos (get_or p.value 0 0)) else mode)

nat_eq_refl : (h : ℕ) → (h == h) ≡ true
nat_eq_refl h = ground arith

take_param-mode :
    (h key first : ℕ) (c : Client)
    → lookup h (take_param h key first c).lidar_work_mode
      ≡ (if key == key_work_mode then some (pos first) else lookup h c.lidar_work_mode)
unfolding take_param
take_param-mode h key first c = ground (arith, lookup-insert h h (pos first) c.lidar_work_mode)

take_params-mode :
    (h : ℕ) (ps : List Param) (c : Client)
    → lookup h (take_params h ps c).lidar_work_mode ≡ mode_after ps (lookup h c.lidar_work_mode)
unfolding take_params
take_params-mode h [] c = refl
take_params-mode h (p ∷ ps) c =
    take_params-mode h ps (take_param h p.key (get_or p.value 0 0) c)
    ∙ ap (mode_after ps) (take_param-mode h p.key (get_or p.value 0 0) c)

take_param-serial :
    (h key first : ℕ) (c : Client)
    → (take_param h key first c).handle_to_serial_number ≡ c.handle_to_serial_number
unfolding take_param
take_param-serial h key first c = ground arith

take_params-serial :
    (h : ℕ) (ps : List Param) (c : Client)
    → (take_params h ps c).handle_to_serial_number ≡ c.handle_to_serial_number
unfolding take_params
take_params-serial h [] c = refl
take_params-serial h (p ∷ ps) c =
    take_params-serial h ps (take_param h p.key (get_or p.value 0 0) c)
    ∙ take_param-serial h p.key (get_or p.value 0 0) c

module _ ⦃fl : Doubles⦄ where
  deliver-answer :
      (h : ℕ) (ps : List Param) (c : Client)
      → All IsParam ps
      → length ps ≤ 255
      → length (encode ps) < 65536
      → deliver (query_info 0 h (some (response_of ps))) c ≡ take_params h ps c
  unfolding deliver
  deliver-answer h ps c good few small = ap (λ o. returned o c) (query-encode h ps c good few small)

  deliver-failure :
      (h status : ℕ) (r : Option Response) (c : Client)
      → status ≢ 0
      → deliver (query_info status h r) c
        ≡ record c { lidar_work_mode = insert h minus_one c.lidar_work_mode }
  unfolding deliver query_internal_info_callback
  deliver-failure h status r c failed = elim (Bool-cases (status == 0)) [
    | inl zero_status ↦ absurd (failed ((==_iff status 0).0 zero_status))
    | inr bad ↦ rw bad refl
  ]

  -- After the answer of a lidar whose serial number is known, the next round wakes it exactly when
  -- the last work mode in the answer, or the one known before if the answer has none, is not
  -- normal; and after a query that failed, the next round wakes it whatever was known.
  pub answer_wakes :
      (h : ℕ) (ps : List Param) (c : Client) (status : ℕ) (r : Option Response)
      → Known h c.handle_to_serial_number
      → All IsParam ps
      → length ps ≤ 255
      → length (encode ps) < 65536
      → status ≢ 0
      → (Among
            (set_work_mode h normal)
            (test_round (deliver (query_info 0 h (some (response_of ps))) c))
          ↔ Sleeps (mode_after ps (lookup h c.lidar_work_mode)))
        × Among (set_work_mode h normal) (test_round (deliver (query_info status h r) c))
  answer_wakes h ps c status r known good few small failed =
      let d = take_params h ps c in
      let calls = (test_round-calls d h normal).1 in
      let mode = take_params-mode h ps c in
      let known_after = subst (Known h) (sym (take_params-serial h ps c)) known in
      let e : Client = record c { lidar_work_mode = insert h minus_one c.lidar_work_mode } in
      let stored : lookup h e.lidar_work_mode ≡ some minus_one =
        lookup-insert h h minus_one c.lidar_work_mode ∙ rw (nat_eq_refl h) refl in
      (
        rw (deliver-answer h ps c good few small) (
          λ a. subst Sleeps mode (calls.0 a).1,
          λ s. calls.1 (refl, subst Sleeps (sym mode) s, known_after),
        ),
        rw (deliver-failure h status r c failed)
            ((test_round-calls e h normal).1.1 (refl, subst Sleeps (sym stored) refl, known)),
      )
