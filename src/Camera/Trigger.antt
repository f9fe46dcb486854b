-- ===== src/Camera/Trigger.antt =====
-- The start of the camera of extras/libcamera: the trigger's mode and the PPS line.
use mandeye_controller.Prelude.{
  ℕ, ◌≡◌, refl, ap, ◌∙◌, Bool, true, false, Option, none, some, List, ◌⊎◌, inl, inr, Bool-cases,
}
use mathlib.Core.Path.{subst}
use mandeye_controller.Prelude.Int.{ℤ, pos, negsuc}
use mandeye_controller.Prelude.Assoc.{lookup, lookup-insert}
use mandeye_controller.Camera.{
  TriggerMode, internal, nearest_frame, xvs_hard, Wrapper, TriggerConfig, Gpiod, read_trigger,
  release_pps_gpio, open_line, slave_mode, arm, or_else, frame_sync_id, start,
}

module _ {V : Type 0} where
  -- The line is held with an edge-driven mode, and nothing is held without.
  abbrev pub Consistent : TriggerMode → Wrapper V → Type 0
  Consistent mode w =
      ((w.trigger_mode ≡ internal) × ((w.pps_chip ≡ false) × (w.pps_line ≡ false)))
      ⊎ ((w.trigger_mode ≡ mode) × ((w.pps_chip ≡ true) × (w.pps_line ≡ true)))

  open_line-Consistent :
      (g : Gpiod) (pin : ℤ) (w : Wrapper V)
      → w.pps_chip ≡ false
      → w.pps_line ≡ false
      → Consistent w.trigger_mode (open_line g pin w)
  unfolding open_line release_pps_gpio
  open_line-Consistent g (negsuc n) w chip line = inl (refl, (chip, line))
  open_line-Consistent g (pos pin) w chip line = elim (Bool-cases (g.opens w.gpio_chip_path)) [
    | inr closed ↦ rw closed (inl (refl, (chip, line)))
    | inl opened ↦ elim (Bool-cases (g.gives_line w.gpio_chip_path pin)) [
      | inr missing ↦ rw (opened, missing) (inl (refl, (refl, refl)))
      | inl given ↦ elim (Bool-cases (g.requests_edges w.gpio_chip_path pin)) [
        | inr refused ↦ rw (opened, given, refused) (inl (refl, (refl, refl)))
        | inl granted ↦ rw (opened, given, granted) (inr (refl, (refl, refl)))
      ]
    ]
  ]

  pub open_line-list :
      (g : Gpiod) (pin : ℤ) (w : Wrapper V) → (open_line g pin w).control_list ≡ w.control_list
  unfolding open_line release_pps_gpio
  open_line-list g (negsuc n) w = refl
  open_line-list g (pos pin) w = elim (Bool-cases (g.opens w.gpio_chip_path)) [
    | inr closed ↦ rw closed refl
    | inl opened ↦ elim (Bool-cases (g.gives_line w.gpio_chip_path pin)) [
      | inr missing ↦ rw (opened, missing) refl
      | inl given ↦ elim (Bool-cases (g.requests_edges w.gpio_chip_path pin)) [
        | inr refused ↦ rw (opened, given, refused) refl
        | inl granted ↦ rw (opened, given, granted) refl
      ]
    ]
  ]

  arm-Consistent :
      (one : V) (g : Gpiod) (mode : TriggerMode) (w : Wrapper V)
      → w.trigger_mode ≡ mode
      → w.pps_chip ≡ false
      → w.pps_line ≡ false
      → Consistent mode (arm one g mode w)
  unfolding arm slave_mode
  arm-Consistent one g internal w e chip line = inl (e, (chip, line))
  arm-Consistent one g nearest_frame w e chip line =
      subst (λ m. Consistent m (open_line g w.trigger_gpio_pin w)) e
        (open_line-Consistent g w.trigger_gpio_pin w chip line)
  arm-Consistent one g xvs_hard w e chip line =
      let slave = slave_mode one xvs_hard w in
      subst (λ m. Consistent m (open_line g w.trigger_gpio_pin slave)) e
        (open_line-Consistent g w.trigger_gpio_pin slave chip line)

  read_trigger-holds :
      (config : Option TriggerConfig) (w : Wrapper V)
      → ((read_trigger config w).pps_chip ≡ w.pps_chip)
        × ((read_trigger config w).pps_line ≡ w.pps_line)
  unfolding read_trigger
  read_trigger-holds none w = (refl, refl)
  read_trigger-holds (some t) w = (refl, refl)

  -- A start reports whether the camera is there. After one that reports true, with nothing held
  -- before, the PPS line is held and the mode is the configured one, or the mode is INTERNAL and
  -- neither the line nor the chip is held, whichever call of gpiod fails. After one that reports
  -- false the mode is the configured one, and nothing is held.
  pub start-Consistent :
      (config : Option TriggerConfig) (rate : Option ℕ) (controls : List (ℕ × V) → List (ℕ × V))
      (one : V) (g : Gpiod) (has_camera : Bool) (w : Wrapper V)
      → w.pps_chip ≡ false
      → w.pps_line ≡ false
      → let (ok, after) = start config rate controls one g has_camera w in
        let mode = (read_trigger config w).trigger_mode in
        (ok ≡ has_camera)
        × (((ok ≡ true) × Consistent mode after)
            ⊎ ((ok ≡ false)
                × ((after.trigger_mode ≡ mode)
                    × ((after.pps_chip ≡ false) × (after.pps_line ≡ false)))))
  unfolding start
  start-Consistent config rate controls one g false w chip line =
      let (same_chip, same_line) = read_trigger-holds config w in
      (refl, inr (refl, (refl, (same_chip ∙ chip, same_line ∙ line))))
  start-Consistent config rate controls one g true w chip line =
      let parsed = read_trigger config w in
      let (same_chip, same_line) = read_trigger-holds config w in
      let armed =
        arm-Consistent one g parsed.trigger_mode
          (record parsed {
            control_list = controls parsed.control_list;
            rate_ms = or_else rate parsed.rate_ms;
          })
          refl (same_chip ∙ chip) (same_line ∙ line) in
      (refl, inl (refl, armed))

  arm-list :
      (one : V) (g : Gpiod) (mode : TriggerMode) (w : Wrapper V)
      → mode ≡ xvs_hard
      → lookup frame_sync_id (arm one g mode w).control_list ≡ some one
  unfolding arm slave_mode
  arm-list one g internal w e = absurd cc
  arm-list one g nearest_frame w e = absurd cc
  arm-list one g xvs_hard w e =
      ap (lookup frame_sync_id) (open_line-list g w.trigger_gpio_pin (slave_mode one xvs_hard w))
      ∙ lookup-insert frame_sync_id frame_sync_id one w.control_list

  -- With XVS_HARD in the configuration the camera is started with FrameSync set, whatever gpiod
  -- answers: also when the mode falls back to INTERNAL, in which the frames come by themselves.
  pub start-frame_sync :
      (config : Option TriggerConfig) (rate : Option ℕ) (controls : List (ℕ × V) → List (ℕ × V))
      (one : V) (g : Gpiod) (w : Wrapper V)
      → (read_trigger config w).trigger_mode ≡ xvs_hard
      → lookup frame_sync_id (start config rate controls one g true w).1.control_list ≡ some one
  unfolding start
  start-frame_sync config rate controls one g w hard =
      arm-list one g (read_trigger config w).trigger_mode _ hard
