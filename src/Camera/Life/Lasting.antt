-- ===== src/Camera/Life/Lasting.antt =====
-- What the controls of extras/libcamera hold after a start, and after many.
use mandeye_controller.Prelude.{
  ℕ, ◌≡◌, refl, sym, ap, ◌∙◌, Bool, true, false, ◌&&◌, Option, none, some, List, [], ◌∷◌, is_some,
  some-eq, Among, ◌⊎◌, Bool-cases, inl, inr, Text, text_eq, codes, starts_with, ◌==◌,
}
use mathlib.Core.Path.{subst}
use mandeye_controller.Prelude.Options.{bind-some, if-some}
use mandeye_controller.Prelude.Assoc.{lookup, insert, lookup-insert}
use mandeye_controller.Camera.{
  TriggerMode, internal, nearest_frame, xvs_hard, Wrapper, TriggerConfig, Gpiod, stop, start, arm,
  slave_mode, read_trigger, capture, release_pps_gpio, frame_sync_id, is_internal, or_else,
}
use mandeye_controller.Camera.Trigger.{open_line-list}
use mandeye_controller.Camera.Controls.{
  Control, Values, ControlList, Allows, Kept, set_control_numeric, set_control_numeric-Kept,
}
use mandeye_controller.Camera.Life.{
  is_throwing, read_part, Setting, number, other, user_controls, Life, Config, Answers, Request,
  Started, threw, returned, start_camera, start_life, stop_life, answered, capture_life, post,
  posts,
}

module _ ⦃vs : Values⦄ where
  open vs use {V, cast}

  -- An entry of the section that is looked at.
  abbrev pub Asked : List (Text × Setting) → Text → V → Type 0
  Asked settings name v = Among (name, number v) settings × (starts_with (codes "_") name ≡ false)

  -- What a key holds after the user's controls.
  abbrev pub KeptOrAsked :
      List (Control V) → List (Text × Setting) → (before after : ControlList) → ℕ → Type 0
  KeptOrAsked cs settings before after k =
      (lookup k after ≡ lookup k before)
      ⊎ ((name : Text) × ((asked : V) × (Asked settings name asked
              × ((c : Control V) × (Among c cs
                    × ((text_eq c.name name ≡ true)
                        × ((c.id ≡ k)
                            × ((lookup k after ≡ some (cast c.control_type asked))
                                × Allows c (cast c.control_type asked)))))))))

  shift :
      (cs : List (Control V)) (s : Text × Setting) (rest : List (Text × Setting))
      (before middle after : ControlList) (k : ℕ)
      → lookup k middle ≡ lookup k before
      → KeptOrAsked cs rest middle after k
      → KeptOrAsked cs (s ∷ rest) before after k
  shift cs s rest before middle after k same (inl kept) = inl (kept ∙ same)
  shift cs s rest before middle after k same (inr (name, (asked, ((among, plain), found)))) =
      inr (name, (asked, ((inr among, plain), found)))

  here :
      (cs : List (Control V)) (key : Text) (x : V) (rest : List (Text × Setting))
      (before after : ControlList) (ok : Bool) (middle : ControlList) (k : ℕ)
      → starts_with (codes "_") key ≡ false
      → Kept cs key x before (ok, middle) k
      → KeptOrAsked cs rest middle after k
      → KeptOrAsked cs ((key, number x) ∷ rest) before after k
  here cs key x rest before after ok middle k plain (inl same) later =
      shift cs (key, number x) rest before middle after k same later
  here cs key x rest before after ok middle k plain
        (inr (good, (c, (among, (named, (id, (found, allowed))))))) (inl kept) =
      inr (key, (x, ((inl refl, plain), (c, (among, (named, (id, (kept ∙ found, allowed))))))))
  here cs key x rest before after ok middle k plain (inr put)
        (inr (name, (asked, ((there, plain'), found)))) =
      inr (name, (asked, ((inr there, plain'), found)))

  pub user_controls-KeptOrAsked :
      (cs : List (Control V)) (settings : List (Text × Setting)) (list : ControlList) (k : ℕ)
      → KeptOrAsked cs settings list (user_controls cs settings list) k
  unfolding user_controls
  user_controls-KeptOrAsked cs [] list k = inl refl
  user_controls-KeptOrAsked cs ((key, other) ∷ rest) list k =
      shift cs (key, other) rest list list _ k refl (user_controls-KeptOrAsked cs rest list k)
  user_controls-KeptOrAsked cs ((key, number v) ∷ rest) list k =
      elim (Bool-cases (starts_with (codes "_") key)) [
        | inl commented ↦ rw commented (
            shift cs (key, number v) rest list list _ k refl
              (user_controls-KeptOrAsked cs rest list k))
        | inr plain ↦
            let (ok, middle) = set_control_numeric cs key v list in
            rw plain (
              here cs key v rest list _ ok middle k plain (set_control_numeric-Kept cs key v list k)
                (user_controls-KeptOrAsked cs rest middle k))
      ]

  -- A key that is set.
  abbrev pub IsHeld : ℕ → ControlList → Type 0
  IsHeld k list = is_some (lookup k list) ≡ true

  KeptOrAsked-IsHeld :
      (cs : List (Control V)) (settings : List (Text × Setting)) (before after : ControlList)
      (k : ℕ)
      → KeptOrAsked cs settings before after k
      → IsHeld k before
      → IsHeld k after
  KeptOrAsked-IsHeld cs settings before after k (inl kept) h = ap is_some kept ∙ h
  KeptOrAsked-IsHeld cs settings before after k
        (inr (name, (asked, (among, (c, (there, (named, (id, (found, allowed))))))))) h =
      ap is_some found

  insert-IsHeld :
      (j k : ℕ) (v : V) (list : ControlList) → IsHeld k list → IsHeld k (insert j v list)
  insert-IsHeld j k v list h =
      let found = lookup-insert j k v list in
      elim (Bool-cases (j == k)) [
        | inl same ↦
            let there : lookup k (insert j v list) ≡ some v = found ∙ rw same refl in
            ap is_some there
        | inr apart ↦
            let there : lookup k (insert j v list) ≡ lookup k list = found ∙ rw apart refl in
            ap is_some there ∙ h
      ]

  slave_mode-IsHeld :
      (one : V) (mode : TriggerMode) (k : ℕ) (w : Wrapper V)
      → IsHeld k w.control_list
      → IsHeld k (slave_mode one mode w).control_list
  unfolding slave_mode
  slave_mode-IsHeld one internal k w h = h
  slave_mode-IsHeld one nearest_frame k w h = h
  slave_mode-IsHeld one xvs_hard k w h = insert-IsHeld frame_sync_id k one w.control_list h

  arm-IsHeld :
      (one : V) (g : Gpiod) (mode : TriggerMode) (k : ℕ) (w : Wrapper V)
      → IsHeld k w.control_list
      → IsHeld k (arm one g mode w).control_list
  unfolding arm
  arm-IsHeld one g mode k w h =
      let slave = slave_mode one mode w in
      let set = slave_mode-IsHeld one mode k w h in
      elim (Bool-cases (is_internal mode)) [
        | inl free ↦ rw free set
        | inr edges ↦
            rw edges
              (ap (λ l. is_some (lookup k l)) (open_line-list g slave.trigger_gpio_pin slave) ∙ set)
      ]

  read_trigger-list :
      (t : Option TriggerConfig) (w : Wrapper V) → (read_trigger t w).control_list ≡ w.control_list
  unfolding read_trigger
  read_trigger-list none w = refl
  read_trigger-list (some t) w = refl

  module _ (cs : List (Control V)) (settings : List (Text × Setting)) (k : ℕ) where
    user_controls-IsHeld :
        (list : ControlList) → IsHeld k list → IsHeld k (user_controls cs settings list)
    user_controls-IsHeld list h =
        KeptOrAsked-IsHeld cs settings list _ k (user_controls-KeptOrAsked cs settings list k) h

    start-IsHeld :
        (t : Option TriggerConfig) (rate : Option ℕ) (one : V) (g : Gpiod) (has_camera : Bool)
        (w : Wrapper V)
        → IsHeld k w.control_list
        → IsHeld k (start t rate (user_controls cs settings) one g has_camera w).1.control_list
    unfolding start
    start-IsHeld t rate one g false w h = ap (λ l. is_some (lookup k l)) (read_trigger-list t w) ∙ h
    start-IsHeld t rate one g true w h =
        let parsed = read_trigger t w in
        arm-IsHeld one g parsed.trigger_mode k
          (record parsed {
            control_list = user_controls cs settings parsed.control_list;
            rate_ms = or_else rate parsed.rate_ms;
          })
          (user_controls-IsHeld parsed.control_list
            (ap (λ l. is_some (lookup k l)) (read_trigger-list t w) ∙ h))

  start_life-IsHeld :
      (c : Config) (a : Answers) (k : ℕ) (l : Life)
      → IsHeld k l.wrapper.control_list
      → IsHeld k (start_life c a l).1.wrapper.control_list
  unfolding start_life start_camera
  start_life-IsHeld c a k l h =
      let kept = λ (t : Option TriggerConfig).
        ap (λ m. is_some (lookup k m)) (read_trigger-list t l.wrapper) ∙ h in
      elim (Bool-cases (is_throwing c.trigger)) [
        | inl bad ↦ rw bad (kept none)
        | inr good ↦ elim (Bool-cases (a.has_camera && is_throwing c.rate_ms)) [
          | inl late ↦
              rw (good, late)
                (user_controls-IsHeld a.controls c.picamera k _ (kept (read_part c.trigger)))
          | inr fine ↦
              rw (good, fine)
                (start-IsHeld a.controls c.picamera k (read_part c.trigger) (read_part c.rate_ms)
                  a.one a.gpiod a.has_camera l.wrapper h)
        ]
      ]

  answered-list :
      (now wall_ns : ℕ) (s : Started × Life)
      → (answered now wall_ns s).1.wrapper.control_list ≡ s.1.wrapper.control_list
  unfolding answered capture_life capture
  answered-list now wall_ns (threw, l) = refl
  answered-list now wall_ns (returned ok, l) = refl

  stop_life-list :
      (l m : Life) → stop_life l ≡ some m → m.wrapper.control_list ≡ l.wrapper.control_list
  unfolding stop_life stop release_pps_gpio
  stop_life-list l m e = sym (ap (λ n. n.wrapper.control_list) (if-some l.has_manager _ m e).1)

  pub post-IsHeld :
      (r : Request) (k : ℕ) (l m : Life) (ok : Bool)
      → post r l ≡ some (ok, m)
      → IsHeld k l.wrapper.control_list
      → IsHeld k m.wrapper.control_list
  unfolding post
  post-IsHeld r k l m ok e h =
      let (stopped, (halted, e₁)) = bind-some (stop_life l) _ _ e in
      let s = start_life r.config r.answers stopped in
      let before = ap (λ n. is_some (lookup k n)) (stop_life-list l stopped halted) ∙ h in
      let after =
        ap (λ n. is_some (lookup k n)) (answered-list r.now r.wall_ns s)
        ∙ start_life-IsHeld r.config r.answers k stopped before in
      subst (λ p. IsHeld k p.1.wrapper.control_list) (some-eq e₁) after

  -- A control that has been set stays set, whatever configurations are posted: so FrameSync, which
  -- XVS_HARD sets, is still in the list with which the camera starts in the mode INTERNAL.
  pub posts-IsHeld :
      (rs : List Request) (k : ℕ) (l m : Life) (oks : List Bool)
      → posts rs l ≡ some (oks, m)
      → IsHeld k l.wrapper.control_list
      → IsHeld k m.wrapper.control_list
  unfolding posts
  posts-IsHeld [] k l m oks e h = subst (λ p. IsHeld k p.1.wrapper.control_list) (some-eq e) h
  posts-IsHeld (r ∷ rs) k l m oks e h =
      let ((ok, n), (posted, e₁)) = bind-some (post r l) _ _ e in
      let ((rest, o), (more, e₂)) = bind-some (posts rs n) _ _ e₁ in
      subst (λ p. IsHeld k p.1.wrapper.control_list) (some-eq e₂)
        (posts-IsHeld rs k n o rest more (post-IsHeld r k l n ok posted h))
