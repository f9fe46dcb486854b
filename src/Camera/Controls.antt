-- ===== src/Camera/Controls.antt =====
-- setControlNumeric of extras/libcamera/LibCameraWrapper.cpp. The values of libcamera's controls and
-- the conversions between C++'s number types are the instance argument `Values`.
use mandeye_controller.Prelude.{
  ℕ, ◌≡◌, refl, sym, ap, ◌∙◌, Bool, true, false, not, ◌||◌, some, List, [], ◌∷◌, ◌⊎◌, inl, inr,
  Bool-cases, if◌then◌else◌, Text, text_eq, Among, arith, ◌==◌,
}
use mathlib.Core.Path.{subst}
use mandeye_controller.Prelude.Assoc.{lookup, insert, lookup-insert}

pub data ControlType : Type 0 where
  type_none type_bool type_byte type_unsigned16 type_integer32 type_integer64 : ControlType
  type_float type_string type_other : ControlType

pub record Control (V : Type 0) : Type 0 where
  pub name : Text
  pub id : ℕ
  pub control_type : ControlType
  pub is_array : Bool
  pub min : V
  pub max : V

-- `cast` is the static_cast to a type's values, and for a string std::to_string; `below` compares
-- two values of a type.
pub record Values : Type 1 where
  pub V : Type 0
  pub cast : ControlType → V → V
  pub below : ControlType → V → V → Bool

module _ ⦃vs : Values⦄ where
  open vs use {V, cast, below}

  unfoldable pub check_if_in_range : Control V → V → Bool
  check_if_in_range c v = not (below c.control_type v c.min || below c.control_type c.max v)

  abbrev pub is_ranged : ControlType → Bool
  is_ranged type_byte = true
  is_ranged type_unsigned16 = true
  is_ranged type_integer32 = true
  is_ranged type_integer64 = true
  is_ranged type_float = true
  is_ranged _ = false

  abbrev pub ControlList : Type 0
  ControlList = List (ℕ × V)

  abbrev pub set_checked : Control V → V → ControlList → ControlList
  set_checked c v list = if check_if_in_range c v then insert c.id v list else list

  -- A control with the name that is asked for.
  unfoldable pub set_value : Control V → ControlType → V → ControlList → Bool × ControlList
  unfolding check_if_in_range
  set_value c type_none v list = (false, list)
  set_value c type_bool v list = (true, insert c.id (cast type_bool v) list)
  set_value c type_string v list = (true, insert c.id (cast type_string v) list)
  set_value c type_other v list = (true, list)
  set_value c t v list = (true, set_checked c (cast t v) list)

  unfoldable pub set_control_numeric :
      List (Control V) → Text → V → ControlList → Bool × ControlList
  unfolding set_value
  set_control_numeric [] wanted v list = (false, list)
  set_control_numeric (c ∷ cs) wanted v list =
      let later = set_control_numeric cs wanted v list in
      if text_eq c.name wanted
      then (if c.is_array then (false, list) else set_value c c.control_type v list)
      else later

  -- A value that a control's range allows, where the control has one.
  abbrev pub Allows : Control V → V → Type 0
  Allows c v = is_ranged c.control_type ≡ true → check_if_in_range c v ≡ true

  -- What a key holds afterwards, when `asked` is the value that was asked for.
  abbrev pub Kept :
      List (Control V) → Text → (asked : V) → ControlList → Bool × ControlList → ℕ → Type 0
  Kept cs wanted asked list (ok, after) k =
      (lookup k after ≡ lookup k list)
      ⊎ ((ok ≡ true)
          × ((c : Control V) × (Among c cs
                × ((text_eq c.name wanted ≡ true)
                    × ((c.id ≡ k)
                        × ((lookup k after ≡ some (cast c.control_type asked))
                            × Allows c (cast c.control_type asked)))))))

  insert-Kept :
      (c : Control V) (cs : List (Control V)) (wanted : Text) (asked u : V) (list : ControlList)
      (k : ℕ)
      → text_eq c.name wanted ≡ true
      → u ≡ cast c.control_type asked
      → Allows c u
      → Kept (c ∷ cs) wanted asked list (true, insert c.id u list) k
  insert-Kept c cs wanted asked u list k named e allowed =
      let found = lookup-insert c.id k u list in
      elim (Bool-cases (c.id == k)) [
        | inr other ↦
            let kept : (if c.id == k then some u else lookup k list) ≡ lookup k list =
              rw other refl in
            inl (found ∙ kept)
        | inl same ↦
            let there : (if c.id == k then some u else lookup k list) ≡ some u = rw same refl in
            inr (
              refl,
              (
                c,
                (
                  inl refl,
                  (
                    named,
                    (ground (arith, same), (found ∙ there ∙ ap some e, subst (Allows c) e allowed)),
                  ),
                ),
              ),
            )
      ]

  set_checked-Kept :
      (c : Control V) (cs : List (Control V)) (wanted : Text) (asked u : V) (list : ControlList)
      (k : ℕ)
      → text_eq c.name wanted ≡ true
      → u ≡ cast c.control_type asked
      → Kept (c ∷ cs) wanted asked list (true, set_checked c u list) k
  set_checked-Kept c cs wanted asked u list k named e = elim (Bool-cases (check_if_in_range c u)) [
    | inr outside ↦ rw outside (inl refl)
    | inl inside ↦ rw inside (insert-Kept c cs wanted asked u list k named e (λ ranged. inside))
  ]

  no_range :
      (c : Control V) (t : ControlType) (u : V)
      → c.control_type ≡ t
      → is_ranged t ≡ false
      → Allows c u
  no_range c t u e f h = absurd (let g : is_ranged t ≡ true = ap is_ranged (sym e) ∙ h in cc)

  set_value-Kept :
      (c : Control V) (cs : List (Control V)) (t : ControlType) (wanted : Text) (v : V)
      (list : ControlList) (k : ℕ)
      → c.control_type ≡ t
      → text_eq c.name wanted ≡ true
      → Kept (c ∷ cs) wanted v list (set_value c t v list) k
  unfolding set_value
  set_value-Kept c cs type_none wanted v list k e named = inl refl
  set_value-Kept c cs type_other wanted v list k e named = inl refl
  set_value-Kept c cs type_bool wanted v list k e named =
      insert-Kept c cs wanted v (cast type_bool v) list k named (ap (λ t. cast t v) (sym e))
        (no_range c type_bool _ e refl)
  set_value-Kept c cs type_string wanted v list k e named =
      insert-Kept c cs wanted v (cast type_string v) list k named (ap (λ t. cast t v) (sym e))
        (no_range c type_string _ e refl)
  set_value-Kept c cs type_byte wanted v list k e named =
      set_checked-Kept c cs wanted v (cast type_byte v) list k named (ap (λ t. cast t v) (sym e))
  set_value-Kept c cs type_unsigned16 wanted v list k e named =
      set_checked-Kept c cs wanted v (cast type_unsigned16 v) list k named
        (ap (λ t. cast t v) (sym e))
  set_value-Kept c cs type_integer32 wanted v list k e named =
      set_checked-Kept c cs wanted v (cast type_integer32 v) list k named
        (ap (λ t. cast t v) (sym e))
  set_value-Kept c cs type_integer64 wanted v list k e named =
      set_checked-Kept c cs wanted v (cast type_integer64 v) list k named
        (ap (λ t. cast t v) (sym e))
  set_value-Kept c cs type_float wanted v list k e named =
      set_checked-Kept c cs wanted v (cast type_float v) list k named (ap (λ t. cast t v) (sym e))

  unless_array :
      (c : Control V) (cs : List (Control V)) (wanted : Text) (v : V) (list : ControlList) (k : ℕ)
      (is_array : Bool)
      → text_eq c.name wanted ≡ true
      → Kept
          (c ∷ cs)
          wanted
          v
          list
          (if is_array then (false, list) else set_value c c.control_type v list)
          k
  unless_array c cs wanted v list k true named = inl refl
  unless_array c cs wanted v list k false named =
      set_value-Kept c cs c.control_type wanted v list k refl named

  in_tail :
      (c : Control V) (cs : List (Control V)) (wanted : Text) (asked : V) (list : ControlList)
      (result : Bool × ControlList) (k : ℕ)
      → Kept cs wanted asked list result k
      → Kept (c ∷ cs) wanted asked list result k
  in_tail c cs wanted asked list result k (inl same) = inl same
  in_tail c cs wanted asked list result k (inr (ok, (d, (among, rest)))) =
      inr (ok, (d, (inr among, rest)))

  -- Every key of the control list keeps its value, or the call has succeeded and the key is the id
  -- of a control with the wanted name, and has the value that was asked for, as the control's type.
  pub set_control_numeric-Kept :
      (controls : List (Control V)) (wanted : Text) (v : V) (list : ControlList) (k : ℕ)
      → Kept controls wanted v list (set_control_numeric controls wanted v list) k
  unfolding set_control_numeric
  set_control_numeric-Kept [] wanted v list k = inl refl
  set_control_numeric-Kept (c ∷ cs) wanted v list k = elim (Bool-cases (text_eq c.name wanted)) [
    | inr other ↦ rw other (
        in_tail c cs wanted v list (set_control_numeric cs wanted v list) k
          (set_control_numeric-Kept cs wanted v list k))
    | inl named ↦ rw named (unless_array c cs wanted v list k c.is_array named)
  ]
