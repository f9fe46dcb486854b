-- ===== src/Camera/Program/Routes.antt =====
-- What extras/libcamera/main.cpp answers to a request.
use mandeye_controller.Prelude.{
  ◌≡◌, refl, sym, ap, ◌∙◌, Bool, true, false, not, ◌&&◌, ◌||◌, Option, none, some, List, [], ◌∷◌,
  inl, inr, Bool-cases, Text, codes, text_eq, text_eq_eq, is_empty, length, if◌then◌else◌, ℕ,
}
use mandeye_controller.Camera.Program.{
  Code, ok, not_found, Method, get, post, options, other_method, set_config, on_request,
}

-- The answers to a request for the metadata before the first photo.
abbrev pub answers : Text → Bool → ℕ
answers resource has_photo = if text_eq resource (codes "/photoMeta") && not has_photo then 2 else 1

-- A POST of JSON when there is no camera manager to stop.
abbrev pub config_crashes : Method → Text → (has_manager parses : Bool) → Bool
config_crashes post body has_manager parses = not (is_empty body || not parses) && not has_manager
config_crashes _ body has_manager parses = false

-- A POST of JSON whose configuration is taken.
abbrev pub IsTaken : Method → Text → (has_manager parses starts : Bool) → Type 0
IsTaken method body has_manager parses starts =
    (method ≡ post)
    × ((is_empty body || not parses ≡ false) × ((has_manager ≡ true) × (starts ≡ true)))

-- What becomes of a request to /setConfig.
abbrev pub ConfigOutcome :
    Method → Text → (has_manager parses starts : Bool) → Option (List Code × Bool) → Type 0
ConfigOutcome method body has_manager parses starts none =
    config_crashes method body has_manager parses ≡ true
ConfigOutcome method body has_manager parses starts (some (sent, restarted)) =
    (config_crashes method body has_manager parses ≡ false)
    × ((length sent ≡ 1) × (restarted ≡ true → IsTaken method body has_manager parses starts))

-- What becomes of a request.
abbrev pub Outcome :
    Text
    → Method
    → Text
    → (has_photo has_manager parses starts : Bool) → Option (List Code × Bool)
    → Type 0
Outcome resource method body has_photo has_manager parses starts none =
    text_eq resource (codes "/setConfig") && config_crashes method body has_manager parses ≡ true
Outcome resource method body has_photo has_manager parses starts (some (sent, restarted)) =
    (text_eq resource (codes "/setConfig") && config_crashes method body has_manager parses ≡ false)
    × ((length sent ≡ answers resource has_photo)
        × (restarted ≡ true
            → (text_eq resource (codes "/setConfig") ≡ true)
              × IsTaken method body has_manager parses starts))

other_than :
    (resource t u : Text)
    → text_eq resource t ≡ true
    → text_eq t u ≡ false
    → text_eq resource u ≡ false
other_than resource t u e differ = ap (λ r. text_eq r u) (text_eq_eq resource t e) ∙ differ

set_config-answers :
    (method : Method) (body : Text) (has_manager parses starts : Bool)
    → ConfigOutcome method body has_manager parses starts
        (set_config method body has_manager parses starts)
unfolding set_config
set_config-answers get body has_manager parses starts = (refl, (refl, λ e. absurd cc))
set_config-answers options body has_manager parses starts = (refl, (refl, λ e. absurd cc))
set_config-answers other_method body has_manager parses starts = (refl, (refl, λ e. absurd cc))
set_config-answers post body false parses starts = elim (Bool-cases (is_empty body || not parses)) [
  | inl refused ↦ rw refused (ap (λ b. not b && true) refused, (refl, λ e. absurd cc))
  | inr json ↦ rw json (ap (λ b. not b && true) json)
]
set_config-answers post body true parses false = elim (Bool-cases (is_empty body || not parses)) [
  | inl refused ↦ rw refused (ap (λ b. not b && false) refused, (refl, λ e. absurd cc))
  | inr json ↦ rw json (ap (λ b. not b && false) json, (refl, λ e. absurd cc))
]
set_config-answers post body true parses true = elim (Bool-cases (is_empty body || not parses)) [
  | inl refused ↦ rw refused (ap (λ b. not b && false) refused, (refl, λ e. absurd cc))
  | inr json ↦ rw json (ap (λ b. not b && false) json, (refl, λ e. (refl, (json, (refl, refl)))))
]

module _ (resource : Text) (method : Method) (body : Text)
    (has_photo has_manager parses starts : Bool) where
  from_config :
      (result : Option (List Code × Bool))
      → text_eq resource (codes "/setConfig") ≡ true
      → text_eq resource (codes "/photoMeta") ≡ false
      → ConfigOutcome method body has_manager parses starts result
      → Outcome resource method body has_photo has_manager parses starts result
  from_config none is_set other crash =
      ap (λ b. b && config_crashes method body has_manager parses) is_set ∙ crash
  from_config (some (sent, restarted)) is_set other (fine, (once, taken)) = (
    ap (λ b. b && config_crashes method body has_manager parses) is_set ∙ fine,
    (once ∙ sym (ap (λ b. if b && not has_photo then 2 else 1) other), λ e. (is_set, taken e)),
  )

  from_other :
      (sent : List Code)
      → text_eq resource (codes "/setConfig") ≡ false
      → length sent ≡ answers resource has_photo
      → Outcome resource method body has_photo has_manager parses starts (some (sent, false))
  from_other sent other once =
      (ap (λ b. b && config_crashes method body has_manager parses) other, (once, λ e. absurd cc))

  answers_once : text_eq resource (codes "/photoMeta") ≡ false → 1 ≡ answers resource has_photo
  answers_once other = sym (ap (λ b. if b && not has_photo then 2 else 1) other)

from_meta :
    (resource : Text) (method : Method) (body : Text) (has_photo has_manager parses starts : Bool)
    → text_eq resource (codes "/photoMeta") ≡ true
    → text_eq resource (codes "/setConfig") ≡ false
    → Outcome resource method body has_photo has_manager parses starts
        (if has_photo then some (ok ∷ [], false) else some (not_found ∷ ok ∷ [], false))
from_meta resource method body true has_manager parses starts this other =
    from_other resource method body true has_manager parses starts (ok ∷ []) other
      (sym (ap (λ b. if b && not true then 2 else 1) this))
from_meta resource method body false has_manager parses starts this other =
    from_other resource method body false has_manager parses starts (not_found ∷ ok ∷ []) other
      (sym (ap (λ b. if b && not false then 2 else 1) this))

-- The program crashes for a POST of JSON to /setConfig when there is no camera manager, and for
-- nothing else. Any other request is answered once, but twice when the metadata is asked for before
-- the first photo; and the camera is started again only by a POST to /setConfig of JSON whose
-- configuration is taken without an exception.
pub on_request-answers :
    (resource : Text) (method : Method) (body : Text) (has_photo has_manager parses starts : Bool)
    → Outcome resource method body has_photo has_manager parses starts
        (on_request resource method body has_photo has_manager parses starts)
unfolding on_request text_eq
on_request-answers resource method body has_photo has_manager parses starts =
    let plain = from_other resource method body has_photo has_manager parses starts in
    let once = answers_once resource method body has_photo has_manager parses starts in
    elim (Bool-cases (text_eq resource (codes "/photo"))) [
      | inl this ↦
          let no_meta = other_than resource (codes "/photo") (codes "/photoMeta") this refl in
          let no_set = other_than resource (codes "/photo") (codes "/setConfig") this refl in
          rw this (plain ((if has_photo then ok else not_found) ∷ []) no_set (once no_meta))
      | inr e1 ↦ elim (Bool-cases (text_eq resource (codes "/photoMeta"))) [
        | inl this ↦
            let no_set = other_than resource (codes "/photoMeta") (codes "/setConfig") this refl in
            rw (e1, this)
              (from_meta resource method body has_photo has_manager parses starts this no_set)
        | inr e2 ↦ elim (Bool-cases (text_eq resource (codes "/photoFull"))) [
          | inl this ↦
              let no_set =
                other_than resource (codes "/photoFull") (codes "/setConfig") this refl in
              rw (e1, e2, this)
                (plain ((if has_photo then ok else not_found) ∷ []) no_set (once e2))
          | inr e3 ↦ elim (Bool-cases (text_eq resource (codes "/getConfig"))) [
            | inl this ↦
                let no_set =
                  other_than resource (codes "/getConfig") (codes "/setConfig") this refl in
                rw (e1, e2, e3, this) (plain (ok ∷ []) no_set (once e2))
            | inr e4 ↦ elim (Bool-cases (text_eq resource (codes "/setConfig"))) [
              | inr e5 ↦ rw (e1, e2, e3, e4, e5) (plain (ok ∷ []) e5 (once e2))
              | inl this ↦
                  rw (e1, e2, e3, e4, this)
                    (from_config resource method body has_photo has_manager parses starts _ this e2
                      (set_config-answers method body has_manager parses starts))
            ]
          ]
        ]
      ]
    ]
