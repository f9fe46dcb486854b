-- ===== src/App/Web.antt =====
-- The web server of code/main.cpp and its environment variables: what a request answers, and which
-- trigger it calls.
use mandeye_controller.Prelude.{
  ◌≡◌, refl, sym, Bool, false, ◌||◌, Option, none, some, List, [], ◌∷◌, inl, inr, Bool-cases,
  if◌then◌else◌, Text, codes, text_eq, text_eq_eq,
}
use mathlib.Core.Path.{subst}
use mandeye_controller.Livox.{Doubles}
use mandeye_controller.Gnss.{Minmea}
use mandeye_controller.App.{
  World, Event, request_start, request_stop, request_stop_scan, start_scan, stop_scan,
  trigger_stop_scan, apply, apply_all,
}

-- `getenv` gives what the environment has.
unfoldable pub get_env_string : (Text → Option Text) → Text → Text → Text
get_env_string getenv env default = elim (getenv env) [ none ↦ default | some value ↦ value ]

abbrev is_true : Text → Bool
is_true value = text_eq (codes "1") value || text_eq (codes "true") value

unfoldable pub get_env_bool : (Text → Option Text) → Text → Bool → Bool
get_env_bool getenv env default = elim (getenv env) [ none ↦ default | some value ↦ is_true value ]

pub data Page : Type 0 where
  status status_full jquery nothing index : Page

abbrev is_one_of : Text → Text → Text → Bool
is_one_of resource a b = text_eq resource a || text_eq resource b

module _ {G : Type 0} where
  -- What is sent, and the world after the trigger.
  unfoldable pub on_request : Text → World G → Page × World G
  on_request resource w =
      if is_one_of resource (codes "/status") (codes "/json/status")
      then (status, w)
      else (if is_one_of resource (codes "/status_full") (codes "/json/status_full")
          then (status_full, w)
          else (if text_eq resource (codes "/jquery.js")
              then (jquery, w)
              else (if text_eq resource (codes "/trig/start_bag")
                  then (nothing, (start_scan w).1)
                  else (if text_eq resource (codes "/trig/stop_bag")
                      then (nothing, (stop_scan w).1)
                      else (if text_eq resource (codes "/trig/stopscan")
                          then (nothing, (trigger_stop_scan w).1)
                          else (index, w))))))

-- The events that the resources stand for.
abbrev event_of : {G : Type 0} → Text → List (Event G)
event_of resource =
    if text_eq resource (codes "/trig/start_bag")
    then request_start ∷ []
    else (if text_eq resource (codes "/trig/stop_bag")
        then request_stop ∷ []
        else (if text_eq resource (codes "/trig/stopscan") then request_stop_scan ∷ [] else []))

module _ {G : Type 0} ⦃fl : Doubles⦄ ⦃mm : Minmea G⦄ where
  -- What a request does to the world.
  abbrev Acts : World G → Text → Type 0
  Acts w resource = (on_request resource w).1 ≡ apply_all (event_of resource) w

  triggers :
      (w : World G)
      → Acts w (codes "/trig/start_bag")
        × (Acts w (codes "/trig/stop_bag") × Acts w (codes "/trig/stopscan"))
  unfolding on_request apply_all apply text_eq
  triggers w = (refl, (refl, refl))

  other-Acts :
      (w : World G) (resource : Text)
      → text_eq resource (codes "/trig/start_bag") ≡ false
      → text_eq resource (codes "/trig/stop_bag") ≡ false
      → text_eq resource (codes "/trig/stopscan") ≡ false
      → Acts w resource
  unfolding on_request apply_all
  other-Acts w resource e1 e2 e3 =
      elim (Bool-cases (is_one_of resource (codes "/status") (codes "/json/status"))) [
        | inl a ↦ rw (a, e1, e2, e3) refl
        | inr a ↦
            elim (Bool-cases
              (is_one_of resource (codes "/status_full") (codes "/json/status_full"))) [
                | inl b ↦ rw (a, b, e1, e2, e3) refl
                | inr b ↦ elim (Bool-cases (text_eq resource (codes "/jquery.js"))) [
                  | inl c ↦ rw (a, b, c, e1, e2, e3) refl
                  | inr c ↦ rw (a, b, c, e1, e2, e3) refl
                ]
              ]
      ]

  -- A request does to the world what the event of its trigger does, and nothing when its resource
  -- is none of the three triggers.
  pub on_request-Acts : (resource : Text) (w : World G) → Acts w resource
  on_request-Acts resource w = elim (Bool-cases (text_eq resource (codes "/trig/start_bag"))) [
    | inl e ↦ subst (Acts w) (sym (text_eq_eq resource _ e)) (triggers w).0
    | inr e1 ↦ elim (Bool-cases (text_eq resource (codes "/trig/stop_bag"))) [
      | inl e ↦ subst (Acts w) (sym (text_eq_eq resource _ e)) (triggers w).1.0
      | inr e2 ↦ elim (Bool-cases (text_eq resource (codes "/trig/stopscan"))) [
        | inl e ↦ subst (Acts w) (sym (text_eq_eq resource _ e)) (triggers w).1.1
        | inr e3 ↦ other-Acts w resource e1 e2 e3
      ]
    ]
  ]
