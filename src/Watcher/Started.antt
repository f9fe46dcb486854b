-- ===== src/Watcher/Started.antt =====
-- The whole program: main's threads start, in any order, and stateWatcher's rounds follow.
use mandeye_controller.Prelude.{
  ℕ, arith, ◌≡◌, refl, sym, ap, ◌∙◌, Bool, true, false, Option, none, some, List, [], ◌∷◌, Text,
  All, All-append, Among, inl, inr, is_some, Bool-cases, Option-cases, is_empty, if◌then◌else◌,
  ◌&&◌,
}
use mathlib.Core.Path.{subst}
use mandeye_controller.Prelude.Merge.{Merge, Merge-All, Among-left, Among-right}
use mandeye_controller.Hardware.{Board, button_stop_scan, button_continous_scanning}
use mandeye_controller.Livox
use mandeye_controller.Livox.{Doubles}
use mandeye_controller.Livox.Listener.{Call, start_listener}
use mandeye_controller.Gnss.{Minmea}
use mandeye_controller.Gpio
use mandeye_controller.Gpio.{gpio_client}
use mandeye_controller.FileSystem.Sessions.{Session}
use mandeye_controller.App.{
  World, Event, apply, apply_all, press, request_start, request_stop, request_stop_scan, livox_made,
  gnss_made, gpio_made, publisher_made, lidar_failed, led_set, callback_added,
}
use mandeye_controller.App.Startup.{
  boot, first_state, livox_client, gnss_client, after_listener, livox_thread, gpio_thread,
}
use mandeye_controller.App.Triggers.{listens, apply_all-quiet}
use mandeye_controller.Watcher.{iterations}
use mandeye_controller.Watcher.Rules.{Post}
use mandeye_controller.Watcher.Safe.{
  HasLeds, IsReady, needs_log, Demand, between_rounds, gpio_client-HasLeds,
}
use mandeye_controller.Watcher.Keeps.{
  Safe, same_stop_scan, same_start, same_stop, same_continous, apply_all-IsReady, apply_all-present,
}
use mandeye_controller.Watcher.Rounds.{iterations-Safe}

livox_made-some :
    (c : Livox.Client) (l : Option Livox.Client)
    → is_some (elim l [ none ↦ some c | some d ↦ some d ]) ≡ true
livox_made-some c none = refl
livox_made-some c (some d) = refl

-- Before the threads, the state listens to no trigger and needs no buffers.
boot-quiet : (s : Session) → (listens (first_state s) ≡ false) × (needs_log (first_state s) ≡ false)
unfolding listens needs_log
boot-quiet s =
    elim (Bool-cases (is_some s.stop_scan_directory && is_some s.continous_scan_directory)) [
      | inl both ↦ rw both (refl, refl)
      | inr missing ↦ rw missing (refl, refl)
    ]

-- No GPIO client, or one with the LEDs, on a board that does not wait for a synchronised lidar.
abbrev NoneOrLeds : Option Gpio.Client → Type 0
NoneOrLeds none = Unit
NoneOrLeds (some c) = HasLeds (some c)

NoneOrLeds-leds : (g : Option Gpio.Client) → HasLeds g → NoneOrLeds g
unfolding HasLeds
NoneOrLeds-leds none h = tt
NoneOrLeds-leds (some c) h = h

NoneOrLeds-made :
    (c : Gpio.Client) (g : Option Gpio.Client)
    → HasLeds (some c)
    → NoneOrLeds g
    → HasLeds (elim g [ none ↦ some c | some d ↦ some d ])
NoneOrLeds-made c none h n = h
NoneOrLeds-made c (some d) h n = n

module _ {G : Type 0} where
  -- A GPIO client that is made has the LEDs.
  abbrev pub Proper : Event G → Type 0
  Proper (gpio_made c) = HasLeds (some c)
  Proper (press b) = Unit
  Proper _ = Unit

  Proper-if : (b : Bool) (e : Event G) → Proper e → All Proper (if b then [] else e ∷ [])
  Proper-if true e p = tt
  Proper-if false e p = (p, tt)

after_listener-Proper :
    (G : Type 0) (b : Board) (o : Option ((Bool × Livox.Client) × List Call))
    → All (Proper {G = G}) (after_listener b o)
after_listener-Proper G b none = tt
after_listener-Proper G b (some ((ok, c), calls)) = (
  tt,
  All-append Proper (if ok then [] else lidar_failed ∷ []) _ (Proper-if ok lidar_failed tt) (
      All-append Proper (if is_empty b.gnss_port then [] else gnss_made gnss_client ∷ [])
        (publisher_made ∷ []) (Proper-if (is_empty b.gnss_port) (gnss_made gnss_client) tt)
        (tt, tt)),
)

livox_thread-Proper :
    (G : Type 0) (accepts : Text → Bool) (ip : Text) (b : Board)
    → All (Proper {G = G}) (livox_thread accepts ip b)
unfolding livox_thread
livox_thread-Proper G accepts ip b =
    (tt, after_listener-Proper G b (start_listener accepts ip livox_client))

gpio_thread-Proper :
    (G : Type 0) (b : Board) (sim chip : Bool) (has_line : ℕ → Bool)
    → All (Proper {G = G}) (gpio_thread b sim chip has_line)
unfolding gpio_thread
gpio_thread-Proper G b sim chip has_line = (gpio_client-HasLeds b sim chip has_line, omega arith)

module _ {G : Type 0} ⦃fl : Doubles⦄ ⦃mm : Minmea G⦄ where
  -- Without a GPIO client, no event but the making of one makes one.
  apply-without_gpio :
      (e : Event G) (w : World G) → Proper e → w.gpio ≡ none → NoneOrLeds (apply e w).gpio
  unfolding apply
  apply-without_gpio (press button_stop_scan) w p h = rw ((same_stop_scan w).1 ∙ h) tt
  apply-without_gpio (press button_continous_scanning) w p h = rw ((same_continous w).1 ∙ h) tt
  apply-without_gpio request_start w p h = rw ((same_start w).1 ∙ h) tt
  apply-without_gpio request_stop w p h = rw ((same_stop w).1 ∙ h) tt
  apply-without_gpio request_stop_scan w p h = rw ((same_stop_scan w).1 ∙ h) tt
  apply-without_gpio (gpio_made c) w p h = rw h p
  apply-without_gpio (led_set l state) w p h = rw h tt
  apply-without_gpio (callback_added b name) w p h = rw h tt
  apply-without_gpio _ w p h = rw h tt

  apply-board : (e : Event G) (w : World G) → (apply e w).board ≡ w.board
  unfolding apply
  apply-board (press button_stop_scan) w = (same_stop_scan w).2
  apply-board (press button_continous_scanning) w = (same_continous w).2
  apply-board request_start w = (same_start w).2
  apply-board request_stop w = (same_stop w).2
  apply-board request_stop_scan w = (same_stop_scan w).2
  apply-board (led_set l state) w = refl
  apply-board _ w = refl

  abbrev Booting : World G → Type 0
  Booting w = (w.board.wait_for_lidar_sync ≡ false) × NoneOrLeds w.gpio

  apply-Booting : (e : Event G) (w : World G) → Proper e → Booting w → Booting (apply e w)
  unfolding apply apply_all
  apply-Booting e w p (quick, leds) =
      let quick_after = ap (λ b. b.wait_for_lidar_sync) (apply-board e w) ∙ quick in
      elim (Option-cases w.gpio) [
        | inl without ↦ (quick_after, apply-without_gpio e w p without)
        | inr (c, there) ↦
            let ready : IsReady w.board w.gpio =
              (quick, subst HasLeds (sym there) (subst NoneOrLeds there leds)) in
            (quick_after, NoneOrLeds-leds (apply e w).gpio (apply_all-IsReady (e ∷ []) w ready).1)
      ]

  apply_all-made :
      (es : List (Event G)) (w : World G) (c : Gpio.Client)
      → All Proper es
      → Booting w
      → Among (gpio_made c) es
      → IsReady (apply_all es w).board (apply_all es w).gpio
  unfolding apply_all apply
  apply_all-made [] w c p h among = absurd among
  apply_all-made (e ∷ es) w c p (quick, leds) (inl same) =
      let has : HasLeds (some c) = subst Proper same p.0 in
      apply_all-IsReady es (apply e w) (
        subst (λ f. IsReady (apply f w).board (apply f w).gpio) (sym same)
          (quick, NoneOrLeds-made c w.gpio has leds))
  apply_all-made (e ∷ es) w c p h (inr among) =
      apply_all-made es (apply e w) c p.1 (apply-Booting e w p.0 h) among

  apply_all-livox :
      (es : List (Event G)) (w : World G) (c : Livox.Client)
      → Among (livox_made c) es
      → is_some (apply_all es w).livox ≡ true
  unfolding apply_all apply
  apply_all-livox [] w c among = absurd among
  apply_all-livox (e ∷ es) w c (inl same) =
      apply_all-present es (apply e w)
        (subst (λ f. is_some (apply f w).livox ≡ true) (sym same) (livox_made-some c w.livox))
  apply_all-livox (e ∷ es) w c (inr among) = apply_all-livox es (apply e w) c among

  module _ (b : Board) (disable : Bool) (s : Session) (clock : ℕ) (schedule : List (List (Event G)))
      (accepts : Text → Bool) (ip : Text) (sim chip : Bool) (has_line : ℕ → Bool)
      {threads others es : List (Event G)}
      (started : Merge (livox_thread accepts ip b) (gpio_thread b sim chip has_line) threads)
      (mixed : Merge threads others es) (quick : b.wait_for_lidar_sync ≡ false)
      (proper : All Proper others) where
    mixed-Proper : All Proper es
    mixed-Proper =
        Merge-All Proper mixed
          (Merge-All Proper started (livox_thread-Proper G accepts ip b)
            (gpio_thread-Proper G b sim chip has_line))
          proper

    started-Safe : Safe between_rounds (apply_all es (boot b disable s clock schedule))
    unfolding Safe Demand boot livox_thread gpio_thread
    started-Safe =
        let w : World G = boot b disable s clock schedule in
        let (deaf, rests) = boot-quiet s in
        (
          apply_all-made es w (gpio_client b sim chip has_line) mixed-Proper (quick, tt)
              (Among-left _ mixed (Among-right _ started (inl refl))),
          (
            apply_all-livox es w livox_client
                (Among-left _ mixed (Among-left _ started (inl refl))),
            λ need. let same = ap needs_log (apply_all-quiet es w deaf) ∙ rests in cc,
          ),
        )

    -- On a board that does not wait for a synchronised lidar: when main's threads for the lidar and
    -- the GPIO have done their work, in any order of their steps and mixed with whatever else
    -- happens, no number of rounds of stateWatcher dereferences a null pointer or fails an
    -- assertion. This holds whatever directories were opened, whatever the SDK and gpiod answer, and
    -- whatever happens later at every wait, as long as no other GPIO client without the LEDs is made.
    pub program-Safe :
        (n : ℕ)
        → Post
            (λ (_ : Unit {0}) v. Safe between_rounds v)
            (iterations n (apply_all es (boot b disable s clock schedule)))
    program-Safe n = iterations-Safe n (apply_all es (boot b disable s clock schedule)) started-Safe
