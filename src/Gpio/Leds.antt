-- ===== src/Gpio/Leds.antt =====
-- LEDs and the buzzer.
use mandeye_controller.Prelude.{
  ℕ, ◌≡◌, ◌≢◌, refl, ap, ◌∙◌, Bool, false, not, some, List, [], ◌∷◌, arith, ◌==◌, if◌then◌else◌,
}
use mandeye_controller.Prelude.Assoc.{lookup, lookup-insert}
use mandeye_controller.Hardware.{Led, led_id, buzzer}
use mandeye_controller.Gpio.{Client, LedData, led_or_new, set_led, set_led_data, beep, beep_loop}

led_id-injective : (a b : Led) → led_id a ≡ led_id b → a ≡ b
led_id-injective a b h = ground arith

lookup-set_led_data :
    (led other : Led) (state : Bool) (c : Client)
    → lookup (led_id other) (set_led_data led state c).led_gpio ≡ (
        if led_id led == led_id other
        then some (record (led_or_new (lookup (led_id led) c.led_gpio)) { state = state })
        else lookup (led_id other) c.led_gpio)
unfolding set_led_data
lookup-set_led_data led other state c = lookup-insert (led_id led) (led_id other) _ c.led_gpio

-- Where setLed passes its assertion, an LED that is in the map gets the new state and keeps its
-- name and its line, and no other LED changes.
pub lookup-set_led :
    (led other : Led) (state : Bool) (c d : Client)
    → set_led led state c ≡ some d
    → ((x : LedData)
        → lookup (led_id led) c.led_gpio ≡ some x
        → lookup (led_id led) d.led_gpio ≡ some (record x { state = state }))
      × (other ≢ led → lookup (led_id other) d.led_gpio ≡ lookup (led_id other) c.led_gpio)
unfolding set_led
lookup-set_led led other state c d e = (
  λ x h. rw (← done) (ground (arith, h, lookup-set_led_data led led state c)),
  λ ne.
      rw (← done)
        (ground (arith, ne, led_id-injective other led, lookup-set_led_data led other state c)),
)
  where
    done : set_led_data led state c ≡ d
    done = ground arith

abbrev off_led : LedData → LedData
off_led x = record x { state = false }

beep_loop_keeps :
    (durations : List ℕ) (on : Bool) (c : Client) (other : Led)
    → other ≢ buzzer
    → (off_led (led_or_new (lookup 3 (beep_loop durations on c).led_gpio))
        ≡ off_led (led_or_new (lookup 3 c.led_gpio)))
      × (lookup (led_id other) (beep_loop durations on c).led_gpio
          ≡ lookup (led_id other) c.led_gpio)
unfolding beep_loop
beep_loop_keeps [] on c other ne = (refl, refl)
beep_loop_keeps (d ∷ ds) on c other ne =
    let (off, same) = beep_loop_keeps ds (not on) (set_led_data buzzer (not on) c) other ne in
    (
      off ∙ ap (λ o. off_led (led_or_new o)) (lookup-set_led_data buzzer buzzer (not on) c),
      same
          ∙ ground (
            arith,
            ne,
            led_id-injective other buzzer,
            lookup-set_led_data buzzer other (not on) c,
          ),
    )

beep_real :
    (durations : List ℕ) (c : Client)
    → c.use_simulated_gpio ≡ false
    → beep durations c ≡ set_led_data buzzer false (beep_loop durations false c)
unfolding beep
beep_real durations c h = simp h

-- After a beep on the real hardware the buzzer is off, whatever the durations; every other LED is
-- as it was.
pub beep_ends_off :
    (durations : List ℕ) (c : Client) (other : Led)
    → c.use_simulated_gpio ≡ false
    → other ≢ buzzer
    → (lookup 3 (beep durations c).led_gpio
        ≡ some (record (led_or_new (lookup 3 c.led_gpio)) { state = false }))
      × (lookup (led_id other) (beep durations c).led_gpio ≡ lookup (led_id other) c.led_gpio)
beep_ends_off durations c other h ne =
    let (off, same) = beep_loop_keeps durations false c other ne in
    rw (beep_real durations c h) (
      lookup-set_led_data buzzer buzzer false (beep_loop durations false c) ∙ ap some off,
      ground (
        arith,
        ne,
        led_id-injective other buzzer,
        lookup-set_led_data buzzer other false (beep_loop durations false c),
      )
          ∙ same,
    )
