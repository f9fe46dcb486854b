-- ===== src/App/Triggers.antt =====
-- The triggers of main.cpp: what the buttons and the web page can do to the application's state.
use mandeye_controller.Prelude.{
  ℕ, ◌+◌, ◌≡◌, refl, ◌∙◌, ap, Bool, true, false, List, [], ◌∷◌, arith, ltb, if◌then◌else◌,
}
use mandeye_controller.States.{
  States, idle, scanning, stopping, stopping_stage_1, stopping_stage_2, stopped,
}
use mandeye_controller.Hardware.{Button, button_stop_scan, button_continous_scanning}
use mandeye_controller.Livox.{Doubles}
use mandeye_controller.Gnss.{Minmea}
use mandeye_controller.App.{
  World, Event, apply, apply_all, press, request_start, request_stop, request_stop_scan, livox_made,
  gnss_made, gpio_made, publisher_made, lidar_failed, livox_event, gnss_line, clock_advances,
  laz_saves, disk_opens, led_set, callback_added, livox_started, button_pressed,
  trigger_continous_scanning, trigger_stop_scan, start_scan, stop_scan, ms,
}

-- The states that wait for a click or a request; in the others no trigger acts.
unfoldable pub listens : States → Bool
listens idle = true
listens stopped = true
listens scanning = true
listens stopping_stage_1 = true
listens stopping_stage_2 = true
listens _ = false

module _ {G : Type 0} where
  -- The continuous scanning button, and time that passes.
  pub click : World G → World G
  click w = button_pressed button_continous_scanning w

  pub wait : ℕ → World G → World G
  wait n w = record w { clock = w.clock + n }

  -- On a board that does not stop on one click, three clicks during SCANNING, with time that
  -- passes between them and nothing else, stop the scan if each of the second and the third comes
  -- less than two seconds after the one before. If the second comes later, the state is
  -- STOPPING_STAGE_1 after them; if only the third does, it is STOPPING_STAGE_2.
  pub three_clicks :
      (w : World G) (m n : ℕ)
      → w.app_state ≡ scanning
      → w.board.stop_1_click ≡ false
      → (click (wait n (click (wait m (click w))))).app_state ≡ (
          if ltb m (ms 2000)
          then if ltb n (ms 2000) then stopping else stopping_stage_2
          else stopping_stage_1)
  unfolding click wait trigger_continous_scanning
  three_clicks w m n h one = ground arith

module _ {G : Type 0} where
  press_quiet :
      (b : Button) (w : World G)
      → listens w.app_state ≡ false
      → (button_pressed b w).app_state ≡ w.app_state
  unfolding listens trigger_continous_scanning trigger_stop_scan
  press_quiet button_stop_scan w h = ground arith
  press_quiet button_continous_scanning w h = ground arith

module _ {G : Type 0} ⦃fl : Doubles⦄ ⦃mm : Minmea G⦄ where
  apply-quiet :
      (e : Event G) (w : World G)
      → listens w.app_state ≡ false
      → (apply e w).app_state ≡ w.app_state
  unfolding listens apply start_scan stop_scan trigger_stop_scan
  apply-quiet (press b) w h = press_quiet b w h
  apply-quiet request_start w h = ground arith
  apply-quiet request_stop w h = ground arith
  apply-quiet request_stop_scan w h = ground arith
  apply-quiet (livox_made c) w h = refl
  apply-quiet (gnss_made c) w h = refl
  apply-quiet (gpio_made c) w h = refl
  apply-quiet publisher_made w h = refl
  apply-quiet lidar_failed w h = refl
  apply-quiet (livox_event e) w h = refl
  apply-quiet (gnss_line line millis) w h = refl
  apply-quiet (clock_advances n) w h = refl
  apply-quiet (laz_saves b) w h = refl
  apply-quiet (disk_opens b) w h = refl
  apply-quiet (led_set l state) w h = refl
  apply-quiet (callback_added b name) w h = refl
  apply-quiet (livox_started ok) w h = refl

  -- In a state that listens to no trigger, no events of the other threads change the state.
  pub apply_all-quiet :
      (es : List (Event G)) (w : World G)
      → listens w.app_state ≡ false
      → (apply_all es w).app_state ≡ w.app_state
  unfolding apply_all
  apply_all-quiet [] w h = refl
  apply_all-quiet (e ∷ es) w h =
      let same = apply-quiet e w h in apply_all-quiet es (apply e w) (ap listens same ∙ h) ∙ same
