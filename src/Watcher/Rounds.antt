-- ===== src/Watcher/Rounds.antt =====
-- Rounds of stateWatcher, from the branches.
use mandeye_controller.Prelude.{
  ℕ, zero, suc, ◌+◌, ◌≡◌, refl, ap, ◌∙◌, Bool, true, false, ◌&&◌, arith, leb, if◌then◌else◌,
}
use mandeye_controller.States.{
  States, state_eq, wait_for_resources, idle, starting_scan, scanning, stopping, stopping_stage_1,
  stopping_stage_2, stopped, starting_stop_scan, stop_scan_in_progress,
  stop_scan_in_initial_progress, stoping_stop_scan, lidar_error, usb_io_error,
}
use mandeye_controller.Livox.{Doubles}
use mandeye_controller.Gnss.{Minmea}
use mandeye_controller.App.{World}
use mandeye_controller.Watcher.Steps.{M, done}
use mandeye_controller.Watcher.Rules.{Runs, runs, run, Post, seq, weaken, if_Post}
use mandeye_controller.Watcher.Safe.{Demand, logging, between_rounds, needs_log}
use mandeye_controller.Watcher.Keeps.{Safe}
use mandeye_controller.States.{name_at-named}
use mandeye_controller.Watcher.Steps.{aborted}
use mandeye_controller.Watcher.{report_state, note_state, dispatch, iterate, iterations}
use mandeye_controller.Watcher.Logged.{on_scanning-Safe}
use mandeye_controller.Watcher.Saved.{
  on_stopping-Safe, on_stoping_stop_scan-Safe, on_starting_stop_scan-Safe,
}
use mandeye_controller.Watcher.Branches.{
  Safe-end, on_initial_progress-Safe, on_progress-Safe, on_starting_scan-Safe, on_lidar_error-Safe,
  on_usb_io_error-Safe, on_idle-Safe, on_wait_for_resources-Safe,
}

pub both_true : (a b : Bool) → true ≡ (a && b) → (a ≡ true) × (b ≡ true)
both_true a b e = (ground arith, ground arith)

module _ {G : Type 0} ⦃fl : Doubles⦄ ⦃mm : Minmea G⦄ where
  note_state-Safe : Runs {G = G} (Safe between_rounds) note_state (λ _. Safe between_rounds)
  unfolding note_state Safe
  note_state-Safe = runs (λ w p. let (name, e) = name_at-named w.app_state in rw e p)

  report_at :
      (b : Bool) (n : ℕ) (w : World G)
      → b ≡ (w.board.aborts_on_usb_error && state_eq w.app_state usb_io_error)
      → Safe between_rounds w
      → Post
          (λ (_ : Unit {0}) v. Safe between_rounds v)
          (if b
            then if leb 2 n then aborted w else done tt (record w { usb_error_reports = n + 1 })
            else done tt w)
  unfolding Safe
  report_at true n w e p =
      if_Post (λ _. Safe between_rounds) (leb 2 n) (aborted w)
        (done tt (record w { usb_error_reports = n + 1 }))
        (both_true w.board.aborts_on_usb_error (state_eq w.app_state usb_io_error) e) p
  report_at false n w e p = p

  report_state-Safe : Runs {G = G} (Safe between_rounds) report_state (λ _. Safe between_rounds)
  unfolding report_state
  report_state-Safe = runs (λ w p.
      report_at (w.board.aborts_on_usb_error && state_eq w.app_state usb_io_error)
        w.usb_error_reports w refl p)

  logged_at :
      (s : States) (w : World G)
      → w.app_state ≡ s
      → needs_log s ≡ true
      → Safe between_rounds w
      → Safe logging w
  unfolding Safe Demand
  logged_at s w e need p = (p.0, p.1.1 (ap needs_log e ∙ need))

  -- A branch that starts with the lidar logging.
  from_logged :
      {m : M G (Unit {0})} (s : States) (w : World G)
      → w.app_state ≡ s
      → needs_log s ≡ true
      → Runs (Safe logging) m (λ _. Safe between_rounds)
      → Safe between_rounds w
      → Post (λ (_ : Unit {0}) v. Safe between_rounds v) (m w)
  from_logged s w e need h p = run h w (logged_at s w e need p)

  dispatch-Safe :
      (s : States) (w : World G)
      → w.app_state ≡ s
      → Safe between_rounds w
      → Post (λ (_ : Unit {0}) v. Safe between_rounds v) (dispatch s w)
  unfolding dispatch needs_log
  dispatch-Safe lidar_error w e p = run (on_lidar_error-Safe between_rounds) w p
  dispatch-Safe usb_io_error w e p = run (on_usb_io_error-Safe between_rounds) w p
  dispatch-Safe wait_for_resources w e p = run on_wait_for_resources-Safe w p
  dispatch-Safe idle w e p = run on_idle-Safe w p
  dispatch-Safe starting_scan w e p = run on_starting_scan-Safe w p
  dispatch-Safe scanning w e p =
      from_logged scanning w e refl (weaken (λ _ h. h) (λ _. Safe-end) on_scanning-Safe) p
  dispatch-Safe stopping_stage_1 w e p =
      from_logged stopping_stage_1 w e refl (weaken (λ _ h. h) (λ _. Safe-end) on_scanning-Safe) p
  dispatch-Safe stopping_stage_2 w e p =
      from_logged stopping_stage_2 w e refl (weaken (λ _ h. h) (λ _. Safe-end) on_scanning-Safe) p
  dispatch-Safe stopping w e p = from_logged stopping w e refl on_stopping-Safe p
  dispatch-Safe starting_stop_scan w e p = run on_starting_stop_scan-Safe w p
  dispatch-Safe stop_scan_in_initial_progress w e p = run on_initial_progress-Safe w p
  dispatch-Safe stop_scan_in_progress w e p =
      from_logged stop_scan_in_progress w e refl
        (weaken (λ _ h. h) (λ _. Safe-end) on_progress-Safe) p
  dispatch-Safe stoping_stop_scan w e p =
      from_logged stoping_stop_scan w e refl on_stoping_stop_scan-Safe p
  dispatch-Safe stopped w e p = p

  iterate-Safe : Runs {G = G} (Safe between_rounds) iterate (λ _. Safe between_rounds)
  unfolding iterate
  iterate-Safe =
      seq note_state-Safe (seq report_state-Safe (runs (λ w p. dispatch-Safe w.app_state w refl p)))

  iterations-Runs :
      (n : ℕ) → Runs {G = G} (Safe between_rounds) (iterations n) (λ _. Safe between_rounds)
  unfolding iterations
  iterations-Runs zero = runs (λ w p. p)
  iterations-Runs (suc n) = seq iterate-Safe (iterations-Runs n)

  -- On a board that does not wait for a synchronised lidar, with the GPIO client's LEDs and a
  -- lidar client there, and with the lidar's buffers there in the states that need them, no number
  -- of rounds dereferences a null pointer or fails an assertion, and all of this holds again after
  -- them, whatever the other threads do at every wait. The program may only be aborted, by a board
  -- that does so, in USB_IO_ERROR.
  pub iterations-Safe :
      (n : ℕ) (w : World G)
      → Safe between_rounds w
      → Post (λ (_ : Unit {0}) v. Safe between_rounds v) (iterations n w)
  iterations-Safe n = run (iterations-Runs n)
