-- ===== src/Watcher.antt =====
-- code/main.cpp: the loop of stateWatcher.
pub mod Steps
pub mod Saving
pub mod Scan
pub mod Scanning
pub mod Stopping
pub mod Rules
pub mod Safe
pub mod Keeps
pub mod Primitives
pub mod Saves
pub mod Logged
pub mod Saved
pub mod Branches
pub mod Rounds
pub mod Files
pub mod Errors
pub mod Changes
pub mod Chunks
pub mod Adding
pub mod Counting
pub mod Resting
pub mod Numbered
pub mod Started
pub mod Timing
pub mod Lasting
use mandeye_controller.Prelude.{ℕ, zero, suc, ◌+◌, ◌&&◌, leb, if◌then◌else◌}
use mandeye_controller.States
use mandeye_controller.States.{
  States, state_eq, states_to_string, name_at, usb_io_error, lidar_error,
}
use mandeye_controller.Livox.{Doubles}
use mandeye_controller.Gnss.{Minmea}
use mandeye_controller.App.{on_some}
use mandeye_controller.Watcher.Steps.{◌>>=◌, ◌>>◌, ◌>>◌, M, done, aborted, through, ◌>>◌, get}
use mandeye_controller.Watcher.Scan.{
  on_lidar_error, on_usb_io_error, on_wait_for_resources, on_idle, on_starting_scan,
}
use mandeye_controller.Watcher.Scanning.{on_scanning}
use mandeye_controller.Watcher.Stopping.{
  on_stopping, on_starting_stop_scan, on_initial_progress, on_progress, on_stoping_stop_scan,
}

-- The static counter of the boards whose ReportState aborts, at its third report.
unfoldable pub report_state : {G : Type 0} → M G (Unit {0})
report_state w =
    if w.board.aborts_on_usb_error && state_eq w.app_state usb_io_error
    then if leb 2 w.usb_error_reports
      then aborted w
      else done tt (record w { usb_error_reports = w.usb_error_reports + 1 })
    else done tt w

-- The publisher's mode and the old state, which the loop sets first.
unfoldable pub note_state : {G : Type 0} → M G (Unit {0})
note_state w = through (name_at states_to_string w.app_state) (λ name. done tt (record w {
  publisher = on_some (λ p. record p { mode = name }) w.publisher;
  old_state = w.app_state;
}))

module _ {G : Type 0} ⦃fl : Doubles⦄ ⦃mm : Minmea G⦄ where
  -- The chain of tests on the state.
  unfoldable pub dispatch : States → M G (Unit {0})
  dispatch States.lidar_error w = on_lidar_error w
  dispatch States.usb_io_error w = on_usb_io_error w
  dispatch States.wait_for_resources w = on_wait_for_resources w
  dispatch States.idle w = on_idle w
  dispatch States.starting_scan w = on_starting_scan w
  dispatch States.scanning w = on_scanning w
  dispatch States.stopping_stage_1 w = on_scanning w
  dispatch States.stopping_stage_2 w = on_scanning w
  dispatch States.stopping w = on_stopping w
  dispatch States.starting_stop_scan w = on_starting_stop_scan w
  dispatch States.stop_scan_in_initial_progress w = on_initial_progress w
  dispatch States.stop_scan_in_progress w = on_progress w
  dispatch States.stoping_stop_scan w = on_stoping_stop_scan w
  dispatch States.stopped w = done tt w

  -- One round of the loop.
  unfoldable pub iterate : M G (Unit {0})
  unfolding dispatch report_state note_state
  iterate = do note_state; report_state; state ← get (λ w. w.app_state); dispatch state

  -- `n` rounds.
  unfoldable pub iterations : ℕ → M G (Unit {0})
  unfolding iterate
  iterations zero w = done tt w
  iterations (suc n) w = let rest : M G (Unit {0}) = iterations n in (iterate >> rest) w
