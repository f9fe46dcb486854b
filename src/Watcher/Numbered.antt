-- ===== src/Watcher/Numbered.antt =====
-- Every round of stateWatcher and the numbers of the chunks that it saves.
use mandeye_controller.Prelude.{
  ℕ, zero, suc, ◌+◌, ◌-◌, ◌*◌, refl, true, false, not, ◌&&◌, is_some, leb, ltb,
}
use mandeye_controller.States.{
  States, state_eq, name_at, states_to_string, idle, starting_scan, lidar_error, usb_io_error,
  wait_for_resources, scanning, stopping_stage_1, stopping_stage_2, stopping, starting_stop_scan,
  stop_scan_in_initial_progress, stop_scan_in_progress, stoping_stop_scan, stopped,
}
use mandeye_controller.Hardware.{led_gpio_copy_data, led_gpio_continous_scanning}
use mandeye_controller.Livox.{Doubles}
use mandeye_controller.Gnss.{Minmea}
use mandeye_controller.App.{World, ms}
use mandeye_controller.Watcher.{report_state, note_state, dispatch, iterate, iterations}
use mandeye_controller.Watcher.Steps.{Outcome, done, crashed, aborted}
use mandeye_controller.Watcher.Saving.{next_chunk}
use mandeye_controller.Watcher.Scanning.{
  blink_old, save_or_fail, new_chunk, chunk_if_old, toggle_1, stage_1, toggle_2, stage_2,
  on_scanning,
}
use mandeye_controller.Watcher.Stopping.{
  blinks, save_last, on_stopping, save_stop_scan, on_stoping_stop_scan,
}
use mandeye_controller.Watcher.Rules.{Post}
use mandeye_controller.Watcher.Safe.{between_rounds}
use mandeye_controller.Watcher.Keeps.{Safe}
use mandeye_controller.Watcher.Rounds.{iterations-Safe}
use mandeye_controller.Watcher.Changes.{Ends, Does, does, ends, Ends-through, does_if, does_look}
use mandeye_controller.Watcher.Chunks.{Adds, Adds-refl}
use mandeye_controller.Watcher.Adding.{
  seq, bind, when_now, plain, enter, got, led, wait, clock, stop_lidar, stop_gnss, lidar_data,
  gnss_data, raw_data,
}
use mandeye_controller.Watcher.Counting.{
  or_fail, save_chunk-Counts, last_chunk-Counts, stop_scan-Counts,
}
use mandeye_controller.Watcher.Resting.{
  on_lidar_error-Adds, on_usb_io_error-Adds, on_idle-Adds, on_wait_for_resources-Adds,
  on_starting_stop_scan-Adds, on_initial_progress-Adds, on_progress-Adds, on_starting_scan-Adds,
}

module _ {G : Type 0} ⦃fl : Doubles⦄ ⦃mm : Minmea G⦄ where
  new_chunk-Adds : Does {G = G} Adds new_chunk
  unfolding new_chunk save_or_fail
  new_chunk-Adds = seq (led led_gpio_copy_data true) (
      bind clock λ start. seq (plain (λ w. record w { chunk_start = start }) λ w. (refl, refl)) (
        bind lidar_data λ lidar. bind gnss_data λ gnss. bind raw_data λ raw. does (λ w.
          or_fail (next_chunk w) w.continous_scan_directory
            (save_chunk-Counts (next_chunk w) lidar gnss raw w.continous_scan_directory) w refl)))

  blink_old-Adds : (at seconds millis : ℕ) → Does {G = G} Adds (blink_old at seconds millis)
  unfolding blink_old
  blink_old-Adds at seconds millis =
      when_now (λ w. ltb (ms (seconds * 1000)) (at - w.chunk_start))
        (seq (led led_gpio_continous_scanning false)
          (seq (wait millis) (seq (led led_gpio_continous_scanning true) (wait millis))))

  toggle_1-Adds : Does {G = G} Adds toggle_1
  unfolding toggle_1
  toggle_1-Adds = bind (got (λ w. w.led_1)) λ on. seq (led led_gpio_continous_scanning on) (
      seq (plain (λ w. record w { led_1 = not on }) λ w. (refl, refl)) (
        bind clock
          λ at. plain (λ w. record w { stage_1_led_deadline = at + ms 500 }) λ w. (refl, refl)))

  toggle_2-Adds : Does {G = G} Adds toggle_2
  unfolding toggle_2
  toggle_2-Adds = bind (got (λ w. w.led_2)) λ on. seq (led led_gpio_continous_scanning on) (
      seq (plain (λ w. record w { led_2 = not on }) λ w. (refl, refl)) (
        bind clock
          λ at. plain (λ w. record w { stage_2_led_deadline = at + ms 250 }) λ w. (refl, refl)))

  stage_1-Adds : Does {G = G} Adds stage_1
  unfolding stage_1
  stage_1-Adds = bind clock λ at.
      seq (when_now (λ w. ltb w.stage_1_led_deadline at) toggle_1-Adds)
        (when_now (λ w. ltb w.stage_1_deadline at) (enter scanning))

  stage_2-Adds : Does {G = G} Adds stage_2
  unfolding stage_2
  stage_2-Adds = bind clock λ at.
      seq (when_now (λ w. ltb w.stage_2_led_deadline at) toggle_2-Adds)
        (when_now (λ w. ltb w.stage_2_deadline at) (enter scanning))

  chunk_if_old-Adds : (at : ℕ) → Does {G = G} Adds (chunk_if_old at)
  unfolding chunk_if_old
  chunk_if_old-Adds at =
      when_now (λ w. ltb (ms 10000) (at - w.chunk_start) && state_eq w.app_state scanning)
        new_chunk-Adds

  on_scanning-Adds : Does {G = G} Adds on_scanning
  unfolding on_scanning
  on_scanning-Adds =
      seq
        (when_now (λ w. is_some w.gpio)
          (when_now (λ w. state_eq w.app_state scanning) (led led_gpio_continous_scanning true)))
        (bind clock λ at. seq (blink_old-Adds at 60 1000) (
          seq (blink_old-Adds at 600 100) (
            seq (chunk_if_old-Adds at) (
              seq (when_now (λ w. state_eq w.app_state stopping_stage_1) stage_1-Adds) (
                seq (when_now (λ w. state_eq w.app_state stopping_stage_2) stage_2-Adds)
                  (wait 20))))))

  blinks-Adds : (n : ℕ) → Does {G = G} Adds (blinks n)
  unfolding blinks
  blinks-Adds zero = does Adds-refl
  blinks-Adds (suc n) =
      seq (led led_gpio_continous_scanning true) (
        seq (wait 50) (seq (led led_gpio_continous_scanning false) (seq (wait 50) (blinks-Adds n))))

  on_stopping-Adds : Does {G = G} Adds on_stopping
  unfolding on_stopping save_last
  on_stopping-Adds = seq (led led_gpio_continous_scanning true) (
      seq (led led_gpio_copy_data true) (
        bind lidar_data λ lidar. seq stop_lidar (
          bind gnss_data λ gnss. seq stop_gnss (
            seq (blinks-Adds 20) (
              seq (led led_gpio_continous_scanning true) (
                seq (led led_gpio_copy_data true) (
                  does (λ w.
                    or_fail (next_chunk w) w.continous_scan_directory
                      (last_chunk-Counts (next_chunk w) lidar gnss w.continous_scan_directory) w
                      refl))))))))

  on_stoping_stop_scan-Adds : Does {G = G} Adds on_stoping_stop_scan
  unfolding on_stoping_stop_scan save_stop_scan
  on_stoping_stop_scan-Adds = seq (when_now (λ w. is_some w.gpio) (led led_gpio_copy_data true)) (
      bind lidar_data λ lidar. seq stop_lidar (
        bind gnss_data λ gnss. seq stop_gnss (
          does (λ w.
            or_fail (next_chunk w) w.stop_scan_directory
              (stop_scan-Counts (next_chunk w) lidar gnss w.stop_scan_directory) w refl))))

  dispatch-Adds : (s : States) → Does {G = G} Adds (dispatch s)
  unfolding dispatch
  dispatch-Adds lidar_error = does (λ w. ends on_lidar_error-Adds w)
  dispatch-Adds usb_io_error = does (λ w. ends on_usb_io_error-Adds w)
  dispatch-Adds wait_for_resources = does (λ w. ends on_wait_for_resources-Adds w)
  dispatch-Adds idle = does (λ w. ends on_idle-Adds w)
  dispatch-Adds starting_scan = does (λ w. ends on_starting_scan-Adds w)
  dispatch-Adds scanning = does (λ w. ends on_scanning-Adds w)
  dispatch-Adds stopping_stage_1 = does (λ w. ends on_scanning-Adds w)
  dispatch-Adds stopping_stage_2 = does (λ w. ends on_scanning-Adds w)
  dispatch-Adds stopping = does (λ w. ends on_stopping-Adds w)
  dispatch-Adds starting_stop_scan = does (λ w. ends on_starting_stop_scan-Adds w)
  dispatch-Adds stop_scan_in_initial_progress = does (λ w. ends on_initial_progress-Adds w)
  dispatch-Adds stop_scan_in_progress = does (λ w. ends on_progress-Adds w)
  dispatch-Adds stoping_stop_scan = does (λ w. ends on_stoping_stop_scan-Adds w)
  dispatch-Adds stopped = does (λ w. Adds-refl w)

  note_state-Adds : Does {G = G} Adds note_state
  unfolding note_state
  note_state-Adds =
      does (λ w. Ends-through (Adds w) (name_at states_to_string w.app_state) _ λ name. Adds-refl w)

  report_state-Adds : Does {G = G} Adds report_state
  unfolding report_state
  report_state-Adds =
      does_if (λ w. w.board.aborts_on_usb_error && state_eq w.app_state usb_io_error)
        (does_if (λ w. leb 2 w.usb_error_reports) (does (λ w. tt)) (does (λ w. Adds-refl w)))
        (does Adds-refl)

  iterations-Does : (n : ℕ) → Does {G = G} Adds (iterations n)
  unfolding iterations iterate
  iterations-Does zero = does Adds-refl
  iterations-Does (suc n) =
      seq
        (seq note_state-Adds (
          seq report_state-Adds
            (does_look (λ w. dispatch w.app_state) λ w. dispatch-Adds w.app_state)))
        (iterations-Does n)

  both :
      (w : World G) (o : Outcome G (Unit {0}))
      → Post (λ (_ : Unit {0}) v. Safe between_rounds v) o
      → Ends (Adds w) o
      → Post (λ (_ : Unit {0}) v. Adds w v) o
  both w (done a v) p h = h
  both w crashed p h = p
  both w (aborted v) p h = p

  -- With what the loop relies on, every number of rounds, whatever the other threads do, ends with
  -- the old files still there and new ones behind them, whose chunk numbers go from the next
  -- number before the rounds up to, and without, the next number after them: so no round
  -- uses a number of a round before. The program may only be aborted, by a board that does
  -- so, in USB_IO_ERROR.
  pub iterations-Adds :
      (n : ℕ) (w : World G)
      → Safe between_rounds w
      → Post (λ (_ : Unit {0}) v. Adds w v) (iterations n w)
  iterations-Adds n w safe =
      both w (iterations n w) (iterations-Safe n w safe) (ends (iterations-Does n) w)
