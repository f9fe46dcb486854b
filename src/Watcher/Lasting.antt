-- ===== src/Watcher/Lasting.antt =====
-- How long a stop scan of stateWatcher lasts.
use mandeye_controller.Prelude.{
  ℕ, zero, suc, ◌+◌, ◌≤◌, ◌<◌, ◌≡◌, refl, sym, ap, ◌∙◌, true, false, ◌&&◌, ◌⊎◌, inl, inr, arith,
  is_some, ltb, leb, Bool-cases,
}
use mathlib.Core.Path.{subst}
use mandeye_controller.States.{
  States, state_eq, usb_io_error, name_at, states_to_string, starting_stop_scan,
  stop_scan_in_initial_progress, stop_scan_in_progress, stoping_stop_scan,
}
use mandeye_controller.Hardware.{led_gpio_stop_scan}
use mandeye_controller.Livox.{Doubles}
use mandeye_controller.Gnss.{Minmea}
use mandeye_controller.App.{World, ms}
use mandeye_controller.App.Triggers.{listens}
use mandeye_controller.Watcher.{report_state, note_state, dispatch, iterate}
use mandeye_controller.Watcher.Steps.{
  M, Outcome, done, crashed, aborted, ◌>>=◌, ◌>>◌, get, modify, become, next_batch, now,
}
use mandeye_controller.Watcher.Saving.{start_lidar_log, start_gnss_log}
use mandeye_controller.Watcher.Stopping.{
  on_starting_stop_scan, start_stop_scan, on_initial_progress, on_progress,
}
use mandeye_controller.Watcher.Changes.{Ends, Does, does, ends, Ends-map, Ends-through, does_if}
use mandeye_controller.Watcher.Timing.{
  Ticks, Steady, Steady-refl, Steady-trans, next_batch-Steady, wait, led, three, seq, when_now,
}

-- In a stop scan whose recording starts at `d` or later: it waits for `d`, or it records.
abbrev pub IsStopScan : {G : Type 0} → ℕ → World G → Type 0
IsStopScan d w =
    (w.stop_scan_initial_deadline ≡ d)
    × ((w.stop_scan_deadline ≡ d + ms 30000)
        × ((w.app_state ≡ stop_scan_in_initial_progress)
            ⊎ ((w.app_state ≡ stop_scan_in_progress) × (d ≤ w.clock))))

-- The scan is to be saved, more than thirty seconds after `d`.
abbrev pub IsOver : {G : Type 0} → ℕ → World G → Type 0
IsOver d w = (w.app_state ≡ stoping_stop_scan) × (d + ms 30000 < w.clock)

module _ {G : Type 0} where
  Ends-after :
      {A B : Type 0} (R : World G → World G → Type 0) (Q : World G → Type 0) (w : World G)
      (o : Outcome G A) (k : A → M G B)
      → Ends (R w) o
      → ((a : A) (v : World G) → R w v → Ends Q (k a v))
      → Ends Q (elim o [ done a v ↦ k a v | crashed ↦ crashed | aborted v ↦ aborted v ])
  Ends-after R Q w (done a v) k r h = h a v r
  Ends-after R Q w crashed k r h = tt
  Ends-after R Q w (aborted v) k r h = tt

  -- After a steady step.
  after :
      {m : M G (Unit {0})} (k : M G (Unit {0})) (Q : World G → Type 0) (w : World G)
      → Does Steady m
      → ((v : World G) → Steady w v → Ends Q (k v))
      → Ends Q ((m >> k) w)
  after {m = m} k Q w steady h = Ends-after Steady Q w (m w) (λ _. k) (ends steady w) (λ _. h)

-- No state of a stop scan listens to a trigger.
is_deaf :
    (listens stop_scan_in_initial_progress ≡ false)
    × (listens stop_scan_in_progress ≡ false)
    × (listens starting_stop_scan ≡ false)
unfolding listens
is_deaf = (refl, refl, refl)

module _ {G : Type 0} ⦃fl : Doubles⦄ ⦃mm : Minmea G⦄ where
  note_state-Steady : Does {G = G} Steady note_state
  unfolding note_state
  note_state-Steady =
      does (λ w.
        Ends-through (Steady w) (name_at states_to_string w.app_state) _ λ name. Steady-refl w)

  report_state-Steady : Does {G = G} Steady report_state
  unfolding report_state
  report_state-Steady =
      does_if (λ w. w.board.aborts_on_usb_error && state_eq w.app_state usb_io_error)
        (does_if (λ w. leb 2 w.usb_error_reports) (does (λ w. tt)) (does (λ w. Steady-refl w)))
        (does Steady-refl)

  abbrev choose : M G (Unit {0})
  choose = get (λ w. w.app_state) >>= λ s. dispatch s

  -- A round in a state that listens to no trigger is the branch of that state.
  iterate_at :
      (Q : World G → Type 0) (s : States) (w : World G)
      → listens s ≡ false
      → w.app_state ≡ s
      → ((v : World G) → Ticks w v → v.app_state ≡ s → Ends Q (dispatch s v))
      → Ends Q (iterate w)
  unfolding iterate
  iterate_at Q s w quiet e h = after (report_state >> choose) Q w note_state-Steady (λ v r.
      after choose Q v report_state-Steady (λ u r'.
        let (ticks, same) = Steady-trans w v u r r' in
        let at : u.app_state ≡ s = same (ap listens e ∙ quiet) ∙ e in
        subst (λ t. Ends Q (dispatch t u)) (sym at) (h u ticks at)))

  -- The recording is started.
  start_stop_scan-IsStopScan :
      (d : ℕ) (w : World G)
      → w.stop_scan_initial_deadline ≡ d
      → w.stop_scan_deadline ≡ d + ms 30000
      → d ≤ w.clock
      → Ends (IsStopScan d) (start_stop_scan w)
  unfolding start_stop_scan start_lidar_log start_gnss_log
  start_stop_scan-IsStopScan d w e e' h =
      after (start_gnss_log >> become stop_scan_in_progress) (IsStopScan d) w
        (when_now (λ v. is_some v.livox)
          (seq (led led_gpio_stop_scan true)
            (does (λ v. Ends-through (Steady v) v.livox _ λ c. Steady-refl v))))
        (λ v ((t, (a, b)), s). (a ∙ e, (b ∙ e', inr (refl, omega arith))))

  -- STARTING_STOP_SCAN.
  on_starting-IsStopScan :
      (w : World G)
      → Ends (λ v. (d : ℕ) × ((w.clock + ms 5000 ≤ d) × IsStopScan d v)) (on_starting_stop_scan w)
  unfolding on_starting_stop_scan now
  on_starting-IsStopScan w =
      let from_now : M G (Unit {0}) = now >>= λ at.
      (modify (λ v. record v {
        stop_scan_initial_deadline = at + ms 5000;
        stop_scan_deadline = at + ms 5000 + ms 30000;
      })
        >> become stop_scan_in_initial_progress) in
      after from_now (λ v. (d : ℕ) × ((w.clock + ms 5000 ≤ d) × IsStopScan d v)) w
        (when_now (λ v. is_some v.gpio) (three false false false))
        (λ v r.
          let ticks = (Steady-trans w v (next_batch v) r (next_batch-Steady v)).0.0 in
          ((next_batch v).clock + ms 5000, (omega arith, (refl, (refl, inl refl)))))

  Goes : ℕ → World G → Type 0
  Goes d v = IsStopScan d v ⊎ IsOver d v

  on_initial-Goes :
      (d : ℕ) (w : World G)
      → w.app_state ≡ stop_scan_in_initial_progress
      → w.stop_scan_initial_deadline ≡ d
      → w.stop_scan_deadline ≡ d + ms 30000
      → Ends (Goes d) (on_initial_progress w)
  unfolding on_initial_progress now Goes
  on_initial-Goes d w e initial deadline =
      let v = next_batch w in
      let ((ticks, (same, same')), state) = next_batch-Steady w in
      let at : v.app_state ≡ stop_scan_in_initial_progress = state (ap listens e ∙ is_deaf.0) ∙ e in
      elim (Bool-cases (ltb v.clock v.stop_scan_initial_deadline)) [
        | inl early ↦ rw early (
            Ends-map (Steady v) (Goes d) _
              (λ u ((t, (a, b)), s). inl (
                a ∙ same ∙ initial,
                (b ∙ same' ∙ deadline, inl (s (ap listens at ∙ is_deaf.0) ∙ at)),
              ))
              (ends
                (seq (led led_gpio_stop_scan false)
                  (seq (wait 100) (seq (led led_gpio_stop_scan true) (wait 100))))
                v))
        | inr due ↦ rw due (
            Ends-map (IsStopScan d) (Goes d) _ (λ u h. inl h)
              (start_stop_scan-IsStopScan d v (same ∙ initial) (same' ∙ deadline)
                (ground (arith, initial, same, due))))
      ]

  on_progress-Goes :
      (d : ℕ) (w : World G)
      → w.app_state ≡ stop_scan_in_progress
      → w.stop_scan_initial_deadline ≡ d
      → w.stop_scan_deadline ≡ d + ms 30000
      → d ≤ w.clock
      → Ends (Goes d) (on_progress w)
  unfolding on_progress now Goes
  on_progress-Goes d w e initial deadline begun =
      let v = next_batch w in
      let ((ticks, (same, same')), state) = next_batch-Steady w in
      let at : v.app_state ≡ stop_scan_in_progress = state (ap listens e ∙ is_deaf.1) ∙ e in
      elim (Bool-cases (ltb v.stop_scan_deadline v.clock)) [
        | inl over ↦ rw over (inr (refl, ground (arith, deadline, same', over)))
        | inr goes_on ↦ rw goes_on (inl (same ∙ initial, (same' ∙ deadline, inr (at, omega arith))))
      ]

  -- A round in a stop scan.
  iterate-Goes : (d : ℕ) (w : World G) → IsStopScan d w → Ends (Goes d) (iterate w)
  unfolding dispatch
  iterate-Goes d w (initial, (deadline, inl waits)) =
      iterate_at (Goes d) stop_scan_in_initial_progress w is_deaf.0 waits
        (λ v (t, (a, b)) e. on_initial-Goes d v e (a ∙ initial) (b ∙ deadline))
  iterate-Goes d w (initial, (deadline, inr (records, begun))) =
      iterate_at (Goes d) stop_scan_in_progress w is_deaf.1 records
        (λ v (t, (a, b)) e. on_progress-Goes d v e (a ∙ initial) (b ∙ deadline) (omega arith))

  -- For up to `n` rounds the scan goes on, or it is over.
  unfoldable pub Lasts : ℕ → ℕ → World G → Type 0
  Lasts d zero w = IsStopScan d w
  Lasts d (suc n) w = IsStopScan d w × Ends (λ v. Lasts d n v ⊎ IsOver d v) (iterate w)

  Goes-next :
      (d n : ℕ)
      → ((v : World G) → IsStopScan d v → Lasts d n v)
      → (v : World G) → Goes d v
      → Lasts d n v ⊎ IsOver d v
  unfolding Goes
  Goes-next d n h v (inl more) = inl (h v more)
  Goes-next d n h v (inr over) = inr over

  IsStopScan-Lasts : (d n : ℕ) (w : World G) → IsStopScan d w → Lasts d n w
  unfolding Lasts
  IsStopScan-Lasts d zero w h = h
  IsStopScan-Lasts d (suc n) w h = (
    h,
    Ends-map (Goes d) (λ v. Lasts d n v ⊎ IsOver d v) (iterate w)
        (Goes-next d n (IsStopScan-Lasts d n)) (iterate-Goes d w h),
  )

  -- A stop scan has a time `d`, at least five seconds after the round in STARTING_STOP_SCAN begins:
  -- for any number of rounds that neither crash nor abort, and whatever the other threads do, the
  -- program waits in STOP_SCAN_IN_INITIAL_PROGRESS, or, from `d` on, records in STOP_SCAN_IN_PROGRESS,
  -- until it goes on to save, which is more than thirty seconds after `d`.
  pub stop_scan-Lasts :
      (n : ℕ) (w : World G)
      → w.app_state ≡ starting_stop_scan
      → Ends (λ v. (d : ℕ) × ((w.clock + ms 5000 ≤ d) × Lasts d n v)) (iterate w)
  unfolding dispatch
  stop_scan-Lasts n w e =
      iterate_at (λ v. (d : ℕ) × ((w.clock + ms 5000 ≤ d) × Lasts d n v)) starting_stop_scan w
        is_deaf.2 e
        (λ v (t, same) at.
          Ends-map (λ u. (d : ℕ) × ((v.clock + ms 5000 ≤ d) × IsStopScan d u)) _
            (on_starting_stop_scan v)
            (λ u (d, (late, h)). (d, (omega arith, IsStopScan-Lasts d n u h)))
            (on_starting-IsStopScan v))
