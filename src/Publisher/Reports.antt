-- ===== src/Publisher/Reports.antt =====
-- When code/publisher.cpp sends its longer report.
use mandeye_controller.Prelude.{
  ℕ, ◌≡◌, refl, sym, ap, ◌∙◌, Option, none, some, List, [], ◌∷◌, arith, ◌==◌, if◌then◌else◌, inl,
  inr, Bool-cases,
}
use mandeye_controller.App.{Publisher}
use mandeye_controller.Publisher.{
  Clock, Provider, get_time_stamp, get_session_duration, Report, workers,
}

module _ ⦃cl : Clock⦄ where
  open cl use {D, floor, nanos}

  -- A report for a round whose predecessor fell into the second `before`: the longer one in the
  -- first round of a second.
  abbrev report_in : (before : ℕ) → Option Provider → Publisher → Report
  report_in before provider publisher = record {
    time = nanos (get_time_stamp provider);
    dur = nanos (get_session_duration provider);
    details = if floor (get_time_stamp provider) == before then none else some publisher;
  }

  unfoldable pub reports : (before : ℕ) → List (Option Provider × Publisher) → List Report
  reports before [] = []
  reports before ((provider, publisher) ∷ rounds) =
      report_in before provider publisher ∷ reports (floor (get_time_stamp provider)) rounds

  -- The worker compares with the time of its last longer report: that is the same as comparing each
  -- round with the one before it. So the longer report is sent in the first round of each second
  -- that differs from the round before, with the mode and the directories of that moment, and in no
  -- other round.
  pub workers-reports :
      (rounds : List (Option Provider × Publisher)) (last_time : D)
      → workers rounds last_time ≡ reports (floor last_time) rounds
  unfolding workers reports
  workers-reports [] last_time = refl
  workers-reports ((provider, publisher) ∷ rounds) last_time =
      elim (Bool-cases (floor (get_time_stamp provider) == floor last_time)) [
        | inl same ↦
            let second : floor (get_time_stamp provider) ≡ floor last_time = ground (arith, same) in
            let short : Report = record {
              time = nanos (get_time_stamp provider);
              dur = nanos (get_session_duration provider);
              details = none;
            } in
            rw same (
              ap (◌∷◌ short)
                (workers-reports rounds last_time ∙ ap (λ b. reports b rounds) (sym second)))
        | inr new ↦
            let long : Report = record {
              time = nanos (get_time_stamp provider);
              dur = nanos (get_session_duration provider);
              details = some publisher;
            } in
            rw new (ap (◌∷◌ long) (workers-reports rounds (get_time_stamp provider)))
      ]
