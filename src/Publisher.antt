-- ===== src/Publisher.antt =====
-- code/publisher.h, code/publisher.cpp and code/utils: what the scanner tells other programs. The
-- provider's readings are the receiver's default without one; `Clock` has the doubles, times from 0
-- on, that the code uses, and a message is the fields of its JSON.
pub mod Reports
pub mod Relay
use mandeye_controller.Prelude.{
  ℕ, Bool, true, false, Option, none, some, List, [], ◌∷◌, ◌==◌, if◌then◌else◌, Text,
}
use mandeye_controller.App.{Publisher}

-- `floor` is std::floor, and `nanos` is static_cast<uint64_t>(t*1e9).
pub record Clock : Type 1 where
  pub D : Type 0
  pub nought : D
  pub floor : D → ℕ
  pub nanos : D → ℕ

-- The fields of every report, and those of the longer one.
pub record Report : Type 0 where
  pub time : ℕ
  pub dur : ℕ
  pub details : Option Publisher

module _ ⦃cl : Clock⦄ where
  open cl use {D, nought, floor, nanos}

  -- TimeStampProvider: its time stamp, its session's duration and start.
  pub record Provider : Type 0 where
    pub timestamp : D
    pub session_duration : D
    pub session_start : D

  -- The three getters of TimeStampReceiver.
  unfoldable pub get_time_stamp : Option Provider → D
  get_time_stamp none = nought
  get_time_stamp (some p) = p.timestamp

  unfoldable pub get_session_duration : Option Provider → D
  get_session_duration none = nought
  get_session_duration (some p) = p.session_duration

  unfoldable pub get_session_start : Option Provider → D
  get_session_start none = nought
  get_session_start (some p) = p.session_start

  -- One round of `worker`, with m_lastTime.
  unfoldable pub worker : Option Provider → Publisher → D → Report × D
  unfolding get_time_stamp get_session_duration
  worker provider publisher last_time =
      let time = get_time_stamp provider in
      let elapsed = get_session_duration provider in
      if floor time == floor last_time
      then (record { time = nanos time; dur = nanos elapsed; details = none }, last_time)
      else (record { time = nanos time; dur = nanos elapsed; details = some publisher }, time)

  -- The rounds with what each reads: the provider and the members that other threads set.
  unfoldable pub workers : List (Option Provider × Publisher) → D → List Report
  unfolding worker
  workers [] last_time = []
  workers ((provider, publisher) ∷ rounds) last_time =
      let (report, next) = worker provider publisher last_time in report ∷ workers rounds next

-- SetWorkingDirectory and SetMode.
unfoldable pub set_working_directory : Text → Text → Publisher → Publisher
set_working_directory stop_scan continous p = record p {
  stop_scan_directory = stop_scan;
  continous_scan_directory = continous;
}

unfoldable pub set_mode : Text → Publisher → Publisher
set_mode mode p = record p { mode = mode }
