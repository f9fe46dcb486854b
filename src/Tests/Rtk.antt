-- ===== src/Tests/Rtk.antt =====
-- The publisher and the recorder of the second receiver on concrete inputs.
use mandeye_controller.Prelude.{
  ℕ, ◌+◌, ◌*◌, ◌/◌, ◌≡◌, refl, true, false, Option, none, some, List, [], ◌∷◌, ◌++◌, codes, text_eq,
  All, map, length, is_empty,
}
use mathlib.Core.List.{flatten}
use mandeye_controller.Prelude.Int.{pos}
use mandeye_controller.Prelude.Decimal.{decimal}
use mandeye_controller.Rtk.{
  File, Recorder, Told, Readings, absent, value, object, Program, Event, line, read_fails, message,
  nmea_callback, steps, step, worker_line, client_thread, read_failed, hear, save_due,
}
use mandeye_controller.Tests.Devices.{any_fix}
use mandeye_controller.Tests.Lidar.{whole_doubles}
use mandeye_controller.Rtk.Lines.{entries, steps-entries}
use mandeye_controller.Rtk.Ntrip
use mandeye_controller.Rtk.Ntrip.{
  completed, gga_due, gga_written, send_gga, watchdog_due, aborted, reconnect_due, resolving, made,
  start, do_connect, succeed, fail, stop, schedule_reconnect, stream_data, pick,
}
use mandeye_controller.Rtk.Ntrip.Stream.{received, arrivals, left_length, steps-received}
use mandeye_controller.Rtk.Ntrip.Chain.{IsChain, Reconnects, reachable-Reconnects}
use mandeye_controller.App
use mandeye_controller.Publisher.{Clock, Provider, workers}
use mandeye_controller.Publisher.Relay.{
  Input, hears, reads, event_of, camera_events, last_told, mode_of, directory_of, relayed,
}
use mandeye_controller.Camera.Program as Camera
use mandeye_controller.Tests.Photos.{no_photos}
use mandeye_controller.Publisher.Reports.{reports, workers-reports}

-- Milliseconds in the place of doubles.
instance abbrev millis_clock : Clock
millis_clock = record { D = ℕ; nought = 0; floor = λ t. t / 1000; nanos = λ t. t * 1000000 }

abbrev at_time : ℕ → Option (Provider ⦃cl = millis_clock⦄) × App.Publisher
at_time t = (
  some (record { timestamp = t; session_duration = t; session_start = 0 }),
  record {
    mode = codes "SCANNING";
    stop_scan_directory = [];
    continous_scan_directory = codes "/media/usb/a";
  },
)

workers-reports_example :
    workers (at_time 900 ∷ at_time 1025 ∷ at_time 1150 ∷ at_time 2050 ∷ []) 0
    ≡ reports 0 (at_time 900 ∷ at_time 1025 ∷ at_time 1150 ∷ at_time 2050 ∷ [])
workers-reports_example =
    workers-reports (at_time 900 ∷ at_time 1025 ∷ at_time 1150 ∷ at_time 2050 ∷ []) 0

abbrev quiet_recorder : Recorder
quiet_recorder = record { last_time = 0; buffer = []; last_mode = codes "IDLE" }

abbrev told_scanning : Told ℕ
told_scanning = record {
  mode_name = codes "SCANNING";
  timestamp = 7;
  continuous_scan_target = codes "/media/usb/a";
}

abbrev late : Readings
late = record {
  at_start = 60000000000;
  at_entry = 60000000001;
  for_name = 99;
  after_file = 60000000002;
  makes_directory = true;
  takes_text = true;
}

abbrev started : Program ℕ ℕ
started = record {
  client = record { error_counter = 0; last_line = []; last_gga = none; laser_timestamp = 7 };
  recorder = quiet_recorder;
  told = told_scanning;
}

abbrev two_lines : List (Event ℕ)
two_lines =
    line (codes "$A") 3 late
    ∷ message (object (value 8) absent absent)
    ∷ read_fails
    ∷ line (codes "$B") 4 (record late { at_start = 60000000009 })
    ∷ []

abbrev saved_line : File
saved_line = record { target = codes "/media/usb/a"; count = 99; content = codes "7 3 $A" }

abbrev left : Program ℕ ℕ
left = record {
  client = record {
    error_counter = 0;
    last_line = codes "$B";
    last_gga = some 0;
    laser_timestamp = 8;
  };
  recorder = record {
    last_time = 60000000002;
    buffer = codes "8 4 $B";
    last_mode = codes "SCANNING";
  };
  told = record told_scanning { timestamp = 8 };
}

steps-two_lines : steps (pos 20000) two_lines started ≡ some (saved_line ∷ [], left)
unfolding steps step worker_line client_thread read_failed nmea_callback hear save_due decimal
    text_eq
steps-two_lines = refl

steps-entries_example :
    (flatten (map (λ f. f.content) (saved_line ∷ [])) ++ left.recorder.buffer
      ≡ [] ++ entries any_fix.check two_lines (codes "SCANNING") 7)
    × All (λ f. is_empty f.content ≡ false) (saved_line ∷ [])
steps-entries_example =
    steps-entries (pos 20000) two_lines started left (saved_line ∷ [])
      (refl, (tt, (tt, (refl, tt)))) steps-two_lines

-- A connection whose headers come with two bytes, then three bytes of the stream, and silence.
abbrev a_connection : List Ntrip.Event
a_connection =
    completed 0 true []
    ∷ completed 0 true []
    ∷ completed 0 true []
    ∷ gga_due true (codes "$GPGGA")
    ∷ completed 0 true (72 ∷ 13 ∷ [])
    ∷ completed 0 true (1 ∷ 2 ∷ 3 ∷ [])
    ∷ watchdog_due
    ∷ gga_written 0
    ∷ aborted []
    ∷ reconnect_due
    ∷ []

abbrev reconnecting : Ntrip.Client
reconnecting = record {
  response = 2 ∷ 3 ∷ [];
  header_parsed = true;
  ops = resolving ∷ [];
  cancelled = [];
  reconnect = false;
  watchdog = false;
  delivered = (72 ∷ 13 ∷ 1 ∷ []) ∷ [];
  gga_writes = [];
}

steps-a_connection : Ntrip.steps a_connection (start made) ≡ some reconnecting
unfolding Ntrip.steps Ntrip.step start do_connect succeed fail stop schedule_reconnect stream_data
    send_gga pick
steps-a_connection = refl

steps-received_example :
    (received reconnecting ≡ received (start made) ++ arrivals a_connection (start made))
    × (length reconnecting.response
        ≡ length (start made).response + left_length a_connection (start made))
steps-received_example = steps-received a_connection (start made) reconnecting steps-a_connection

reachable-Reconnects_example : IsChain reconnecting × Reconnects reconnecting
reachable-Reconnects_example = reachable-Reconnects a_connection reconnecting steps-a_connection

-- A longer report, a line, and a shorter report.
abbrev reports_and_line : List Input
reports_and_line =
    hears (record {
      time = 9;
      dur = 2;
      details = some (record {
        mode = codes "SCANNING";
        stop_scan_directory = [];
        continous_scan_directory = codes "/media/usb/b";
      });
    })
    ∷ reads (codes "$C") 5 late
    ∷ hears (record { time = 10; dur = 3; details = none })
    ∷ []

relayed_example :
    ((files : List File) × ((q : Program ℕ ℕ) × ((steps
              (pos 20000)
              (map event_of reports_and_line)
              started
            ≡ some (files, q))
          × ((q.told.mode_name ≡ last_told mode_of reports_and_line (codes "SCANNING"))
              × (q.told.continuous_scan_target
                  ≡ last_told directory_of reports_and_line (codes "/media/usb/a"))))))
    × (((Camera.happen_all (camera_events reports_and_line) no_photos).mode
          ≡ last_told mode_of reports_and_line (codes "SCANNING"))
        × ((Camera.happen_all (camera_events reports_and_line) no_photos).continous_scan_target
            ≡ last_told directory_of reports_and_line (codes "/media/usb/a")))
relayed_example = relayed (pos 20000) reports_and_line started no_photos
