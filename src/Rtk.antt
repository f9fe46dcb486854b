-- ===== src/Rtk.antt =====
-- extras/rtkNmea, the program that records a second receiver's NMEA lines while the scanner scans:
-- gnss.cpp and main.cpp here, ntrip.cpp in Rtk/Ntrip. The parser minmea is the instance argument
-- `Minmea`, doubles are `Doubles`, and a message of the scanner is the fields it was parsed into.
pub mod Buffer
pub mod Messages
pub mod Lines
pub mod Config
pub mod Ntrip
use mandeye_controller.Prelude.{
  ℕ, ◌+◌, ◌-◌, ◌/◌, Bool, true, false, not, ◌&&◌, ◌||◌, Option, none, some, List, [], ◌∷◌, ◌++◌,
  map, ltb, leb, ◌==◌, if◌then◌else◌, Text, codes, text_eq, is_empty,
}
use mandeye_controller.Prelude.Assoc.{lookup}
use mandeye_controller.Prelude.Int.{ℤ, pos, negsuc}
use mandeye_controller.Prelude.Decimal.{decimal}
use mandeye_controller.Prelude.Options.{◌>>=◌}
use mandeye_controller.Livox.{Doubles}
use mandeye_controller.Gnss.{Minmea, space}

-- char is signed, so a byte above 127 is negative and is dropped as well.
unfoldable pub sanitize_ascii : Text → Text
sanitize_ascii [] = []
sanitize_ascii (c ∷ s) =
    let rest = sanitize_ascii s in
    if (leb 32 c && leb c 126) || (c == 13 || c == 10) then c ∷ rest else rest

-- The keys of baud_map; `constant` gives LibSerial's value for each.
abbrev rates : List ℕ
rates =
    50 ∷ 75 ∷ 110 ∷ 134 ∷ 150 ∷ 200 ∷ 300 ∷ 600 ∷ 1200 ∷ 1800 ∷ 2400 ∷ 4800 ∷ 9600 ∷ 19200 ∷ 38400
    ∷ 57600 ∷ 115200 ∷ 230400 ∷ 460800 ∷ 500000 ∷ 576000 ∷ 921600 ∷ 1000000 ∷ 1152000 ∷ 1500000
    ∷ 2000000 ∷ 2500000 ∷ 3000000 ∷ 3500000 ∷ 4000000 ∷ []

unfoldable pub baudrate_to_constant {ℓ} : {B : Type ℓ} → (ℕ → B) → ℤ → Option B
baudrate_to_constant constant (pos baud) = lookup baud (map (λ n. (n, constant n)) rates)
baudrate_to_constant constant (negsuc baud) = none

-- The members of GNSSClient that the worker uses.
pub record Client (G : Type 0) : Type 0 where
  pub error_counter : ℕ
  pub last_line : Text
  pub last_gga : Option G
  pub laser_timestamp : ℕ

-- A file that NMEACallback saves: the scan's directory, the clock's count in the name, the text.
pub record File : Type 0 where
  pub target : Text
  pub count : ℕ
  pub content : Text

-- The static variables of NMEACallback, in nanoseconds of the steady clock.
pub record Recorder : Type 0 where
  pub last_time : ℕ
  pub buffer : Text
  pub last_mode : Text

-- What clientThread was told last.
pub record Told {ℓ} (D : Type ℓ) : Type ℓ where
  pub mode_name : Text
  pub timestamp : D
  pub continuous_scan_target : Text

-- The clock's readings in one call of NMEACallback: at its start, at the entry into a scan, of the
-- other clock for the file's name, and after a file. And the file system's answers: create_directories
-- throws unless `makes_directory`, and the file does not open, or take the text, unless `takes_text`.
pub record Readings : Type 0 where
  pub at_start : ℕ
  pub at_entry : ℕ
  pub for_name : ℕ
  pub after_file : ℕ
  pub makes_directory : Bool
  pub takes_text : Bool

abbrev pub scanning : Text
scanning = codes "SCANNING"

abbrev pub stopping : Text
stopping = codes "STOPPING"

abbrev pub longer : ℕ → ℤ → Bool
longer millis (pos n) = ltb n millis
longer millis (negsuc n) = true

abbrev pub with_file : Option File → List File → List File
with_file none files = files
with_file (some f) files = f ∷ files

-- The timer is reset at the entry into a scan, and the line is kept while the scanner scans.
unfoldable pub hear : Text → Readings → (mode : Text) → Recorder → Recorder
hear nmea t mode r =
    let entered : Recorder =
      if not (text_eq r.last_mode mode) && text_eq mode scanning
      then record r { last_time = t.at_entry }
      else r in
    let noted : Recorder = record entered { last_mode = mode } in
    if text_eq mode scanning then record noted { buffer = noted.buffer ++ nmea } else noted

-- What NMEACallback leaves: whether it has thrown, and the file that holds the text.
pub record Called : Type 0 where
  pub threw : Bool
  pub file : Option File
  pub recorder : Recorder

-- The buffer goes into a file when it is due and not empty, and is cleared also when the file does
-- not take it.
unfoldable pub save_due : (due : Bool) → Text → Readings → Recorder → Called
save_due due target t r =
    if due && not (is_empty r.buffer)
    then (if t.makes_directory
        then record {
          threw = false;
          file =
              if t.takes_text
              then some (record { target = target; count = t.for_name; content = r.buffer })
              else none;
          recorder = record r { buffer = []; last_time = t.after_file };
        }
        else record { threw = true; file = none; recorder = r })
    else record { threw = false; file = none; recorder = r }

-- The duration is taken before the timer is reset.
unfoldable pub nmea_callback {ℓ} : ℤ → {D : Type ℓ} → Text → Readings → Told D → Recorder → Called
unfolding hear save_due
nmea_callback file_length_ms nmea t told r =
    let duration = (t.at_start - r.last_time) / 1000000 in
    let mode = told.mode_name in
    save_due (longer duration file_length_ms || text_eq mode stopping) told.continuous_scan_target t
      (hear nmea t mode r)

-- A field of a message: not there, of another type than the code asks for, or a value.
pub data Field {ℓ} (A : Type ℓ) : Type ℓ where
  absent wrong : Field A
  value : A → Field A

pub data Message (D : Type 0) : Type 0 where
  unparsable not_object : Message D
  object : (time : Field D) (mode directory : Field Text) → Message D

-- What an event of the program leaves: NMEACallback's files are listed apart.
pub record Program (G D : Type 0) : Type 0 where
  pub client : Client G
  pub recorder : Recorder
  pub told : Told D

pub data Event (D : Type 0) : Type 0 where
  line : Text → (nanos : ℕ) → Readings → Event D
  read_fails : Event D
  message : Message D → Event D

unfoldable pub raw_entry_to_line : Text → ℕ → ℕ → Text
raw_entry_to_line text laser_timestamp nanos =
    decimal laser_timestamp ++ (space ++ (decimal nanos ++ (space ++ text)))

-- A field that is there and is asked for with another type throws, and clientThread catches only
-- ZeroMQ's errors: `none` is the end of the program.
abbrev pub set_field {ℓ κ} : {A : Type ℓ} {P : Type κ} → (A → P → P) → Field A → P → Option P
set_field set absent p = some p
set_field set wrong p = none
set_field set (value a) p = some (set a p)

module _ ⦃fl : Doubles⦄ {G : Type 0} where
  open fl use {D, of_nat, to_u64}

  abbrev pub set_time : D → Program G D → Program G D
  set_time t p = record p {
    told = record p.told { timestamp = t };
    client = record p.client { laser_timestamp = to_u64 t };
  }

  abbrev pub set_mode : Text → Program G D → Program G D
  set_mode mode p = record p { told = record p.told { mode_name = mode } }

  abbrev pub set_directory : Text → Program G D → Program G D
  set_directory directory p = record p {
    told = record p.told { continuous_scan_target = directory };
  }

  -- One round of clientThread.
  unfoldable pub client_thread : Message D → Program G D → Option (Program G D)
  client_thread unparsable p = none
  client_thread not_object p = some p
  client_thread (object time mode directory) p =
      set_field set_time time p >>= set_field set_mode mode >>= set_field set_directory directory

  -- The worker goes on below ten failures, and else aborts the program.
  unfoldable pub read_failed : Program G D → Option (Program G D)
  read_failed p =
      let failures = p.client.error_counter + 1 in
      let counted : Program G D = record p {
        client = record p.client { error_counter = failures };
      } in
      if ltb failures 10 then some counted else none

  module _ ⦃mm : Minmea G⦄ (file_length_ms : ℤ) where
    -- One round of the worker whose read gives a line; the clock's nanoseconds go into the entry. An
    -- exception of the callback is caught and counted, after a valid line as the first, so that the
    -- worker goes on.
    unfoldable pub worker_line : Text → ℕ → Readings → Program G D → Option File × Program G D
    unfolding nmea_callback raw_entry_to_line
    worker_line text nanos readings p =
        let heard : Client G = record p.client { last_line = text } in
        if mm.check text
        then (let reset : Client G = record heard { error_counter = 0 } in
            let kept : Client G = elim (mm.parse_gga text) [
              | none ↦ reset
              | some gga ↦ record reset { last_gga = some gga }
            ] in
            let entry = raw_entry_to_line text (to_u64 (of_nat kept.laser_timestamp)) nanos in
            let called = nmea_callback file_length_ms entry readings p.told p.recorder in
            let counted : Client G =
              if called.threw
              then record kept { error_counter = kept.error_counter + 1 }
              else kept in
            (called.file, record p { client = counted; recorder = called.recorder }))
        else (none, record p { client = heard })

    unfoldable pub step : Event D → Program G D → Option (Option File × Program G D)
    unfolding worker_line read_failed client_thread
    step (line text nanos readings) p = some (worker_line text nanos readings p)
    step read_fails p = read_failed p >>= λ q. some (none, q)
    step (message m) p = client_thread m p >>= λ q. some (none, q)

    unfoldable pub steps : List (Event D) → Program G D → Option (List File × Program G D)
    unfolding step
    steps [] p = some ([], p)
    steps (e ∷ es) p =
        step e p >>= λ (file, q). steps es q >>= λ (files, r). some (with_file file files, r)
