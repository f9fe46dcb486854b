-- ===== src/Rtk/Config.antt =====
-- extras/rtkNmea/main.cpp, main up to the start of the threads: the settings, the file that they are
-- read from and written to, and what is started. The JSON library is the parameter `Json`; what a
-- file holds is of the type that it reads and prints.
pub mod Paths
pub mod Written
pub mod Restart
pub mod Starts
use mandeye_controller.Prelude.{
  Bool, true, false, not, ◌&&◌, Option, none, some, List, [], ◌∷◌, if◌then◌else◌, Text, codes,
  is_empty, ℕ,
}
use mandeye_controller.Prelude.Options.{◌>>=◌}
use mathlib.Core.Option
use mandeye_controller.Prelude.Int.{ℤ, pos}
use mandeye_controller.Prelude.Decimal.{decimal_int}
use mandeye_controller.App.Web.{get_env_string}
use mandeye_controller.Rtk.{baudrate_to_constant}

-- The calls of nlohmann::json: `entry k j` and `put k v j` are j[k] as a value that is read or
-- assigned to, and `none` is an exception; `print` is dump and `parse` the reading of a stream.
pub record Json : Type 1 where
  pub J : Type 0
  pub Content : Type 0
  pub null : J
  pub is_object : J → Bool
  pub has_no_entry : J → Bool
  pub entry : Text → J → Option J
  pub put : Text → J → J → Option J
  pub text : Text → J
  pub number : ℤ → J
  pub get_text : J → Option Text
  pub get_int : J → Option ℤ
  pub print : J → Option Content
  pub parse : Content → Option J

-- The globals that the file sets.
pub record Settings : Type 0 where
  pub ntrip_host : Text
  pub ntrip_port : ℤ
  pub ntrip_mount_point : Text
  pub ntrip_user : Text
  pub ntrip_password : Text
  pub uart_port : Text
  pub uart_baud_rate : ℤ
  pub file_length_ms : ℤ

-- The globals' initial values with those of the environment; std::stoi is a parameter, which gives
-- `none` where it throws.
unfoldable pub from_environment :
    (stoi : Text → Option ℤ) (getenv : Text → Option Text) → Option Settings
from_environment stoi getenv =
    Option.map
      (λ rate. record {
        ntrip_host = [];
        ntrip_port = pos 0;
        ntrip_mount_point = [];
        ntrip_user = [];
        ntrip_password = [];
        uart_port = get_env_string getenv (codes "EXTRA_GNSS_UART_PORT") (codes "/dev/ublox");
        uart_baud_rate = rate;
        file_length_ms = pos 20000;
      })
      (stoi (get_env_string getenv (codes "EXTRA_GNSS_UART_BAUD_RATE") (codes "115200")))

-- The path of the file, and the name of the directory that the recorder saves into.
unfoldable pub config_path : (getenv : Text → Option Text) → Text
config_path getenv =
    get_env_string getenv (codes "EXTRA_GNSS_CONFIG_PATH")
      (codes "/media/usb/config_extra_gps.json")

unfoldable pub directory_name_of : (getenv : Text → Option Text) → Text
directory_name_of getenv =
    get_env_string getenv (codes "EXTRA_GNSS_DIRECTORY_NAME") (codes "EXTRA_GNSS")

-- What main starts: the NTRIP client's user, password, mount point, host and port, and the port
-- and the rate of the serial line. Without `listener` main returns -1.
pub record Launch {ℓ} (B : Type ℓ) : Type ℓ where
  pub ntrip_client : Option (Text × Text × Text × Text × Text)
  pub listener : Option (Text × B)

-- startListener of a client that has not started opens the serial port, which fails where `opens` says so.
unfoldable pub launch {ℓ} :
    {B : Type ℓ} (constant : ℕ → B) (opens : Text → B → Bool) → Settings → Launch B
unfolding baudrate_to_constant
launch constant opens s = record {
  ntrip_client =
      if not (is_empty s.ntrip_host) && not (is_empty s.ntrip_mount_point)
      then some (
        s.ntrip_user,
        s.ntrip_password,
        s.ntrip_mount_point,
        s.ntrip_host,
        decimal_int s.ntrip_port,
      )
      else none;
  listener = baudrate_to_constant constant s.uart_baud_rate >>= λ rate.
      if opens s.uart_port rate then some (s.uart_port, rate) else none;
}

module _ (js : Json) where
  open js use {
    J, Content, null, is_object, has_no_entry, entry, put, text, number, get_text, get_int, print,
    parse,
  }

  -- The file at a path: `none` if there is none.
  pub record Disk : Type 0 where
    pub file : Option Content
    pub readable : Bool
    pub writable : Bool

  abbrev or_else : J → Option J → J
  or_else default none = default
  or_else default (some j) = j

  -- getConfig.
  unfoldable pub get_config : Disk → J
  get_config d = elim d.file [
    | none ↦ null
    | some content ↦ if d.readable then or_else null (parse content) else null
  ]

  -- j[k][l]… as it is read, and as it is assigned to.
  unfoldable pub at : List Text → J → Option J
  at [] j = some j
  at (k ∷ ks) j = entry k j >>= at ks

  unfoldable pub put_at : List Text → J → J → Option J
  put_at [] v j = some v
  put_at (k ∷ ks) v j = entry k j >>= λ o. put_at ks v o >>= λ o'. put k o' j

  -- One assignment of the configuration: where it stands, the global, and its change.
  pub data Row : Type 0 where
    text_row : (path : List Text) (of : Settings → Text) (set : Text → Settings → Settings) → Row
    number_row : (path : List Text) (of : Settings → ℤ) (set : ℤ → Settings → Settings) → Row

  abbrev pub place : Row → List Text
  place (text_row path of set) = path
  place (number_row path of set) = path

  abbrev pub saved : Row → Settings → J
  saved (text_row path of set) s = text (of s)
  saved (number_row path of set) s = number (of s)

  abbrev pub loaded : Row → J → Settings → Option Settings
  loaded (text_row path of set) j s = Option.map (λ x. set x s) (get_text j)
  loaded (number_row path of set) j s = Option.map (λ x. set x s) (get_int j)

  abbrev pub ntrip : Text → List Text
  ntrip key = codes "ntrip" ∷ key ∷ []

  abbrev pub uart : Text → List Text
  uart key = codes "uart" ∷ key ∷ []

  unfoldable pub rows : List Row
  rows =
      text_row (ntrip (codes "host")) (λ s. s.ntrip_host) (λ x s. record s { ntrip_host = x })
      ∷ number_row (ntrip (codes "port")) (λ s. s.ntrip_port) (λ x s. record s { ntrip_port = x })
      ∷ text_row (ntrip (codes "mount_point")) (λ s. s.ntrip_mount_point)
          (λ x s. record s { ntrip_mount_point = x })
      ∷ text_row (ntrip (codes "user_name")) (λ s. s.ntrip_user)
          (λ x s. record s { ntrip_user = x })
      ∷ text_row (ntrip (codes "password")) (λ s. s.ntrip_password)
          (λ x s. record s { ntrip_password = x })
      ∷ text_row (uart (codes "port")) (λ s. s.uart_port) (λ x s. record s { uart_port = x })
      ∷ number_row (uart (codes "baud_rate")) (λ s. s.uart_baud_rate)
          (λ x s. record s { uart_baud_rate = x })
      ∷ number_row (codes "file_length_ms" ∷ []) (λ s. s.file_length_ms)
          (λ x s. record s { file_length_ms = x })
      ∷ []

  -- A read of a key that is not there puts null there.
  unfoldable pub touch : List Text → J → J → J
  unfolding put_at
  touch path v j = or_else j (put_at path v j)

  -- The reading stops at the first exception, what was read before stays.
  abbrev pub on_loaded :
      (J → Settings → Bool × (J × Settings))
      → J
      → Settings
      → Option Settings
      → Bool × (J × Settings)
  on_loaded next j s none = (false, (j, s))
  on_loaded next j s (some s') = next j s'

  abbrev pub on_value :
      (J → Settings → Bool × (J × Settings)) → Row → J → Settings → Option J → Bool × (J × Settings)
  on_value next r j s none = (false, (j, s))
  on_value next r j s (some v) = on_loaded next (touch (place r) v j) s (loaded r v s)

  unfoldable pub read_rows : List Row → J → Settings → Bool × (J × Settings)
  unfolding at touch
  read_rows [] j s = (true, (j, s))
  read_rows (r ∷ rs) j s = on_value (read_rows rs) r j s (at (place r) j)

  -- A file that is not an object, or an empty one, is not read.
  unfoldable pub read_config : J → Settings → Bool × (J × Settings)
  unfolding read_rows rows
  read_config j s =
      if is_object j && not (has_no_entry j) then read_rows rows j s else (false, (j, s))

  unfoldable pub write_rows : List Row → Settings → J → Option J
  unfolding put_at
  write_rows [] s j = some j
  write_rows (r ∷ rs) s j = put_at (place r) (saved r s) j >>= write_rows rs s

  -- An exception outside the try block ends the program: `none`.
  unfoldable pub create_config : J → Settings → Disk → Option Disk
  unfolding write_rows rows
  create_config j s d = write_rows rows s j >>= print >>= λ content.
      some (if d.writable then record d { file = some content } else d)

  unfoldable pub settle : Disk → Bool × (J × Settings) → Option (Settings × Disk)
  unfolding create_config
  settle d (true, (j, s)) = some (s, d)
  settle d (false, (j, s)) = create_config j s d >>= λ written. some (s, written)

  unfoldable pub configure : Disk → Settings → Option (Settings × Disk)
  unfolding get_config read_config settle
  configure d s = settle d (read_config (get_config d) s)

  -- What main has when the threads start: where the file is and what it is, the directory's name, the
  -- settings, and what is started.
  pub record Begun {ℓ} (B : Type ℓ) : Type ℓ where
    pub path : Text
    pub disk : Disk
    pub directory_name : Text
    pub settings : Settings
    pub launched : Launch B

  -- main up to the threads; `disks` are the files by their paths.
  unfoldable pub begin {ℓ} :
      (stoi : Text → Option ℤ) (getenv : Text → Option Text) {B : Type ℓ} (constant : ℕ → B)
      (opens : Text → B → Bool) (disks : Text → Disk)
      → Option (Begun B)
  unfolding configure
  begin stoi getenv constant opens disks =
      from_environment stoi getenv >>= configure (disks (config_path getenv)) >>= λ (s, written).
      some (record {
        path = config_path getenv;
        disk = written;
        directory_name = directory_name_of getenv;
        settings = s;
        launched = launch constant opens s;
      })
