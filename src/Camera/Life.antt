-- ===== src/Camera/Life.antt =====
-- The camera over several starts: the user's controls and the configuration of
-- extras/libcamera/LibCameraWrapper.cpp, and the parts of extras/libcamera/main.cpp that start the
-- camera. A configuration is what start() reads of the JSON value.
pub mod Lasting
pub mod Posts
pub mod Reported
use mandeye_controller.Prelude.{
  ℕ, ◌+◌, ◌*◌, ◌==◌, Bool, true, false, not, ◌&&◌, ◌||◌, Option, none, some, List, [], ◌∷◌, ◌++◌,
  length, if◌then◌else◌, Text, codes, text_eq, is_empty, starts_with,
}
use mandeye_controller.Prelude.Int.{ℤ, pos, negsuc, minus_one}
use mandeye_controller.Prelude.Options.{◌>>=◌}
use mandeye_controller.Camera.{
  Wrapper, TriggerConfig, Gpiod, read_trigger, start, stop, capture, or_else,
}
use mandeye_controller.Camera.Streams.{Buffer, Mapped, map_buffers, create_requests}
use mandeye_controller.Camera.Controls.{
  ControlType, type_none, type_bool, type_byte, type_unsigned16, type_integer32, type_integer64,
  type_float, type_string, type_other, Control, Values, ControlList, set_control_numeric,
}

-- A section or an entry of the configuration: not there, of a type that throws, or read.
pub data Part {ℓ} (A : Type ℓ) : Type ℓ where
  absent throws : Part A
  given : A → Part A

abbrev pub read_part {ℓ} : {A : Type ℓ} → Part A → Option A
read_part absent = none
read_part throws = none
read_part (given a) = some a

abbrev pub is_throwing {ℓ} : {A : Type ℓ} → Part A → Bool
is_throwing absent = false
is_throwing throws = true
is_throwing (given a) = false

module _ ⦃vs : Values⦄ where
  open vs use {V}

  -- A value of the section "picamera": a number with the value that its C++ type gives, or another.
  pub data Setting : Type 0 where
    number : V → Setting
    other : Setting

  -- The loop over the section: entries that begin with _ and values that are no numbers or Booleans
  -- are passed over.
  unfoldable pub user_controls :
      List (Control V) → List (Text × Setting) → ControlList → ControlList
  user_controls cs [] list = list
  user_controls cs ((key, other) ∷ rest) list = user_controls cs rest list
  user_controls cs ((key, number v) ∷ rest) list =
      user_controls cs rest
        (if starts_with (codes "_") key then list else (set_control_numeric cs key v list).1)

  pub record Config : Type 0 where
    pub trigger : Part TriggerConfig
    pub rate_ms : Part ℕ
    pub picamera : List (Text × Setting)

  -- What libcamera and gpiod answer to one start; `one` is the value 1 of an int32_t control.
  pub record Answers : Type 0 where
    pub has_camera : Bool
    pub buffers : List Buffer
    pub creates : ℕ → Bool
    pub adds : ℕ → Bool
    pub controls : List (Control V)
    pub one : V
    pub gpiod : Gpiod

  -- The wrapper with the pointers to the camera and its manager, the requests and the mappings.
  pub record Life : Type 0 where
    pub wrapper : Wrapper V
    pub has_manager : Bool
    pub camera : Bool
    pub requests : ℕ
    pub mapped : Mapped

  pub data Started : Type 0 where
    threw : Started
    returned : Bool → Started

  -- What start() does with a trigger section that is read: the manager is made first, and an
  -- exception at rateMs leaves the camera with its buffers and its controls, and not running.
  unfoldable pub start_camera : Config → Option TriggerConfig → Answers → Life → Started × Life
  unfolding user_controls
  start_camera c trigger a l =
      let controls = user_controls a.controls c.picamera in
      let opened : Life = record l {
        has_manager = true;
        camera = a.has_camera;
        requests =
            if a.has_camera
            then create_requests a.creates a.adds (length a.buffers)
            else l.requests;
        mapped = if a.has_camera then map_buffers a.buffers l.mapped else l.mapped;
      } in
      if a.has_camera && is_throwing c.rate_ms
      then (
        threw,
        record opened {
          wrapper = record (read_trigger trigger l.wrapper) {
            control_list = controls (read_trigger trigger l.wrapper).control_list;
          };
        },
      )
      else (let (ok, w) =
            start trigger (read_part c.rate_ms) controls a.one a.gpiod a.has_camera l.wrapper in
          (returned ok, record opened { wrapper = w }))

  -- start(): an exception in the trigger section comes before the manager is made. The trigger's
  -- members that were read before it are left at their defaults here: the next start sets them first.
  unfoldable pub start_life : Config → Answers → Life → Started × Life
  unfolding start_camera
  start_life c a l =
      if is_throwing c.trigger
      then (threw, record l { wrapper = read_trigger none l.wrapper })
      else start_camera c (read_part c.trigger) a l

  -- stop(): without a manager a null pointer is dereferenced, which is `none`.
  unfoldable pub stop_life : Life → Option Life
  stop_life l =
      if l.has_manager
      then some (record l {
        wrapper = stop l.wrapper;
        has_manager = false;
        camera = false;
        requests = if l.camera then 0 else l.requests;
      })
      else none

  -- capture() with the clocks' readings.
  unfoldable pub capture_life : (now wall_ns : ℕ) → Life → Life
  capture_life now wall_ns l = record l { wrapper = capture false now wall_ns l.requests l.wrapper }

  -- What a POST of JSON to /setConfig does after stop(): whether it answers OK, also when start()
  -- returned false.
  unfoldable pub answered : (now wall_ns : ℕ) → Started × Life → Bool × Life
  unfolding capture_life
  answered now wall_ns (threw, l) = (false, l)
  answered now wall_ns (returned ok, l) = (true, capture_life now wall_ns l)

  pub record Request : Type 0 where
    pub config : Config
    pub answers : Answers
    pub now : ℕ
    pub wall_ns : ℕ

  unfoldable pub post : Request → Life → Option (Bool × Life)
  unfolding stop_life start_life answered
  post r l = stop_life l >>= λ stopped.
      some (answered r.now r.wall_ns (start_life r.config r.answers stopped))

  unfoldable pub posts : List Request → Life → Option (List Bool × Life)
  unfolding post
  posts [] l = some ([], l)
  posts (r ∷ rs) l = post r l >>= λ (ok, m). posts rs m >>= λ (oks, n). some (ok ∷ oks, n)

  abbrev reported_trigger : TriggerConfig
  reported_trigger = record {
    mode = some (codes "INTERNAL");
    gpio_pin = some minus_one;
    gpio_chip = some (codes "/dev/gpiochip0");
    max_frame_age_ms = some 500;
  }

  -- getCameraConfig of a camera that is there, as start() reads it; the section "picamera" is an
  -- argument.
  unfoldable pub get_camera_config : (picamera : List (Text × Setting)) → Life → Config
  get_camera_config picamera l = record {
    trigger = given reported_trigger;
    rate_ms = given l.wrapper.rate_ms;
    picamera = picamera;
  }

  -- The end of main before the server: asleep for ever, ended by an exception, ended with 1, or
  -- running, after it has written the default configuration or not.
  pub data Begun : Type 0 where
    asleep aborted failed : Begun
    serves : (writes_default : Bool) → Life → Begun

  unfoldable pub serve : (is_object : Bool) (now wall_ns : ℕ) → Started × Life → Begun
  unfolding capture_life
  serve is_object now wall_ns (threw, l) = aborted
  serve is_object now wall_ns (returned false, l) = failed
  serve is_object now wall_ns (returned true, l) =
      serves (not is_object) (capture_life now wall_ns l)

  abbrev pub no_sections : Config
  no_sections = record { trigger = absent; rate_ms = absent; picamera = [] }

  -- What main does with the file: `none` if it is not there, is not JSON or holds no object, and
  -- else the entry "disabled" and the configuration.
  unfoldable pub begin : Option (Part Bool × Config) → Answers → (now wall_ns : ℕ) → Life → Begun
  unfolding start_life serve
  begin none a now wall_ns l = serve false now wall_ns (start_life no_sections a l)
  begin (some (throws, c)) a now wall_ns l = aborted
  begin (some (given true, c)) a now wall_ns l = asleep
  begin (some (_, c)) a now wall_ns l = serve true now wall_ns (start_life c a l)
