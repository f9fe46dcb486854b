-- ===== src/Camera.antt =====
-- extras/libcamera/LibCameraWrapper.cpp and .h: when a frame of the camera becomes a photo. The
-- camera and gpiod are outside: their answers are arguments, and what is asked of them is returned.
-- Nanoseconds stay below 2^63, so the int64_t difference of two of them is exact.
pub mod Photos
pub mod Pace
pub mod Trigger
pub mod Controls
pub mod Streams
pub mod Life
pub mod Program
use mandeye_controller.Prelude.{
  ℕ, ◌+◌, ◌*◌, ◌-◌, ◌/◌, Bool, true, false, not, ◌&&◌, Option, none, some, List, [], ◌∷◌, ltb,
  if◌then◌else◌, Text, codes, text_eq,
}
use mandeye_controller.Prelude.Int.{ℤ, pos, negsuc, minus_one}
use mandeye_controller.Prelude.Assoc.{insert}

pub data TriggerMode : Type 0 where
  internal nearest_frame xvs_hard : TriggerMode

-- The members that decide on frames and hold the PPS line; `frame_start` is in nanoseconds of the
-- steady clock. The control list maps a control's id to the value that was set.
pub record Wrapper (V : Type 0) : Type 0 where
  pub trigger_mode : TriggerMode
  pub trigger_gpio_pin : ℤ
  pub gpio_chip_path : Text
  pub max_frame_age_ns : ℕ
  pub rate_ms : ℕ
  pub mono_offset : ℕ
  pub frame_start : ℕ
  pub one_frame : Bool
  pub running : Bool
  pub last_pps_ns : ℕ
  pub pps_pending : Bool
  pub request_timestamp : ℕ
  pub pps_chip : Bool
  pub pps_line : Bool
  pub control_list : List (ℕ × V)

-- What the callback is given besides the image.
pub record Photo : Type 0 where
  pub frame_utc_ns : ℕ
  pub report_timestamp_ns : ℕ

abbrev pub distance : ℕ → ℕ → ℕ
distance a b = if ltb a b then b - a else a - b

-- What happens while the camera runs: the two stores after an edge, between which the other thread
-- may come, or a request that completes.
pub data Event : Type 0 where
  edge_stamped : (real_ns mono_ns event_ns : ℕ) → Event
  edge_raised : Event
  frame : (is_cancelled : Bool) (real_ns mono_ns sensor_ns now : ℕ) → Event

abbrev pub with_photo : Option Photo → List Photo → List Photo
with_photo none photos = photos
with_photo (some p) photos = p ∷ photos

module _ {V : Type 0} where
  -- The clocks' readings; the assertion that the real one is ahead holds.
  unfoldable pub adjust_system_clock : (real_ns mono_ns : ℕ) → Wrapper V → Wrapper V
  adjust_system_clock real_ns mono_ns w = record w { mono_offset = real_ns - mono_ns }

  -- The part of ppsWatchThread that follows a rising edge: first m_lastPpsNs is stored, and then
  -- m_ppsPending.
  unfoldable pub pps_stamp : (real_ns mono_ns event_ns : ℕ) → Wrapper V → Wrapper V
  unfolding adjust_system_clock
  pps_stamp real_ns mono_ns event_ns w =
      let adjusted = adjust_system_clock real_ns mono_ns w in
      record adjusted { last_pps_ns = event_ns + adjusted.mono_offset }

  unfoldable pub pps_raise : Wrapper V → Wrapper V
  pps_raise w = record w { pps_pending = true }

  -- Whether a frame is kept, and with which time; `now` is the steady clock's reading.
  unfoldable pub decide : TriggerMode → (utc now : ℕ) → Wrapper V → Option Photo × Wrapper V
  decide internal utc now w =
      if ltb w.rate_ms ((now - w.frame_start) / 1000000)
      then (
        some (record { frame_utc_ns = utc; report_timestamp_ns = utc }),
        record w { frame_start = now },
      )
      else (none, w)
  decide nearest_frame utc now w =
      if w.pps_pending && ltb (distance utc w.last_pps_ns) w.max_frame_age_ns
      then (
        some (record { frame_utc_ns = utc; report_timestamp_ns = w.last_pps_ns }),
        record w { pps_pending = false },
      )
      else (none, w)
  decide xvs_hard utc now w =
      (some (record { frame_utc_ns = utc; report_timestamp_ns = w.last_pps_ns }), w)

  abbrev pub noted : Option Photo → Wrapper V → Wrapper V
  noted none w = w
  noted (some p) w = record w { request_timestamp = p.report_timestamp_ns }

  -- `sensor_ns` is the first buffer's time stamp. The photo for the callback, whether the request is
  -- queued again, and the wrapper.
  unfoldable pub request_complete :
      (is_cancelled : Bool)
      → (real_ns mono_ns sensor_ns now : ℕ) → Wrapper V
      → (Option Photo × Bool) × Wrapper V
  unfolding adjust_system_clock decide
  request_complete is_cancelled real_ns mono_ns sensor_ns now w =
      let adjusted = adjust_system_clock real_ns mono_ns w in
      let queued = not adjusted.one_frame in
      if is_cancelled
      then ((none, queued), adjusted)
      else (let (photo, decided) =
            decide adjusted.trigger_mode (sensor_ns + adjusted.mono_offset) now adjusted in
          ((photo, queued), noted photo decided))

  unfoldable pub photos : List Event → Wrapper V → List Photo
  unfolding pps_stamp pps_raise request_complete
  photos [] w = []
  photos (edge_stamped real_ns mono_ns event_ns ∷ es) w =
      photos es (pps_stamp real_ns mono_ns event_ns w)
  photos (edge_raised ∷ es) w = photos es (pps_raise w)
  photos (frame is_cancelled real_ns mono_ns sensor_ns now ∷ es) w =
      let ((photo, queued), next) = request_complete is_cancelled real_ns mono_ns sensor_ns now w in
      with_photo photo (photos es next)

  -- `count` requests are queued; `wall_ns` is the system clock's reading.
  unfoldable pub capture : (one_frame : Bool) → (now wall_ns count : ℕ) → Wrapper V → Wrapper V
  capture one_frame now wall_ns count w = record w {
    frame_start = now;
    one_frame = one_frame;
    pps_pending = false;
    request_timestamp = if ltb 0 count then wall_ns else w.request_timestamp;
  }

  unfoldable pub release_pps_gpio : Wrapper V → Wrapper V
  release_pps_gpio w = record w { pps_line = false; pps_chip = false }

  unfoldable pub stop : Wrapper V → Wrapper V
  unfolding release_pps_gpio
  stop w = release_pps_gpio (record w { running = false })

-- The section "trigger" of the configuration, each entry if it is there and has the type asked for.
pub record TriggerConfig : Type 0 where
  pub mode : Option Text
  pub gpio_pin : Option ℤ
  pub gpio_chip : Option Text
  pub max_frame_age_ms : Option ℕ

-- gpiod's answers for a path and a pin.
pub record Gpiod : Type 0 where
  pub opens : Text → Bool
  pub gives_line : Text → ℕ → Bool
  pub requests_edges : Text → ℕ → Bool

abbrev pub or_else {ℓ} : {A : Type ℓ} → Option A → A → A
or_else none a = a
or_else (some b) a = b

unfoldable pub mode_of : Text → TriggerMode
mode_of s =
    if text_eq s (codes "NEAREST_FRAME")
    then nearest_frame
    else (if text_eq s (codes "XVS_HARD") then xvs_hard else internal)

abbrev pub frame_sync_id : ℕ
frame_sync_id = 10354721

abbrev pub is_internal : TriggerMode → Bool
is_internal internal = true
is_internal nearest_frame = false
is_internal xvs_hard = false

module _ {V : Type 0} where
  abbrev reset_trigger : Wrapper V → Wrapper V
  reset_trigger w = record w {
    trigger_mode = internal;
    trigger_gpio_pin = minus_one;
    gpio_chip_path = codes "/dev/gpiochip0";
    max_frame_age_ns = 500000000;
  }

  -- The trigger's settings, when the configuration has the section.
  unfoldable pub read_trigger : Option TriggerConfig → Wrapper V → Wrapper V
  unfolding mode_of
  read_trigger none w = reset_trigger w
  read_trigger (some t) w = record w {
    trigger_mode = mode_of (or_else t.mode (codes "INTERNAL"));
    trigger_gpio_pin = or_else t.gpio_pin minus_one;
    gpio_chip_path = or_else t.gpio_chip (codes "/dev/gpiochip0");
    max_frame_age_ns = or_else t.max_frame_age_ms 500 * 1000000;
  }

  -- The PPS line of a pin; without it the mode becomes INTERNAL.
  unfoldable pub open_line : Gpiod → ℤ → Wrapper V → Wrapper V
  unfolding release_pps_gpio
  open_line g (negsuc n) w = record w { trigger_mode = internal }
  open_line g (pos pin) w =
      if g.opens w.gpio_chip_path
      then (let opened : Wrapper V = record w { pps_chip = true } in
          if g.gives_line w.gpio_chip_path pin
          then (let held : Wrapper V = record opened { pps_line = true } in
              if g.requests_edges w.gpio_chip_path pin
              then held
              else record (release_pps_gpio held) { trigger_mode = internal })
          else record (release_pps_gpio opened) { trigger_mode = internal })
      else record w { trigger_mode = internal }

  unfoldable pub slave_mode : V → TriggerMode → Wrapper V → Wrapper V
  slave_mode one xvs_hard w = record w { control_list = insert frame_sync_id one w.control_list }
  slave_mode one mode w = w

  -- FrameSync first, for XVS_HARD, and then the line, for every mode but INTERNAL.
  unfoldable pub arm : V → Gpiod → TriggerMode → Wrapper V → Wrapper V
  unfolding slave_mode open_line
  arm one g mode w =
      let slave = slave_mode one mode w in
      if is_internal mode then slave else open_line g slave.trigger_gpio_pin slave

  -- start() for a camera that is there, without the streams and the requests: `has_camera` says
  -- whether it is, `controls` sets the user's controls in the list, and `one` is FrameSync's value 1.
  unfoldable pub start :
      Option TriggerConfig
      → Option ℕ
      → (List (ℕ × V) → List (ℕ × V))
      → V
      → Gpiod
      → (has_camera : Bool) → Wrapper V
      → Bool × Wrapper V
  unfolding read_trigger arm
  start config rate controls one g has_camera w =
      let parsed = read_trigger config w in
      if has_camera
      then (let rated : Wrapper V = record parsed {
        control_list = controls parsed.control_list;
        rate_ms = or_else rate parsed.rate_ms;
      } in
          let armed = arm one g rated.trigger_mode rated in
          (
            true,
            record armed {
              running = true;
              pps_pending = if is_internal armed.trigger_mode then armed.pps_pending else false;
            },
          ))
      else (false, parsed)
