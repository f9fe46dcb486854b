-- ===== src/Tests/Photos.antt =====
-- The camera's trigger on concrete inputs.
use mandeye_controller.Prelude.{
  ◌⊎◌, ℕ, ◌+◌, ◌*◌, ◌≤◌, arith, ◌≡◌, refl, true, false, none, some, List, [], ◌∷◌, ltb, codes,
  text_eq, All,
}
use mandeye_controller.Prelude.Int.{pos, minus_one}
use mandeye_controller.Camera.{
  pps_stamp, pps_raise, internal, nearest_frame, Wrapper, Event, edge_stamped, edge_raised, frame,
  photos, request_complete, adjust_system_clock, decide, TriggerConfig, Gpiod, read_trigger, start,
}
use mandeye_controller.Camera.Photos.{
  Within, reported, pending_edge, edge_times, IsNear, photos-Within,
}
use mandeye_controller.Camera.Pace.{pace, photos-pace}
use mandeye_controller.Camera.Trigger.{Consistent, start-Consistent}
use mandeye_controller.Camera.Controls.{Control, Values, type_integer32}
use mandeye_controller.Prelude.{length}
use mandeye_controller.Camera.Program
use mandeye_controller.Camera.Program.{
  defaults, parse_arguments, set_option, photo, saver_copies, saver_writes, happen_all, happen,
  print_frame, copy_photo, write_photo, post, on_request,
}
use mandeye_controller.Camera.Program.Saved.{IsLate, IsOrdered, happen_all-IsOrdered}
use mandeye_controller.Camera.Program.Routes.{Outcome, on_request-answers}

abbrev pub fresh : Wrapper ℕ
fresh = record {
  trigger_mode = internal;
  trigger_gpio_pin = minus_one;
  gpio_chip_path = codes "/dev/gpiochip0";
  max_frame_age_ns = 500000000;
  rate_ms = 500;
  mono_offset = 0;
  frame_start = 0;
  one_frame = false;
  running = false;
  last_pps_ns = 0;
  pps_pending = false;
  request_timestamp = 0;
  pps_chip = false;
  pps_line = false;
  control_list = [];
}

abbrev by_edge : Wrapper ℕ
by_edge = record fresh { trigger_mode = nearest_frame; max_frame_age_ns = 60 }

-- An edge, a frame too far from it, two frames near it, and a second edge with a frame.
abbrev two_edges : List Event
two_edges =
    edge_stamped 1000 0 1000
    ∷ edge_raised
    ∷ frame false 1000 0 1080 100
    ∷ frame false 1000 0 1040 200
    ∷ frame false 1000 0 1020 300
    ∷ edge_stamped 1000 0 2000
    ∷ edge_raised
    ∷ frame false 1000 0 1990 400
    ∷ []

photos-Within_example :
    Within (reported (photos two_edges by_edge)) (
      pending_edge by_edge.pps_pending by_edge.last_pps_ns
        (edge_times false by_edge.last_pps_ns two_edges))
    × All (IsNear 60) (photos two_edges by_edge)
photos-Within_example = photos-Within two_edges by_edge refl

-- A frame between the two stores of the second edge, and one after them: two photos of that edge.
abbrev between_stores : List Event
between_stores =
    edge_stamped 1000 0 1000
    ∷ edge_raised
    ∷ edge_stamped 1000 0 2000
    ∷ frame false 1000 0 1990 400
    ∷ edge_raised
    ∷ frame false 1000 0 2010 500
    ∷ []

two_for_one_edge : reported (photos between_stores by_edge) ≡ 3000 ∷ 3000 ∷ []
unfolding photos request_complete adjust_system_clock decide pps_stamp pps_raise
two_for_one_edge = refl

-- The rate is 500 ms: the second frame comes too soon, the third does not.
abbrev three_frames : List Event
three_frames =
    frame false 0 0 1 600000000 ∷ frame false 0 0 2 1100000000 ∷ frame false 0 0 3 1101000000 ∷ []

photos-pace_example : 0 + length (photos three_frames fresh) * pace 500 ≤ 1200000000
photos-pace_example =
    photos-pace three_frames fresh 1200000000 refl (omega arith)
      (omega arith, (omega arith, (omega arith, tt)))

two_are_kept : length (photos three_frames fresh) ≡ 2
unfolding photos request_complete adjust_system_clock decide
two_are_kept = refl

abbrev pub hard : TriggerConfig
hard = record {
  mode = some (codes "XVS_HARD");
  gpio_pin = some (pos 17);
  gpio_chip = none;
  max_frame_age_ms = some 60;
}

-- A chip that opens and has no such line.
abbrev pub no_line : Gpiod
no_line = record {
  opens = λ path. true;
  gives_line = λ path pin. false;
  requests_edges = λ path pin. true;
}

abbrev same_list : List (ℕ × ℕ) → List (ℕ × ℕ)
same_list list = list

start-Consistent_example :
    let (ok, after) = start (some hard) none same_list 1 no_line true fresh in
    let mode = (read_trigger (some hard) fresh).trigger_mode in
    (ok ≡ true)
    × (((ok ≡ true) × Consistent mode after)
        ⊎ ((ok ≡ false)
            × ((after.trigger_mode ≡ mode)
                × ((after.pps_chip ≡ false) × (after.pps_line ≡ false)))))
start-Consistent_example =
    start-Consistent (some hard) none same_list 1 no_line true fresh refl refl

instance abbrev pub whole_values : Values
whole_values = record { V = ℕ; cast = λ t n. n; below = λ t. ltb }

abbrev pub gain : Control ℕ
gain = record {
  name = codes "Gain";
  id = 5;
  control_type = type_integer32;
  is_array = false;
  min = 1;
  max = 16;
}

abbrev pub no_photos : Program.Program
no_photos = record {
  frames = 0;
  last_photo = none;
  photo_metadata = 0;
  mode = codes "SCANNING";
  continous_scan_target = codes "/media/usb/a";
  job = none;
  saved = [];
}

-- The second photo comes before the saver has copied the first.
abbrev two_photos : List Program.Event
two_photos = photo 100 ∷ photo 200 ∷ saver_copies ∷ saver_writes ∷ []

-- The file that is named after the first photo shows the second.
second_is_saved :
    (happen_all two_photos no_photos).saved
    ≡ record { name = 100; target = codes "/media/usb/a"; of_frame = 0; picture = 1; metadata = 1 }
      ∷ []
unfolding happen_all happen print_frame copy_photo write_photo text_eq
second_is_saved = refl

happen_all-IsOrdered_example :
    IsOrdered (happen_all two_photos no_photos) × All IsLate (happen_all two_photos no_photos).saved
unfolding IsOrdered
happen_all-IsOrdered_example = happen_all-IsOrdered two_photos no_photos (tt, (tt, tt))

on_request-answers_example :
    Outcome
      (codes "/photoMeta")
      post
      []
      false
      true
      false
      false
      (on_request (codes "/photoMeta") post [] false true false false)
on_request-answers_example = on_request-answers (codes "/photoMeta") post [] false true false false

-- A number is its number of bytes, for a parser that cannot fail.
port_is_read :
    parse_arguments
      (λ s. some (pos (length s)))
      (codes "-p" ∷ codes "8" ∷ codes "extra" ∷ codes "-t" ∷ codes "cam1_" ∷ [])
      defaults
    ≡ some (record defaults { port_no = pos 1; prefix = codes "cam1_" })
unfolding parse_arguments set_option text_eq
port_is_read = refl
