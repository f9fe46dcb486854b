-- ===== src/Rtk/Buffer.antt =====
-- One call of NMEACallback of extras/rtkNmea/main.cpp: the buffer and the file.
use mandeye_controller.Prelude.{
  ◌≡◌, refl, sym, ◌∙◌, ◌-◌, ◌/◌, Bool, true, false, Option, none, some, [], ◌++◌, append-nil,
  if◌then◌else◌, inl, inr, Bool-cases, Text, text_eq, is_empty,
}
use mandeye_controller.Prelude.Int.{ℤ}
use mandeye_controller.Rtk.{
  File, Recorder, Told, Readings, scanning, hear, save_due, nmea_callback, longer,
}

abbrev pub content_of : Option File → Text
content_of none = []
content_of (some f) = f.content

abbrev pub HasContent : Option File → Type 0
HasContent none = Unit
HasContent (some f) = is_empty f.content ≡ false

-- The entry of a line, when the scanner scans.
abbrev pub while_scanning : Text → Text → Text
while_scanning mode entry = if text_eq mode scanning then entry else []

hear-buffer :
    (nmea : Text) (t : Readings) (mode : Text) (r : Recorder)
    → (hear nmea t mode r).buffer ≡ r.buffer ++ while_scanning mode nmea
unfolding hear
hear-buffer nmea t mode r = elim (Bool-cases (text_eq mode scanning)) [
  | inr other ↦ elim (Bool-cases (text_eq r.last_mode mode)) [
    | inl same ↦ rw (other, same) (sym (append-nil r.buffer))
    | inr new ↦ rw (other, new) (sym (append-nil r.buffer))
  ]
  | inl on ↦ elim (Bool-cases (text_eq r.last_mode mode)) [
    | inl same ↦ rw (on, same) refl
    | inr new ↦ rw (on, new) refl
  ]
]

save_due-content :
    (due : Bool) (target : Text) (t : Readings) (r : Recorder)
    → t.takes_text ≡ true
    → let called = save_due due target t r in
      (content_of called.file ++ called.recorder.buffer ≡ r.buffer) × HasContent called.file
unfolding save_due
save_due-content false target t r takes = (refl, tt)
save_due-content true target t r takes = elim (Bool-cases (is_empty r.buffer)) [
  | inl none_heard ↦ rw none_heard (refl, tt)
  | inr some_heard ↦ elim (Bool-cases t.makes_directory) [
    | inr threw ↦ rw (some_heard, threw) (refl, tt)
    | inl made ↦ rw (some_heard, made, takes) (append-nil r.buffer, some_heard)
  ]
]

pub nmea_callback-content :
    (file_length_ms : ℤ) {D : Type 0} (nmea : Text) (t : Readings) (told : Told D) (r : Recorder)
    → t.takes_text ≡ true
    → let called = nmea_callback file_length_ms nmea t told r in
      (content_of called.file ++ called.recorder.buffer
        ≡ r.buffer ++ while_scanning told.mode_name nmea)
      × HasContent called.file
unfolding nmea_callback
nmea_callback-content len nmea t told r takes =
    let (kept, full) =
      save_due-content _ told.continuous_scan_target t (hear nmea t told.mode_name r) takes in
    (kept ∙ hear-buffer nmea t told.mode_name r, full)

-- The duration is that since the timer's last reset, which a scan's entry makes too late: when the
-- pause before a scan was longer than a file may be, the first line of the scan is a file alone.
pub first_line_saved_alone :
    (file_length_ms : ℤ) {D : Type 0} (nmea : Text) (t : Readings) (told : Told D) (r : Recorder)
    → r.buffer ≡ []
    → text_eq told.mode_name scanning ≡ true
    → text_eq r.last_mode told.mode_name ≡ false
    → longer ((t.at_start - r.last_time) / 1000000) file_length_ms ≡ true
    → is_empty nmea ≡ false
    → t.makes_directory ≡ true
    → t.takes_text ≡ true
    → nmea_callback file_length_ms nmea t told r ≡ record {
      threw = false;
      file =
          some
            (record { target = told.continuous_scan_target; count = t.for_name; content = nmea });
      recorder = record { last_time = t.after_file; buffer = []; last_mode = told.mode_name };
    }
unfolding nmea_callback hear save_due
first_line_saved_alone len nmea t told r e on new late full made takes =
    rw (on, new, late, e, full, made, takes) refl
