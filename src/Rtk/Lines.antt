-- ===== src/Rtk/Lines.antt =====
-- What the files of extras/rtkNmea hold.
use mandeye_controller.Prelude.{
  ℕ, ◌≡◌, refl, sym, ap, ◌∙◌, Bool, false, Option, none, some, List, [], ◌∷◌, ◌++◌, map, append-nil,
  true, append_assoc, if◌then◌else◌, inl, inr, Bool-cases, Option-cases, Text, text_eq, is_empty,
  All, some-eq,
}
use mathlib.Core.Path.{subst}
use mathlib.Core.List.{flatten}
use mandeye_controller.Prelude.Int.{ℤ}
use mandeye_controller.Prelude.Options.{◌>>=◌, bind-some}
use mandeye_controller.Livox.{Doubles}
use mandeye_controller.Gnss.{Minmea}
use mandeye_controller.Rtk.Buffer.{content_of, HasContent, while_scanning, nmea_callback-content}
use mandeye_controller.Rtk.Messages.{
  or_old, or_stamp, Same, object-Same, read_failed-Same, other-Same,
}
use mandeye_controller.Rtk.{
  File, Recorder, Readings, scanning, unparsable, not_object, object, Program, Event, line,
  read_fails, message, nmea_callback, raw_entry_to_line, client_thread, worker_line, read_failed,
  step, steps, with_file,
}

module _ ⦃fl : Doubles⦄ (check : Text → Bool) where
  open fl use {D, of_nat, to_u64}

  abbrev entry_of : Text → ℕ → ℕ → Text
  entry_of text stamp nanos =
      if check text then raw_entry_to_line text (to_u64 (of_nat stamp)) nanos else []

  -- The entries of the valid lines that come while the scanner, by its last message, scans; `mode`
  -- and `stamp` are what was told before.
  unfoldable pub entries : List (Event D) → (mode : Text) → (stamp : ℕ) → Text
  entries [] mode stamp = []
  entries (line text nanos t ∷ es) mode stamp =
      while_scanning mode (entry_of text stamp nanos) ++ entries es mode stamp
  entries (read_fails ∷ es) mode stamp = entries es mode stamp
  entries (message (object time m d) ∷ es) mode stamp =
      entries es (or_old m mode) (or_stamp to_u64 time stamp)
  entries (message m ∷ es) mode stamp = entries es mode stamp

module _ ⦃fl : Doubles⦄ where
  open fl use {D}

  -- The file of a line, if there is one, takes the text.
  abbrev pub IsSaving : Event D → Type 0
  IsSaving (line text nanos t) = t.takes_text ≡ true
  IsSaving read_fails = Unit
  IsSaving (message m) = Unit

while_scanning-nil : (mode : Text) → while_scanning mode [] ≡ []
while_scanning-nil mode = elim (Bool-cases (text_eq mode scanning)) [
  | inl on ↦ rw on refl
  | inr other ↦ rw other refl
]

module _ ⦃fl : Doubles⦄ {G : Type 0} ⦃mm : Minmea G⦄ where
  open fl use {D, of_nat, to_u64}

  pub worker_line-told :
      (len : ℤ) (text : Text) (nanos : ℕ) (t : Readings) (p : Program G D)
      → let (file, q) = worker_line len text nanos t p in
        (q.told ≡ p.told) × (q.client.laser_timestamp ≡ p.client.laser_timestamp)
  unfolding worker_line
  worker_line-told len text nanos t p = elim (Bool-cases (mm.check text)) [
    | inr bad ↦ rw bad (refl, refl)
    | inl good ↦
        let entry = raw_entry_to_line text (to_u64 (of_nat p.client.laser_timestamp)) nanos in
        elim (Option-cases (mm.parse_gga text)) [
          | inl other ↦ elim (Bool-cases (nmea_callback len entry t p.told p.recorder).threw) [
            | inl threw ↦ rw (good, other, threw) (refl, refl)
            | inr fine ↦ rw (good, other, fine) (refl, refl)
          ]
          | inr (g, gga) ↦ elim (Bool-cases (nmea_callback len entry t p.told p.recorder).threw) [
            | inl threw ↦ rw (good, gga, threw) (refl, refl)
            | inr fine ↦ rw (good, gga, fine) (refl, refl)
          ]
        ]
  ]

  worker_line-content :
      (len : ℤ) (text : Text) (nanos : ℕ) (t : Readings) (p : Program G D)
      → t.takes_text ≡ true
      → let (file, q) = worker_line len text nanos t p in
        (content_of file ++ q.recorder.buffer
          ≡ p.recorder.buffer
            ++ while_scanning p.told.mode_name
                (entry_of mm.check text p.client.laser_timestamp nanos))
        × HasContent file
  unfolding worker_line
  worker_line-content len text nanos t p takes = elim (Bool-cases (mm.check text)) [
    | inr bad ↦
        rw (bad, while_scanning-nil p.told.mode_name) (sym (append-nil p.recorder.buffer), tt)
    | inl good ↦
        let entry = raw_entry_to_line text (to_u64 (of_nat p.client.laser_timestamp)) nanos in
        let saved = nmea_callback-content len entry t p.told p.recorder takes in
        elim (Option-cases (mm.parse_gga text)) [
          | inl other ↦ rw (good, other) saved
          | inr (g, gga) ↦ rw (good, gga) saved
        ]
  ]

  -- The recorder's buffer and what is still to come.
  abbrev ahead : List (Event D) → Program G D → Text
  ahead es p = p.recorder.buffer ++ entries mm.check es p.told.mode_name p.client.laser_timestamp

  ahead-Same :
      (es : List (Event D)) (q : Program G D) (r : Recorder) (mode : Text) (stamp : ℕ)
      → Same q r mode stamp
      → ahead es q ≡ r.buffer ++ entries mm.check es mode stamp
  ahead-Same es q r mode stamp (a, (b, c)) = rw (a, b, c) refl

  -- What an event leaves: a file, if any, before the recorder's buffer and what is to come.
  abbrev Leaves : List (Event D) → Text → Option File × Program G D → Type 0
  Leaves es all (file, q) = (content_of file ++ ahead es q ≡ all) × HasContent file

  -- An event that saves nothing.
  quiet-Leaves :
      (es : List (Event D)) (all : Text) (m : Option (Program G D)) (x : Option File × Program G D)
      → ((u : Program G D) → m ≡ some u → ahead es u ≡ all)
      → (m >>= λ u. some (none, u)) ≡ some x
      → Leaves es all x
  quiet-Leaves es all m x h e =
      let (u, (e1, e2)) = bind-some m (λ u. some (none, u)) x e in
      subst (Leaves es all) (some-eq e2) (h u e1, tt)

  line-Leaves :
      (len : ℤ) (text : Text) (nanos : ℕ) (t : Readings) (es : List (Event D)) (p : Program G D)
      → t.takes_text ≡ true
      → Leaves es (ahead (line text nanos t ∷ es) p) (worker_line len text nanos t p)
  unfolding entries
  line-Leaves len text nanos t es p takes =
      let file = (worker_line len text nanos t p).0 in
      let (saved, full) = worker_line-content len text nanos t p takes in
      let (told, stamp) = worker_line-told len text nanos t p in
      let later = entries mm.check es p.told.mode_name p.client.laser_timestamp in
      (
        rw (told, stamp)
            (sym (append_assoc (content_of file) _ later)
              ∙ ap (λ b. b ++ later) saved
              ∙ append_assoc p.recorder.buffer _ later),
        full,
      )

  step-Leaves :
      (len : ℤ) (e : Event D) (es : List (Event D)) (p : Program G D)
      (x : Option File × Program G D)
      → IsSaving e
      → step len e p ≡ some x
      → Leaves es (ahead (e ∷ es) p) x
  unfolding step entries
  step-Leaves len (line text nanos t) es p x takes e =
      subst (Leaves es (ahead (line text nanos t ∷ es) p)) (some-eq e)
        (line-Leaves len text nanos t es p takes)
  step-Leaves len read_fails es p x takes e =
      quiet-Leaves es _ (read_failed p) x (λ u h. ahead-Same es u _ _ _ (read_failed-Same p u h)) e
  step-Leaves len (message unparsable) es p x takes e =
      quiet-Leaves es _ (client_thread unparsable p) x (λ u h. absurd ((other-Same p u).0 h)) e
  step-Leaves len (message not_object) es p x takes e =
      quiet-Leaves es _ (client_thread not_object p) x
        (λ u h. ahead-Same es u _ _ _ ((other-Same p u).1 h)) e
  step-Leaves len (message (object time m d)) es p x takes e =
      quiet-Leaves es _ (client_thread (object time m d) p) x
        (λ u h. ahead-Same es u _ _ _ (object-Same time m d p u h)) e

  -- The files hold `all` with the buffer of the program that is left, and none is empty.
  abbrev Hold : Text → List File × Program G D → Type 0
  Hold all (files, q) =
      (flatten (map (λ f. f.content) files) ++ q.recorder.buffer ≡ all)
      × All (λ f. is_empty f.content ≡ false) files

  with_file-Hold :
      (file : Option File) (files : List File) (q : Program G D) (rest all : Text)
      → content_of file ++ rest ≡ all
      → HasContent file
      → Hold rest (files, q)
      → Hold all (with_file file files, q)
  unfolding flatten
  with_file-Hold none files q rest all e full (held, rests) = (held ∙ e, rests)
  with_file-Hold (some f) files q rest all e full (held, rests) =
      (append_assoc f.content _ _ ∙ ap (◌++◌ f.content) held ∙ e, (full, rests))

  -- As long as the program runs and every file opens and takes its text, the files hold, one after
  -- the other and with the recorder's buffer at the end, what the buffer held before and then the
  -- entry of each valid line that came in while the scanner's last message said SCANNING, once and in
  -- order; and no file is empty. So when a directory cannot be made nothing is lost.
  pub steps-entries :
      (file_length_ms : ℤ) (es : List (Event D)) (p q : Program G D) (files : List File)
      → All IsSaving es
      → steps file_length_ms es p ≡ some (files, q)
      → (flatten (map (λ f. f.content) files) ++ q.recorder.buffer
          ≡ p.recorder.buffer ++ entries mm.check es p.told.mode_name p.client.laser_timestamp)
        × All (λ f. is_empty f.content ≡ false) files
  unfolding steps entries flatten
  steps-entries len [] p q files takes e =
      subst (Hold (p.recorder.buffer ++ [])) (some-eq e) (sym (append-nil p.recorder.buffer), tt)
  steps-entries len (e ∷ es) p q files (take, takes) h =
      let (x, (e1, k1)) = bind-some (step len e p) _ (files, q) h in
      let (y, (e2, k2)) = bind-some (steps len es x.1) _ (files, q) k1 in
      let (left, full) = step-Leaves len e es p x take e1 in
      subst (Hold (ahead (e ∷ es) p)) (some-eq k2) (
        with_file-Hold x.0 y.0 y.1 (ahead es x.1) (ahead (e ∷ es) p) left full
          (steps-entries len es x.1 y.1 y.0 takes e2))
