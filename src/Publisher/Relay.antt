-- ===== src/Publisher/Relay.antt =====
-- The scanner's reports, code/publisher.cpp, as they arrive at the recorder of extras/rtkNmea and at
-- the camera program of extras/libcamera: the fields of the JSON under the names that both sides use.
use mandeye_controller.Prelude.{ℕ, ◌≡◌, refl, ap, ◌∙◌, Option, none, some, List, [], ◌∷◌, map, Text}
use mandeye_controller.Prelude.Int.{ℤ}
use mandeye_controller.Livox.{Doubles}
use mandeye_controller.Gnss.{Minmea}
use mandeye_controller.App
use mandeye_controller.Publisher.{Report}
use mandeye_controller.Rtk
use mandeye_controller.Rtk.{
  Field, absent, value, Message, object, Readings, File, client_thread, worker_line, step, steps,
  with_file,
}
use mandeye_controller.Rtk.Lines.{worker_line-told}
use mandeye_controller.Camera.Program

-- A field of the longer report, absent from the shorter.
abbrev pub detail : (App.Publisher → Text) → Option App.Publisher → Field Text
detail f none = absent
detail f (some p) = value (f p)

abbrev pub detail_or : (App.Publisher → Text) → Option App.Publisher → Text → Text
detail_or f none old = old
detail_or f (some p) old = f p

abbrev pub mode_of : App.Publisher → Text
mode_of p = p.mode

abbrev pub directory_of : App.Publisher → Text
directory_of p = p.continous_scan_directory

-- The recorder is told a report, or reads a line of its receiver.
pub data Input : Type 0 where
  hears : Report → Input
  reads : Text → (nanos : ℕ) → Readings → Input

-- The last report with the field, or what was known before.
abbrev pub last_told : (App.Publisher → Text) → List Input → Text → Text
last_told f [] old = old
last_told f (hears r ∷ is) old = last_told f is (detail_or f r.details old)
last_told f (reads text nanos t ∷ is) old = last_told f is old

-- What the camera program is told.
abbrev pub told_of : Option App.Publisher → Program.Event
told_of none = Program.told none none
told_of (some p) = Program.told (some p.mode) (some p.continous_scan_directory)

abbrev pub camera_events : List Input → List Program.Event
camera_events [] = []
camera_events (hears r ∷ is) = told_of r.details ∷ camera_events is
camera_events (reads text nanos t ∷ is) = camera_events is

module _ ⦃fl : Doubles⦄ where
  open fl use {D, of_nat}

  -- publish() of a report, and the reading of its JSON.
  unfoldable pub message_of : Report → Message D
  message_of r =
      object (value (of_nat r.time)) (detail mode_of r.details) (detail directory_of r.details)

  abbrev pub event_of : Input → Rtk.Event D
  event_of (hears r) = Rtk.message (message_of r)
  event_of (reads text nanos t) = Rtk.line text nanos t

camera_told :
    (o : Option App.Publisher) (c : Program.Program)
    → ((Program.happen (told_of o) c).mode ≡ detail_or mode_of o c.mode)
      × ((Program.happen (told_of o) c).continous_scan_target
          ≡ detail_or directory_of o c.continous_scan_target)
unfolding Program.happen Program.client_thread
camera_told none c = (refl, refl)
camera_told (some d) c = (refl, refl)

-- The camera program's mode and directory are those of the last longer report.
camera_events-told :
    (is : List Input) (c : Program.Program)
    → ((Program.happen_all (camera_events is) c).mode ≡ last_told mode_of is c.mode)
      × ((Program.happen_all (camera_events is) c).continous_scan_target
          ≡ last_told directory_of is c.continous_scan_target)
unfolding Program.happen_all
camera_events-told [] c = (refl, refl)
camera_events-told (hears r ∷ is) c =
    let (mode, directory) = camera_told r.details c in
    let (mode', directory') = camera_events-told is (Program.happen (told_of r.details) c) in
    (mode' ∙ ap (last_told mode_of is) mode, directory' ∙ ap (last_told directory_of is) directory)
camera_events-told (reads text nanos t ∷ is) c = camera_events-told is c

module _ ⦃fl : Doubles⦄ {G : Type 0} where
  open fl use {D, of_nat}

  -- What the recorder has after one report.
  abbrev Told : Option App.Publisher → Rtk.Program G D → Message D → Type 0
  Told details p m =
      (q : Rtk.Program G D) × ((client_thread m p ≡ some q)
        × ((q.told.mode_name ≡ detail_or mode_of details p.told.mode_name)
            × (q.told.continuous_scan_target
                ≡ detail_or directory_of details p.told.continuous_scan_target)))

  details-Told :
      (time : D) (o : Option App.Publisher) (p : Rtk.Program G D)
      → Told o p (object (value time) (detail mode_of o) (detail directory_of o))
  unfolding client_thread
  details-Told time none p = (_, (refl, (refl, refl)))
  details-Told time (some d) p = (_, (refl, (refl, refl)))

  report-Told : (r : Report) (p : Rtk.Program G D) → Told r.details p (message_of r)
  unfolding message_of
  report-Told r p = details-Told (of_nat r.time) r.details p

module _ ⦃fl : Doubles⦄ {G : Type 0} ⦃mm : Minmea G⦄ where
  open fl use {D, of_nat}

  recorder-told :
      (len : ℤ) (is : List Input) (p : Rtk.Program G D)
      → (files : List File) × ((q : Rtk.Program G D) × ((steps len (map event_of is) p
              ≡ some (files, q))
            × ((q.told.mode_name ≡ last_told mode_of is p.told.mode_name)
                × (q.told.continuous_scan_target
                    ≡ last_told directory_of is p.told.continuous_scan_target))))
  unfolding steps step
  recorder-told len [] p = ([], (p, (refl, (refl, refl))))
  recorder-told len (hears r ∷ is) p =
      let (u, (heard, (mode, directory))) = report-Told r p in
      let (files, (q, (later, (mode', directory')))) = recorder-told len is u in
      (
        files,
        (
          q,
          (
            rw (heard, later) refl,
            (
              mode' ∙ ap (last_told mode_of is) mode,
              directory' ∙ ap (last_told directory_of is) directory,
            ),
          ),
        ),
      )
  recorder-told len (reads text nanos t ∷ is) p =
      let (file, u) = worker_line len text nanos t p in
      let told = (worker_line-told len text nanos t p).0 in
      let (files, (q, (later, (mode', directory')))) = recorder-told len is u in
      (
        with_file file files,
        (
          q,
          (
            rw later refl,
            (
              mode' ∙ ap (λ d. last_told mode_of is d.mode_name) told,
              directory' ∙ ap (λ d. last_told directory_of is d.continuous_scan_target) told,
            ),
          ),
        ),
      )

  -- Whatever part of the scanner's reports arrives, between whatever lines of its receiver, the
  -- recorder goes on; and it and the camera program have the mode and the directory of the last
  -- longer report that has arrived, or those that they had before.
  pub relayed :
      (len : ℤ) (is : List Input) (p : Rtk.Program G D) (c : Program.Program)
      → ((files : List File) × ((q : Rtk.Program G D) × ((steps len (map event_of is) p
                ≡ some (files, q))
              × ((q.told.mode_name ≡ last_told mode_of is p.told.mode_name)
                  × (q.told.continuous_scan_target
                      ≡ last_told directory_of is p.told.continuous_scan_target)))))
        × (((Program.happen_all (camera_events is) c).mode ≡ last_told mode_of is c.mode)
            × ((Program.happen_all (camera_events is) c).continous_scan_target
                ≡ last_told directory_of is c.continous_scan_target))
  relayed len is p c = (recorder-told len is p, camera_events-told is c)
