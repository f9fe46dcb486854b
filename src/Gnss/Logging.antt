-- ===== src/Gnss/Logging.antt =====
-- What the GNSS client records: the CSV lines of a log, the raw lines that no log bounds, and
-- the sanitised last line.
use mandeye_controller.Prelude.{
  ℕ, ◌+◌, ◌%◌, ◌<◌, ◌≡◌, refl, sym, ap, ◌∙◌, true, ◌||◌, Option, none, some, List, [], ◌∷◌, ◌++◌,
  append-nil, append_assoc, arith, ltb, if◌then◌else◌, Text, All, Bool-cases, Option-cases, ◌/◌,
  inl, inr,
}
use mathlib.Core.List.{flatten}
use mandeye_controller.Livox.{Doubles}
use mandeye_controller.Gnss.{
  Client, Minmea, worker_line, stop_log, retrieve_data, raw_entry_to_line, gga_to_csv_line,
  sanitize_line, is_print, is_space,
}

-- What happens to a logging client: a line with the clocks that the worker reads, or a hand-over.
pub data Op : Type 0 where
  line : Text → ℕ → ℕ → Op
  take : Op

abbrev pub one_of {ℓ κ} : {A : Type ℓ} {B : Type κ} → (A → B) → Option A → List B
one_of f none = []
one_of f (some a) = f a ∷ []

module _ (G : Type 0) ⦃fl : Doubles⦄ ⦃mm : Minmea G⦄ where
  -- The CSV lines of the valid GGA sentences, in order.
  pub csv_lines : List Op → List Text
  csv_lines [] = []
  csv_lines (line s stamp millis ∷ ops) =
      (if mm.check s
        then one_of (λ (g : G). gga_to_csv_line g stamp millis) (mm.parse_gga s)
        else [])
      ++ csv_lines ops
  csv_lines (take ∷ ops) = csv_lines ops

module _ {G : Type 0} ⦃fl : Doubles⦄ ⦃mm : Minmea G⦄ where
  pub hand_overs : List Op → Client G → List (List Text) × Client G
  hand_overs [] c = ([], c)
  hand_overs (line s stamp millis ∷ ops) c = hand_overs ops (worker_line s stamp millis c)
  hand_overs (take ∷ ops) c = let (bs, d) = hand_overs ops (retrieve_data c).1 in (c.buffer ∷ bs, d)

  worker_line-buffer :
      (s : Text) (stamp millis : ℕ) (c : Client G)
      → c.is_logging ≡ true
      → ((worker_line s stamp millis c).is_logging ≡ true)
        × ((worker_line s stamp millis c).buffer
            ≡ c.buffer
              ++ (if mm.check s
                  then one_of (λ (g : G). gga_to_csv_line g stamp millis) (mm.parse_gga s)
                  else []))
  unfolding worker_line
  worker_line-buffer s stamp millis c h = elim (Bool-cases (mm.check s)) [
    | inr bad ↦ rw bad (h, sym (append-nil c.buffer))
    | inl good ↦ elim (Option-cases (mm.parse_gga s)) [
      | inl other ↦ rw (good, other) (h, sym (append-nil c.buffer))
      | inr (g, gga) ↦ rw (good, gga) (h, rw h refl)
    ]
  ]

  -- While logging, the buffers handed over and the one that is left hold the CSV line of every
  -- valid GGA sentence, once and in order, after what was there; and the client keeps logging.
  pub hand_overs-csv_lines :
      (ops : List Op) (c : Client G)
      → c.is_logging ≡ true
      → ((hand_overs ops c).1.is_logging ≡ true)
        × (flatten (hand_overs ops c).0 ++ (hand_overs ops c).1.buffer
            ≡ c.buffer ++ csv_lines G ops)
  unfolding hand_overs csv_lines retrieve_data flatten
  hand_overs-csv_lines [] c h = (h, sym (append-nil c.buffer))
  hand_overs-csv_lines (line s stamp millis ∷ ops) c h =
      let (still, grown) = worker_line-buffer s stamp millis c h in
      let (on, same) = hand_overs-csv_lines ops (worker_line s stamp millis c) still in
      (on, same ∙ ap (λ b. b ++ csv_lines G ops) grown ∙ append_assoc c.buffer _ _)
  hand_overs-csv_lines (take ∷ ops) c h =
      let (on, same) = hand_overs-csv_lines ops (retrieve_data c).1 h in
      (on, append_assoc c.buffer _ _ ∙ ap (◌++◌ c.buffer) same)

  -- With a log that has been stopped, a sentence that passes the check adds no CSV line and is
  -- still kept as a raw line.
  pub worker_line_stopped :
      (s : Text) (stamp millis : ℕ) (c : Client G)
      → mm.check s ≡ true
      → ((worker_line s stamp millis (stop_log c)).buffer ≡ c.buffer)
        × ((worker_line s stamp millis (stop_log c)).rawbuffer
            ≡ c.rawbuffer ++ (raw_entry_to_line s stamp millis ∷ []))
  unfolding worker_line stop_log
  worker_line_stopped s stamp millis c good = elim (Option-cases (mm.parse_gga s)) [
    | inl other ↦ rw (good, other) (refl, refl)
    | inr (g, gga) ↦ rw (good, gga) (refl, refl)
  ]

-- A byte that a terminal can show.
abbrev pub IsShown : ℕ → Type 0
IsShown c = (is_print c || is_space c) ≡ true

hex_digit-IsShown : (d : ℕ) → d < 16 → IsShown (if ltb d 10 then d + 48 else d + 55)
hex_digit-IsShown d h = ground arith

-- Whatever bytes a line has, the sanitised line has only printable ones and white space, and a
-- line of such bytes is left as it is.
pub sanitize_line-IsShown :
    (s : Text)
    → All (λ c. c < 256) s
    → All IsShown (sanitize_line s) × (All IsShown s → sanitize_line s ≡ s)
unfolding sanitize_line
sanitize_line-IsShown [] h = (tt, λ k. refl)
sanitize_line-IsShown (c ∷ s) h =
    let (shown, kept) = sanitize_line-IsShown s h.1 in
    elim (Bool-cases (is_print c || is_space c)) [
      | inl good ↦ rw good ((good, shown), λ k. ap (◌∷◌ c) (kept k.1))
      | inr bad ↦ rw bad (
        (
          refl,
          (
            refl,
            (
              refl,
              (
                hex_digit-IsShown (c / 16) (omega (arith, h.0)),
                (hex_digit-IsShown (c % 16) (omega arith), (refl, shown)),
              ),
            ),
          ),
        ),
        λ k. cc,
      )
    ]
