-- ===== src/Rtk/Config/Written.antt =====
-- write_rows and read_rows of Rtk/Config.antt: what the configuration's assignments leave in the
-- value, and what a read of it gives.
use mandeye_controller.Prelude.{◌≡◌, refl, ◌∙◌, Bool, true, ◌&&◌, some, List, [], ◌∷◌, Text, arith}
use mandeye_controller.Prelude.Options.{bind-some}
use mandeye_controller.Rtk.Config.{
  Json, Settings, at, put_at, Row, text_row, number_row, place, saved, touch, read_rows, write_rows,
}
use mandeye_controller.Rtk.Config.Paths.{JsonLaws, apart, at-put_at, at-put_at_other, put_at_found}

module _ (js : Json) where
  open js use {J}

  -- No path leads through another.
  abbrev pub apart_from : List Text → List (Row js) → Bool
  apart_from p [] = true
  apart_from p (r ∷ rs) = (apart p (place js r) && apart (place js r) p) && apart_from p rs

  abbrev pub distinct : List (Row js) → Bool
  distinct [] = true
  distinct (r ∷ rs) = apart_from (place js r) rs && distinct rs

  -- The values of some assignments stand where they were put.
  abbrev pub Holds : List (Row js) → Settings → J → Type 0
  Holds [] s j = Unit {0}
  Holds (r ∷ rs) s j = (at js (place js r) j ≡ some (saved js r s)) × Holds rs s j

  -- The settings of some assignments are taken from `s`.
  abbrev pub take_over : List (Row js) → (s : Settings) → Settings → Settings
  take_over [] s t = t
  take_over (text_row path of set ∷ rs) s t = take_over rs s (set (of s) t)
  take_over (number_row path of set ∷ rs) s t = take_over rs s (set (of s) t)

module _ (js : Json) (laws : JsonLaws js) where
  open js use {J}

  -- A path apart from all that is written keeps its value.
  pub at-write_rows :
      (p : List Text) (rs : List (Row js)) (s : Settings) (j : J) {o : J}
      → write_rows js rs s j ≡ some o
      → apart_from js p rs ≡ true
      → at js p o ≡ at js p j
  unfolding write_rows
  at-write_rows p [] s j e h = cc
  at-write_rows p (r ∷ rs) s j e h =
      let (a, (first, e₁)) = bind-some (put_at js (place js r) (saved js r s) j) _ _ e in
      at-write_rows p rs s a e₁ (ground arith)
      ∙ at-put_at_other js laws (place js r) p (saved js r s) j first (ground arith)

  pub write_rows-Holds :
      (rs : List (Row js)) (s : Settings) (j : J) {o : J}
      → write_rows js rs s j ≡ some o
      → distinct js rs ≡ true
      → Holds js rs s o
  unfolding write_rows
  write_rows-Holds [] s j e h = tt
  write_rows-Holds (r ∷ rs) s j e h =
      let (a, (first, e₁)) = bind-some (put_at js (place js r) (saved js r s) j) _ _ e in
      (
        at-write_rows (place js r) rs s a e₁ (ground arith)
            ∙ at-put_at js laws (place js r) (saved js r s) j first,
        write_rows-Holds rs s a e₁ (ground arith),
      )

  Holds-touch :
      (p : List Text) (v : J) (rs : List (Row js)) (s : Settings) (j : J)
      → at js p j ≡ some v
      → apart_from js p rs ≡ true
      → Holds js rs s j
      → Holds js rs s (touch js p v j)
  unfolding touch
  Holds-touch p v [] s j found h holds = tt
  Holds-touch p v (r ∷ rs) s j found h (here, there) =
      let (o, done) = put_at_found js laws p v v j found in
      (
        rw done (at-put_at_other js laws p (place js r) v j done (ground arith) ∙ here),
        Holds-touch p v rs s j found (ground arith) there,
      )

  pub read_rows-Holds :
      (rs : List (Row js)) (s t : Settings) (j : J)
      → Holds js rs s j
      → distinct js rs ≡ true
      → (o : J) × (read_rows js rs j t ≡ (true, (o, take_over js rs s t)))
  unfolding read_rows
  read_rows-Holds [] s t j holds h = (j, refl)
  read_rows-Holds (text_row path of set ∷ rs) s t j (here, there) h =
      let v = js.text (of s) in
      let (o, done) =
        read_rows-Holds rs s (set (of s) t) (touch js path v j)
          (Holds-touch path v rs s j here (ground arith) there) (ground arith) in
      (o, rw (here, laws.text-back (of s)) done)
  read_rows-Holds (number_row path of set ∷ rs) s t j (here, there) h =
      let v = js.number (of s) in
      let (o, done) =
        read_rows-Holds rs s (set (of s) t) (touch js path v j)
          (Holds-touch path v rs s j here (ground arith) there) (ground arith) in
      (o, rw (here, laws.number-back (of s)) done)
