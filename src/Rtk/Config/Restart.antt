-- ===== src/Rtk/Config/Restart.antt =====
-- The configuration of Rtk/Config.antt over two starts of the program, and the files that end it.
use mandeye_controller.Prelude.{
  ◌≡◌, refl, sym, ◌∙◌, Bool, true, false, not, ◌&&◌, Option, some, List, [], ◌∷◌, Text, arith,
  text_eq, some-eq, Bool-cases, Option-cases, inl, inr, ap, if◌then◌else◌,
}
use mandeye_controller.Prelude.Int.{ℤ}
use mandeye_controller.Prelude.Options.{◌>>=◌, bind-some}
use mandeye_controller.Rtk.Config.{
  Json, Settings, Disk, at, put_at, Row, text_row, number_row, place, saved, touch, rows, read_rows,
  read_config, write_rows, create_config, get_config, settle, configure,
}
use mandeye_controller.Rtk.Config.Paths.{JsonLaws, apart}
use mandeye_controller.Rtk.Config.Written.{distinct, take_over, write_rows-Holds, read_rows-Holds}

module _ (js : Json) where
  open js use {J}

  -- The values that were read at some assignments.
  abbrev Values : List (Row js) → Type 0
  Values [] = Unit {0}
  Values (text_row path of set ∷ rs) = Text × Values rs
  Values (number_row path of set ∷ rs) = ℤ × Values rs

  abbrev overwrite : (rs : List (Row js)) → Values rs → Settings → Settings
  overwrite [] xs s = s
  overwrite (text_row path of set ∷ rs) (x, xs) s = overwrite rs xs (set x s)
  overwrite (number_row path of set ∷ rs) (x, xs) s = overwrite rs xs (set x s)

  -- A read that succeeds gives the same values from all settings.
  read_again :
      (rs : List (Row js)) (j : J) (s : Settings) (o : J) (s' : Settings)
      → read_rows js rs j s ≡ (true, (o, s'))
      → (xs : Values rs) × ((s' ≡ overwrite rs xs s)
          × ((t : Settings) → read_rows js rs j t ≡ (true, (o, overwrite rs xs t))))
  unfolding read_rows
  read_again [] j s o s' e = (tt, (cc, λ t. cc))
  read_again (text_row path of set ∷ rs) j s o s' e = elim (Option-cases (at js path j)) [
    | inl missing ↦ absurd (let e' = rw missing at e in cc)
    | inr (v, found) ↦ elim (Option-cases (js.get_text v)) [
      | inl wrong ↦ absurd (let e' = rw (found, wrong) at e in cc)
      | inr (x, good) ↦
          let (xs, (same, again)) =
            read_again rs (touch js path v j) (set x s) o s' (rw (found, good) at e) in
          ((x, xs), (same, λ t. rw (found, good) (again (set x t))))
    ]
  ]
  read_again (number_row path of set ∷ rs) j s o s' e = elim (Option-cases (at js path j)) [
    | inl missing ↦ absurd (let e' = rw missing at e in cc)
    | inr (v, found) ↦ elim (Option-cases (js.get_int v)) [
      | inl wrong ↦ absurd (let e' = rw (found, wrong) at e in cc)
      | inr (x, good) ↦
          let (xs, (same, again)) =
            read_again rs (touch js path v j) (set x s) o s' (rw (found, good) at e) in
          ((x, xs), (same, λ t. rw (found, good) (again (set x t))))
    ]
  ]

  all_overwritten :
      (xs : Values (rows js)) (s t : Settings) → overwrite (rows js) xs s ≡ overwrite (rows js) xs t
  unfolding rows
  all_overwritten xs s t = refl

  all_taken : (s t : Settings) → take_over js (rows js) s t ≡ s
  unfolding rows
  all_taken s t = refl

  -- The file that an assignment's value was read from gives it again.
  abbrev is_config : J → Bool
  is_config j = js.is_object j && not (js.has_no_entry j)

  read_config_again :
      (j : J) (s t : Settings) (o : J) (s' : Settings)
      → read_config js j s ≡ (true, (o, s'))
      → read_config js j t ≡ (true, (o, s'))
  unfolding read_config
  read_config_again j s t o s' e = elim (Bool-cases (is_config j)) [
    | inl yes_it_is ↦
        let (xs, (same, again)) = read_again (rows js) j s o s' (rw yes_it_is at e) in
        rw (yes_it_is, same, all_overwritten xs s t) (again t)
    | inr no_it_is_not ↦ absurd (let e' = rw no_it_is_not at e in cc)
  ]

module _ (js : Json) (laws : JsonLaws js) where
  open js use {J}

  abbrev is_below : List Text → Bool
  is_below [] = false
  is_below (k ∷ p) = true

  abbrev all_below : List (Row js) → Bool
  all_below [] = true
  all_below (r ∷ rs) = is_below (place js r) && all_below rs

  put_at-object :
      (p : List Text) (v j : J) {o : J}
      → is_below p ≡ true
      → put_at js p v j ≡ some o
      → is_config js o ≡ true
  unfolding put_at
  put_at-object [] v j h e = absurd cc
  put_at-object (k ∷ p) v j h e =
      let (a, (found, e₁)) = bind-some (js.entry k j) _ _ e in
      let (b, (below, e₂)) = bind-some (put_at js p v a) _ _ e₁ in laws.put-object k b j e₂

  write_rows-object :
      (r : Row js) (rs : List (Row js)) (s : Settings) (j : J) {o : J}
      → all_below (r ∷ rs) ≡ true
      → write_rows js (r ∷ rs) s j ≡ some o
      → is_config js o ≡ true
  unfolding write_rows
  write_rows-object r [] s j h e =
      let (a, (first, e₁)) = bind-some (put_at js (place js r) (saved js r s) j) _ _ e in
      put_at-object (place js r) (saved js r s) j (ground arith) (first ∙ e₁)
  write_rows-object r (q ∷ rs) s j h e =
      let (a, (first, e₁)) = bind-some (put_at js (place js r) (saved js r s) j) _ _ e in
      write_rows-object q rs s a (ground arith) e₁

  written-object :
      (s : Settings) (j : J) {o : J} → write_rows js (rows js) s j ≡ some o → is_config js o ≡ true
  unfolding rows
  written-object s j e = write_rows-object _ _ s j refl e

  pub rows-distinct : distinct js (rows js) ≡ true
  unfolding rows apart text_eq
  rows-distinct = refl

  read_config_written :
      (s t : Settings) (j o : J)
      → write_rows js (rows js) s j ≡ some o
      → (o' : J) × (read_config js o t ≡ (true, (o', s)))
  unfolding read_config
  read_config_written s t j o e =
      let (o', done) =
        read_rows-Holds js laws (rows js) s t o
          (write_rows-Holds js laws (rows js) s j e rows-distinct) rows-distinct in
      (o', rw (written-object s j e) (rw (all_taken js s t) at done))

  -- What was written is read.
  get_config_written :
      (d : Disk js) (o : J) {f : js.Content}
      → d.readable ≡ true
      → js.print o ≡ some f
      → get_config js (record d { file = some f }) ≡ o
  unfolding get_config
  get_config_written d o readable printed = rw (readable, laws.print-back o printed) refl

  move_along :
      (t : Settings) {s s' : Settings} {d d' : Disk js}
      → ◌≡◌ {A = Option (Settings × Disk js)} (some (s, d)) (some (s', d'))
      → configure js d t ≡ some (s, d)
      → configure js d' t ≡ some (s', d')
  move_along t same after =
      ap (λ q. configure js q t) (ap (λ q. q.1) (sym (some-eq same))) ∙ (after ∙ same)

  settle_again :
      (d : Disk js) (s t : Settings) (r : Bool × (J × Settings)) {s' : Settings} {d' : Disk js}
      → d.readable ≡ true
      → d.writable ≡ true
      → read_config js (get_config js d) s ≡ r
      → settle js d r ≡ some (s', d')
      → configure js d' t ≡ some (s', d')
  unfolding configure settle create_config
  settle_again d s t (true, (o, read)) readable writable e h =
      let after : configure js d t ≡ some (read, d) =
        rw (read_config_again js (get_config js d) s t o read e) refl in
      move_along t h after
  settle_again d s t (false, (o, read)) {s'} {d'} readable writable e h =
      let (d₁, (created, h₁)) = bind-some (create_config js o read d) _ _ h in
      let (f, (made, h₂)) = bind-some (write_rows js (rows js) read o >>= js.print) _ _ created in
      let (o₁, (rows_written, printed)) = bind-some (write_rows js (rows js) read o) _ _ made in
      let (o₂, again) = read_config_written read t o o₁ rows_written in
      let kept : Disk js = record d { file = some f } in
      let same : d₁ ≡ kept = sym (some-eq h₂) ∙ ap (λ b. if b then kept else d) writable in
      let after : configure js kept t ≡ some (read, kept) =
        rw (get_config_written d o₁ readable printed, again) refl in
      let result : some (read, kept) ≡ some (s', d') = rw (sym same) h₁ in move_along t result after

  -- A second start of the program, from whatever settings, takes the settings of the first from the
  -- file and leaves the file as it is, if the file can be read and could be written.
  pub configure-restart :
      (d : Disk js) (s t : Settings) {s' : Settings} {d' : Disk js}
      → d.readable ≡ true
      → d.writable ≡ true
      → configure js d s ≡ some (s', d')
      → configure js d' t ≡ some (s', d')
  unfolding configure
  configure-restart d s t readable writable e =
      settle_again d s t (read_config js (get_config js d) s) readable writable refl e
