-- ===== src/Rtk/Config/Starts.antt =====
-- The program's starts, Rtk/Config.antt: without a file, with one that is not an object, and again.
use mandeye_controller.Prelude.{
  ℕ, ◌≡◌, ◌≢◌, refl, sym, ◌∙◌, ap, Bool, true, false, Option, none, some, List, [], ◌∷◌, Text,
  arith, Option-cases, some-eq, inl, inr,
}
use mandeye_controller.Prelude.Int.{ℤ}
use mandeye_controller.Prelude.Options.{◌>>=◌, bind-some}
use mandeye_controller.Rtk.Config.{
  Json, Settings, Disk, at, put_at, Row, place, saved, rows, read_config, write_rows, create_config,
  get_config, settle, configure, from_environment, config_path, directory_name_of, Begun, launch,
  begin,
}
use mandeye_controller.Rtk.Config.Paths.{JsonLaws, at-put_at_other, put_at_found}
use mandeye_controller.Rtk.Config.Written.{distinct, apart_from}
use mandeye_controller.Rtk.Config.Restart.{configure-restart, rows-distinct}

module _ (js : Json) (laws : JsonLaws js) where
  open js use {J}

  -- Each assignment finds something at its place.
  abbrev Open : List (Row js) → J → Type 0
  Open [] j = Unit {0}
  Open (r ∷ rs) j = ((u : J) × (at js (place js r) j ≡ some u)) × Open rs j

  Open-put_at :
      (p : List Text) (v : J) (rs : List (Row js)) (j : J) {o : J}
      → put_at js p v j ≡ some o
      → apart_from js p rs ≡ true
      → Open rs j
      → Open rs o
  Open-put_at p v [] j e h open_rows = tt
  Open-put_at p v (r ∷ rs) j e h ((u, here), there) = (
    (u, at-put_at_other js laws p (place js r) v j e (ground arith) ∙ here),
    Open-put_at p v rs j e (ground arith) there,
  )

  write_rows-Open :
      (rs : List (Row js)) (s : Settings) (j : J)
      → distinct js rs ≡ true
      → Open rs j
      → (o : J) × (write_rows js rs s j ≡ some o)
  unfolding write_rows
  write_rows-Open [] s j h open_rows = (j, refl)
  write_rows-Open (r ∷ rs) s j h ((u, here), there) =
      let (a, first) = put_at_found js laws (place js r) (saved js r s) u j here in
      let (o, done) =
        write_rows-Open rs s a (ground arith)
          (Open-put_at (place js r) (saved js r s) rs j first (ground arith) there) in
      (o, rw first done)

  at-null : (p : List Text) → at js p js.null ≡ some js.null
  unfolding at
  at-null [] = refl
  at-null (k ∷ p) = rw (laws.entry-null k) (at-null p)

  Open-null : (rs : List (Row js)) → Open rs js.null
  Open-null [] = tt
  Open-null (r ∷ rs) = ((js.null, at-null (place js r)), Open-null rs)

  -- Not an object: nothing is read, and the file is to be created from it.
  read_config_other :
      (j : J) (s : Settings) → js.is_object j ≡ false → read_config js j s ≡ (false, (j, s))
  unfolding read_config
  read_config_other j s h = rw h refl

  -- Without a file a start takes the settings as they are and makes a file, from which every later
  -- start takes them, if the texts can be printed and the file be written and read.
  pub configure-first :
      (d : Disk js) (s : Settings)
      → d.file ≡ none
      → d.readable ≡ true
      → d.writable ≡ true
      → ((o : J)
          → write_rows js (rows js) s js.null ≡ some o
          → (f : js.Content) × (js.print o ≡ some f))
      → (d' : Disk js) × ((configure js d s ≡ some (s, d'))
          × ((t : Settings) → configure js d' t ≡ some (s, d')))
  unfolding configure settle create_config get_config
  configure-first d s no_file readable writable printable =
      let (o, written) =
        write_rows-Open (rows js) s js.null (rows-distinct js laws) (Open-null (rows js)) in
      let (f, printed) = printable o written in
      let kept : Disk js = record d { file = some f } in
      let first : configure js d s ≡ some (s, kept) =
        rw (no_file, read_config_other js.null s laws.null-object, written, printed, writable)
          refl in
      (kept, (first, λ t. configure-restart js laws d s t readable writable first))

  at-other :
      (k : Text) (p : List Text) (v j : J)
      → js.is_object j ≡ false
      → j ≢ js.null
      → put_at js (k ∷ p) v j ≡ none
  unfolding put_at
  at-other k p v j h other = elim (Option-cases (js.entry k j)) [
    | inl missing ↦ rw missing refl
    | inr (u, found) ↦ elim (laws.entry-object k j found) [
      | inl is_one ↦ absurd cc
      | inr is_null ↦ absurd (other is_null)
    ]
  ]

  -- A file that holds a value that is neither an object nor null ends the program.
  pub configure-ends :
      (d : Disk js) (s : Settings) (j : J) {f : js.Content}
      → d.file ≡ some f
      → d.readable ≡ true
      → js.parse f ≡ some j
      → js.is_object j ≡ false
      → j ≢ js.null
      → configure js d s ≡ none
  unfolding configure settle create_config get_config write_rows rows
  configure-ends d s j here readable parsed h other =
      rw (here, readable, parsed, read_config_other j s h, at-other _ _ _ j h other) refl

  -- When the file can be read and written at the first start, a second start that finds at the same
  -- path the file that the first has left, and whose environment has a baud rate that is a number,
  -- takes the settings of the first, whatever else its environment says, and so starts the same
  -- clients; only the directory's name is that of its own environment.
  pub begin-restart {ℓ} :
      (stoi : Text → Option ℤ) (getenv getenv' : Text → Option Text) {B : Type ℓ} (constant : ℕ → B)
      (opens : Text → B → Bool) (disks disks' : Text → Disk js) {b : Begun js B} {t : Settings}
      → (disks (config_path getenv)).readable ≡ true
      → (disks (config_path getenv)).writable ≡ true
      → begin js stoi getenv constant opens disks ≡ some b
      → from_environment stoi getenv' ≡ some t
      → config_path getenv' ≡ config_path getenv
      → disks' (config_path getenv) ≡ b.disk
      → begin js stoi getenv' constant opens disks'
        ≡ some (record b { directory_name = directory_name_of getenv' })
  unfolding begin
  begin-restart stoi getenv getenv' {B} constant opens disks disks' {b} {t} readable writable e e'
        path left =
      let d = disks (config_path getenv) in
      let ((s', d'), (made, h)) =
        bind-some (from_environment stoi getenv >>= configure js d) _ b e in
      let (s, (first, h₁)) = bind-some (from_environment stoi getenv) _ (s', d') made in
      let second = configure-restart js laws d s t readable writable h₁ in
      let found : disks' (config_path getenv') ≡ d' =
        ap disks' path ∙ left ∙ sym (ap (λ c. c.disk) (some-eq h)) in
      let begun : Text → Begun js B = λ q. record {
        path = q;
        disk = d';
        directory_name = directory_name_of getenv';
        settings = s';
        launched = launch constant opens s';
      } in
      rw (e', found, second)
        (ap (λ q. some (begun q)) path
          ∙ ap (λ (c : Begun js B). some (record c { directory_name = directory_name_of getenv' }))
              (some-eq h))
