-- ===== src/Rtk/Messages.antt =====
-- What the messages of the scanner change in extras/rtkNmea, and what a failed read leaves.
use mandeye_controller.Prelude.{
  ℕ, ◌≡◌, refl, sym, ap, ◌∙◌, ◌+◌, none, some, ltb, inl, inr, Bool-cases, Text, some-eq,
}
use mandeye_controller.Prelude.Options.{◌>>=◌, bind-some}
use mandeye_controller.Livox.{Doubles}
use mandeye_controller.Rtk.{
  Recorder, Field, absent, wrong, value, unparsable, not_object, object, Program, client_thread,
  set_field, set_time, set_mode, set_directory, read_failed,
}

abbrev pub or_old {ℓ} : {A : Type ℓ} → Field A → A → A
or_old absent a = a
or_old wrong a = a
or_old (value b) a = b

abbrev pub or_stamp {ℓ} : {D : Type ℓ} → (D → ℕ) → Field D → ℕ → ℕ
or_stamp to_u64 absent n = n
or_stamp to_u64 wrong n = n
or_stamp to_u64 (value d) n = to_u64 d

module _ ⦃fl : Doubles⦄ {G : Type 0} where
  open fl use {D, to_u64}

  -- What the recorder and the next entries depend on.
  abbrev pub Same : Program G D → Recorder → Text → ℕ → Type 0
  Same q r mode stamp =
      (q.recorder ≡ r) × ((q.told.mode_name ≡ mode) × (q.client.laser_timestamp ≡ stamp))

  pub Same-of :
      (p q : Program G D)
      → some p ≡ some q
      → Same q p.recorder p.told.mode_name p.client.laser_timestamp
  Same-of p q e =
      let back = sym (some-eq e) in
      (
        ap (λ x. x.recorder) back,
        (ap (λ x. x.told.mode_name) back, ap (λ x. x.client.laser_timestamp) back),
      )

  time-Same :
      (f : Field D) (p q : Program G D)
      → set_field set_time f p ≡ some q
      → Same q p.recorder p.told.mode_name (or_stamp to_u64 f p.client.laser_timestamp)
  time-Same absent p q e = Same-of p q e
  time-Same wrong p q e = absurd cc
  time-Same (value d) p q e = Same-of (set_time d p) q e

  mode-Same :
      (f : Field Text) (p q : Program G D)
      → set_field set_mode f p ≡ some q
      → Same q p.recorder (or_old f p.told.mode_name) p.client.laser_timestamp
  mode-Same absent p q e = Same-of p q e
  mode-Same wrong p q e = absurd cc
  mode-Same (value m) p q e = Same-of (set_mode m p) q e

  directory-Same :
      (f : Field Text) (p q : Program G D)
      → set_field set_directory f p ≡ some q
      → Same q p.recorder p.told.mode_name p.client.laser_timestamp
  directory-Same absent p q e = Same-of p q e
  directory-Same wrong p q e = absurd cc
  directory-Same (value d) p q e = Same-of (set_directory d p) q e

  pub object-Same :
      (time : Field D) (m d : Field Text) (p q : Program G D)
      → client_thread (object time m d) p ≡ some q
      → Same q p.recorder
          (or_old m p.told.mode_name)
          (or_stamp to_u64 time p.client.laser_timestamp)
  unfolding client_thread
  object-Same time m d p q e =
      let (v, (e2, e3)) = bind-some (set_field set_time time p >>= set_field set_mode m) _ q e in
      let (u, (e1, e2')) = bind-some (set_field set_time time p) _ v e2 in
      let (r1, (m1, s1)) = time-Same time p u e1 in
      let (r2, (m2, s2)) = mode-Same m u v e2' in
      let (r3, (m3, s3)) = directory-Same d v q e3 in
      (r3 ∙ r2 ∙ r1, (m3 ∙ m2 ∙ ap (or_old m) m1, s3 ∙ s2 ∙ s1))

  pub read_failed-Same :
      (p u : Program G D)
      → read_failed p ≡ some u
      → Same u p.recorder p.told.mode_name p.client.laser_timestamp
  unfolding read_failed
  read_failed-Same p u e = elim (Bool-cases (ltb (p.client.error_counter + 1) 10)) [
    | inr tenth ↦
        let back : read_failed p ≡ none = rw tenth refl in
        absurd (let e' : none ≡ some u = sym back ∙ e in cc)
    | inl fewer ↦
        let counted : Program G D = record p {
          client = record p.client { error_counter = p.client.error_counter + 1 };
        } in
        let back : read_failed p ≡ some counted = rw fewer refl in Same-of counted u (sym back ∙ e)
  ]

  pub other-Same :
      (p u : Program G D)
      → (client_thread unparsable p ≡ some u → ⊥)
        × (client_thread not_object p ≡ some u
            → Same u p.recorder p.told.mode_name p.client.laser_timestamp)
  unfolding client_thread
  other-Same p u = (λ e. cc, Same-of p u)
