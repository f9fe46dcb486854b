-- ===== src/Laz/Total.antt =====
-- saveLaz of code/save_laz.cpp with a LASzip none of whose calls fails.
use mandeye_controller.Prelude.{
  ℕ, zero, suc, ◌+◌, ◌<◌, ◌≡◌, refl, Bool, true, Option, none, some, List, arith, ltb, inl, inr,
  Bool-cases, length, Text, is_some,
}
use mandeye_controller.Prelude.Options.{◌>>=◌}
use mandeye_controller.Livox.{Point}
use mandeye_controller.Laz.{
  Reals, Laszip, decimation_step, write_one, write_points, open_file, close_file, save_laz,
}
use mandeye_controller.Laz.Counts.{thinned_at, count_points-thinned, decimation_step-positive}

pub record NeverFails (D : Type 0) ⦃lz : Laszip D⦄ : Type 0 where
  pub creates : is_some lz.create ≡ true
  pub gives_header : (w : lz.Writer) → is_some (lz.get_header_pointer w) ≡ true
  pub opens : (f : Text) (c : Bool) (w : lz.Writer) → is_some (lz.open_writer f c w) ≡ true
  pub gives_point : (w : lz.Writer) → is_some (lz.get_point_pointer w) ≡ true
  pub places : (a : D × (D × D)) (w : lz.Writer) → is_some (lz.set_coordinates a w) ≡ true
  pub writes : (w : lz.Writer) → is_some (lz.write_point w) ≡ true
  pub counts : (w : lz.Writer) → is_some (lz.get_point_count w) ≡ true
  pub closes : (w : lz.Writer) → is_some (lz.close_writer w) ≡ true
  pub destroys : (w : lz.Writer) → is_some (lz.destroy w) ≡ true

bind-is_some {ℓ κ} :
    {A : Type ℓ} {B : Type κ} (m : Option A) (f : A → Option B)
    → is_some m ≡ true
    → ((a : A) → is_some (f a) ≡ true)
    → is_some (m >>= f) ≡ true
bind-is_some none f h k = h
bind-is_some (some a) f h k = k a

module _ ⦃re : Reals⦄ ⦃lz : Laszip re.D⦄ (ok : NeverFails re.D) where
  write_one-is_some : (p : Point) (w : lz.Writer) → is_some (write_one p w) ≡ true
  unfolding write_one
  write_one-is_some p w = bind-is_some (lz.set_coordinates _ _) _ (ok.places _ _) ok.writes

  -- The loop ends, and never asks for a point past the end.
  write_points-is_some :
      (fuel i step : ℕ) (buffer : List Point) (w : lz.Writer)
      → 0 < step
      → 0 < fuel
      → length buffer < fuel + i
      → is_some (write_points fuel i step buffer w) ≡ true
  unfolding write_points
  write_points-is_some zero i step buffer w positive some_left enough =
      absurd (omega (arith, some_left))
  write_points-is_some (suc fuel) i step buffer w positive some_left enough =
      elim (Bool-cases (ltb i (length buffer))) [
        | inr past ↦ rw past refl
        | inl inside ↦
            let below : i < length buffer = ground arith in
            let (p, (at, rest)) = thinned_at step positive i buffer (ground arith) in
            rw (inside, at)
              (bind-is_some (write_one p w) (write_points fuel (i + step) step buffer)
                (write_one-is_some p w)
                (λ v.
                  write_points-is_some fuel (i + step) step buffer v positive
                    (omega (arith, enough, below)) (omega (arith, enough, positive))))
      ]

  -- When no call of LASzip fails, saveLaz ends and reports a file, whatever the buffer, also an empty
  -- one: each loop ends within one round more than the buffer has points.
  pub save_laz-is_some :
      (filename : Text) (buffer : List Point) (elapsed : re.D) (file_size : lz.Writer → Option ℕ)
      → is_some (save_laz filename buffer elapsed file_size) ≡ true
  unfolding save_laz open_file close_file
  save_laz-is_some filename buffer elapsed file_size =
      let size = length buffer in
      let step = decimation_step size in
      let positive = decimation_step-positive size in
      let counted =
        count_points-thinned step positive (suc size) 0 0 buffer (omega arith) (omega arith) in
      rw counted (
        bind-is_some (open_file filename _) _
          (bind-is_some lz.create _ ok.creates (λ created.
            bind-is_some (lz.get_header_pointer created) _ (ok.gives_header created)
              (λ w. bind-is_some (lz.open_writer filename _ _) _ (ok.opens _ _ _) ok.gives_point)))
          (λ ready.
            bind-is_some (write_points (suc size) 0 step buffer ready) _
              (write_points-is_some (suc size) 0 step buffer ready positive (omega arith)
                (omega arith))
              (λ written.
                bind-is_some (close_file written) _
                  (bind-is_some (lz.get_point_count written) _ (ok.counts written) (λ n.
                    bind-is_some (lz.close_writer written) _ (ok.closes written) (λ closed.
                      bind-is_some (lz.destroy closed) _ (ok.destroys closed) (λ v. refl))))
                  (λ file. refl))))
