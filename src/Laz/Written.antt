-- ===== src/Laz/Written.antt =====
-- What saveLaz of code/save_laz.cpp leaves in the file, and when it gives up.
use mandeye_controller.Prelude.{
  ℕ, ◌%◌, ◌≡◌, Bool, Option, some, List, [], ◌∷◌, ◌++◌, map, length, Text,
}
use mandeye_controller.Livox.{Point}
use mandeye_controller.Laz.{Reals, Header, LasPoint, Laszip}

-- LASzip's documented behaviour, with the records that a writer holds, its header and the point
-- that is being filled: a call that does not fail has done what its name says and nothing else.
pub record IsWriter (D : Type 0) ⦃lz : Laszip D⦄ : Type 0 where
  pub header : lz.Writer → Option (Header D)
  pub records : lz.Writer → List (LasPoint D × (D × (D × D)))
  pub filled : lz.Writer → Option (LasPoint D)
  pub placed : lz.Writer → Option (D × (D × D))
  pub create_law : (w : lz.Writer) → lz.create ≡ some w → records w ≡ []
  pub header_pointer_law :
      (v w : lz.Writer) → lz.get_header_pointer v ≡ some w → records w ≡ records v
  pub fill_header_law :
      (h : Header D) (w : lz.Writer)
      → (header (lz.fill_header h w) ≡ some h) × (records (lz.fill_header h w) ≡ records w)
  pub open_law :
      (f : Text) (c : Bool) (v w : lz.Writer)
      → lz.open_writer f c v ≡ some w
      → (header w ≡ header v) × (records w ≡ records v)
  pub point_pointer_law :
      (v w : lz.Writer)
      → lz.get_point_pointer v ≡ some w
      → (header w ≡ header v) × (records w ≡ records v)
  pub fill_law :
      (p : LasPoint D) (w : lz.Writer)
      → (header (lz.fill_point p w) ≡ header w)
        × ((records (lz.fill_point p w) ≡ records w) × (filled (lz.fill_point p w) ≡ some p))
  pub place_law :
      (a : D × (D × D)) (v w : lz.Writer)
      → lz.set_coordinates a v ≡ some w
      → (header w ≡ header v)
        × ((records w ≡ records v) × ((filled w ≡ filled v) × (placed w ≡ some a)))
  pub write_law :
      (p : LasPoint D) (a : D × (D × D)) (v w : lz.Writer)
      → filled v ≡ some p
      → placed v ≡ some a
      → lz.write_point v ≡ some w
      → (header w ≡ header v) × (records w ≡ records v ++ ((p, a) ∷ []))
  pub count_law : (w : lz.Writer) (n : ℕ) → lz.get_point_count w ≡ some n → n ≡ length (records w)
  pub close_law :
      (v w : lz.Writer)
      → lz.close_writer v ≡ some w
      → (header w ≡ header v) × (records w ≡ records v)
  pub destroy_law :
      (v w : lz.Writer) → lz.destroy v ≡ some w → (header w ≡ header v) × (records w ≡ records v)

module _ ⦃re : Reals⦄ where
  open re use {D, metres, seconds}

  -- The record that a point is to become: the lidar's id in 8 bits, the tag in 5, and metres.
  abbrev pub record_of : Point → LasPoint D × (D × (D × D))
  record_of p = (
    record {
      intensity = p.point.reflectivity;
      gps_time = seconds p.timestamp;
      classification = p.point.tag % 32;
      user_data = p.laser_id % 256;
    },
    (metres p.point.x, (metres p.point.y, metres p.point.z)),
  )

  module _ ⦃lz : Laszip re.D⦄ (law : IsWriter re.D) where
    open lz use {Writer}

    -- `w` has the header of `v` and, after its records, those of the points.
    abbrev Extends : Writer → List Point → Writer → Type 0
    Extends v ps w =
        (law.header w ≡ law.header v) × (law.records w ≡ law.records v ++ map record_of ps)
