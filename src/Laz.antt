-- ===== src/Laz.antt =====
-- code/save_laz.h and code/save_laz.cpp: a buffer of points becomes a LAS file. LASzip is the
-- instance argument `Laszip`: a call that the source tests for failure gives `none` when it fails,
-- and what the source stores through the header's and the point's pointer is `fill_header` and
-- `fill_point`. The doubles are the instance argument `Reals`.
pub mod Counts
pub mod Box
pub mod Written
pub mod Total
use mandeye_controller.Prelude.{
  starts_with, ℕ, zero, suc, ◌+◌, ◌/◌, ◌%◌, Bool, true, false, ◌&&◌, ◌||◌, Option, none, some, List,
  [], ◌∷◌, ltb, ◌==◌, if◌then◌else◌, Text, codes, length, get_elem?,
}
use mandeye_controller.Prelude.Int.{ℤ}
use mandeye_controller.Prelude.Options.{◌>>=◌}
use mandeye_controller.Livox.{Point}

-- `metres` is 0.001 * n, `seconds` is n * 1e-9, `lowest` and `largest` are those of
-- std::numeric_limits, `scale` is the float 0.0001f, `megabytes` is float(n) / (1024*1024), and
-- `unset` is -1.f.
pub record Reals : Type 1 where
  pub D : Type 0
  pub lt : D → D → Bool
  pub lowest : D
  pub largest : D
  pub metres : ℤ → D
  pub seconds : ℕ → D
  pub scale : D
  pub megabytes : ℕ → D
  pub unset : D

pub record Range (D : Type 0) : Type 0 where
  pub lowest : D
  pub largest : D

pub record Bounds (D : Type 0) : Type 0 where
  pub along_x : Range D
  pub along_y : Range D
  pub along_z : Range D

-- The fields of laszip_header that the source sets; the return counts are those of index 0 and 1,
-- and the three scale factors are one.
pub record Header (D : Type 0) : Type 0 where
  pub file_source_id : ℕ
  pub global_encoding : ℕ
  pub version_major : ℕ
  pub version_minor : ℕ
  pub point_data_format : ℕ
  pub point_data_record_length : ℕ
  pub number_of_point_records : ℕ
  pub points_by_first_return : ℕ
  pub points_by_second_return : ℕ
  pub scale_factor : D
  pub bounds : Bounds D

-- The fields of laszip_point that the source sets: user_data has 8 bits and classification 5.
pub record LasPoint (D : Type 0) : Type 0 where
  pub intensity : ℕ
  pub gps_time : D
  pub classification : ℕ
  pub user_data : ℕ

pub record Laszip (D : Type 0) : Type 1 where
  pub Writer : Type 0
  pub create : Option Writer
  pub get_header_pointer : Writer → Option Writer
  pub fill_header : Header D → Writer → Writer
  pub open_writer : Text → Bool → Writer → Option Writer
  pub get_point_pointer : Writer → Option Writer
  pub fill_point : LasPoint D → Writer → Writer
  pub set_coordinates : D × (D × D) → Writer → Option Writer
  pub write_point : Writer → Option Writer
  pub get_point_count : Writer → Option ℕ
  pub close_writer : Writer → Option Writer
  pub destroy : Writer → Option Writer

pub record LazStats (D : Type 0) : Type 0 where
  pub filename : Text
  pub points_count : ℕ
  pub decimation_step : ℕ
  pub save_duration_sec1 : D
  pub save_duration_sec2 : D
  pub size_mb : D

-- The ceiling of the quotient of doubles is that of the numbers, for any buffer that fits a memory.
-- As step is positive already, the test that follows in the source changes nothing but a zero.
unfoldable pub decimation_step : ℕ → ℕ
decimation_step size =
    let step = if ltb 4000000 size then (size + 1999999) / 2000000 else 1 in
    if ltb step 1 then 1 else step

-- The counting loop from index `i`; `fuel` bounds its rounds, and `none` is a loop that goes on.
unfoldable pub count_points : (fuel i step size num_points : ℕ) → Option ℕ
count_points zero i step size num_points = none
count_points (suc fuel) i step size num_points =
    let rest = count_points fuel (i + step) step size (num_points + 1) in
    if ltb i size then rest else some num_points

-- strstr(…) != 0.
unfoldable pub contains : Text → Text → Bool
unfolding starts_with
contains t [] = starts_with t []
contains t (b ∷ s) = starts_with t (b ∷ s) || contains t s

module _ ⦃re : Reals⦄ where
  open re use {D, lt, metres, seconds}

  -- std::max(a, b) and std::min(a, b).
  abbrev pub max : D → D → D
  max a b = if lt a b then b else a

  abbrev pub min : D → D → D
  min a b = if lt b a then b else a

  unfoldable pub widen : ℤ → Range D → Range D
  widen n r = let a = metres n in record { lowest = min r.lowest a; largest = max r.largest a }

  -- The box before the first point.
  unfoldable pub inverted : Range D
  inverted = record { lowest = re.largest; largest = re.lowest }

  unfoldable pub bound : List Point → Bounds D → Bounds D
  unfolding widen
  bound [] b = b
  bound (p ∷ ps) b = bound ps (record {
    along_x = widen p.point.x b.along_x;
    along_y = widen p.point.y b.along_y;
    along_z = widen p.point.z b.along_z;
  })

  unfoldable pub bounding_box : List Point → Bounds D
  unfolding inverted bound
  bounding_box buffer =
      bound buffer (record { along_x = inverted; along_y = inverted; along_z = inverted })

  unfoldable pub header_of : List Point → ℕ → Header D
  unfolding bounding_box
  header_of buffer num_points = record {
    file_source_id = 4711;
    global_encoding = 1;
    version_major = 1;
    version_minor = 2;
    point_data_format = 1;
    point_data_record_length = 28;
    number_of_point_records = num_points;
    points_by_first_return = num_points;
    points_by_second_return = 0;
    scale_factor = re.scale;
    bounds = bounding_box buffer;
  }

  -- user_data is the line first, and is overwritten with the lidar.
  unfoldable pub las_point : Point → LasPoint D
  las_point p = record {
    intensity = p.point.reflectivity;
    gps_time = seconds p.timestamp;
    classification = p.point.tag % 32;
    user_data = p.laser_id % 256;
  }

  unfoldable pub coordinates : Point → D × (D × D)
  coordinates p = (metres p.point.x, (metres p.point.y, metres p.point.z))

  module _ ⦃lz : Laszip D⦄ where
    open lz use {Writer}

    unfoldable pub write_one : Point → Writer → Option Writer
    unfolding las_point coordinates
    write_one p w =
        lz.set_coordinates (coordinates p) (lz.fill_point (las_point p) w) >>= lz.write_point

    -- What `at` gives: it throws past the end.
    abbrev pub write_at : Option Point → Writer → Option Writer
    write_at none w = none
    write_at (some p) w = write_one p w

    -- The writing loop from index `i`; `none` is a failed call, or a loop that goes on.
    unfoldable pub write_points : (fuel i step : ℕ) → List Point → Writer → Option Writer
    write_points zero i step buffer w = none
    write_points (suc fuel) i step buffer w =
        if ltb i (length buffer)
        then write_at (get_elem? buffer i) w >>= write_points fuel (i + step) step buffer
        else some w

    -- The calls before the first point is written.
    unfoldable pub open_file : Text → Header D → Option Writer
    unfolding contains
    open_file filename header = lz.create >>= λ created. lz.get_header_pointer created >>= λ w.
        lz.open_writer filename (contains (codes ".laz") filename) (lz.fill_header header w)
        >>= lz.get_point_pointer

    -- The calls after the last point.
    unfoldable pub close_file : Writer → Option (ℕ × Writer)
    close_file w = lz.get_point_count w >>= λ p_count.
        lz.close_writer w >>= λ closed. lz.destroy closed >>= λ destroyed. some (p_count, destroyed)

    -- The writer after its last call stands for the file. `elapsed` is the time that writing took,
    -- and `file_size` asks the file system, `none` for a file that is not there.
    abbrev pub stats_of : Text → ℕ → ℕ → D → Option ℕ → LazStats D
    stats_of filename p_count step elapsed bytes = record {
      filename = filename;
      points_count = p_count;
      decimation_step = step;
      save_duration_sec1 = elapsed;
      save_duration_sec2 = re.unset;
      size_mb = elim bytes [ none ↦ re.unset | some n ↦ re.megabytes n ];
    }

    unfoldable pub save_laz :
        Text → List Point → D → (Writer → Option ℕ) → Option (LazStats D × Writer)
    unfolding decimation_step count_points header_of open_file write_points close_file
    save_laz filename buffer elapsed file_size =
        let size = length buffer in
        let step = decimation_step size in
        count_points (suc size) 0 step size 0 >>= λ num_points.
        open_file filename (header_of buffer num_points) >>= λ ready.
        write_points (suc size) 0 step buffer ready >>= λ written.
        close_file written >>= λ (p_count, file).
        some (stats_of filename p_count step elapsed (file_size file), file)
