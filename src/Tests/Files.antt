-- ===== src/Tests/Files.antt =====
-- Saving points, on concrete inputs.
use mandeye_controller.Prelude.{
  ℕ, ◌*◌, ◌≡◌, refl, true, Option, none, some, List, [], ◌∷◌, ◌++◌, arith, ltb, codes, map, length,
  is_some,
}
use mandeye_controller.Prelude.Int.{pos, negsuc}
use mandeye_controller.Livox.{Point}
use mandeye_controller.Laz.{
  Reals, Header, LasPoint, Laszip, header_of, save_laz, stats_of, LazStats,
}
use mandeye_controller.Laz.Box.{IsOrdered}
use mandeye_controller.Laz.Written.{record_of}
use mandeye_controller.Laz.Total.{NeverFails, save_laz-is_some}

-- Natural numbers in the place of doubles, for points with no negative coordinate.
instance abbrev millimetres : Reals
millimetres = record {
  D = ℕ;
  lt = ltb;
  lowest = 0;
  largest = 1000000;
  metres = λ n. elim n [ pos a ↦ a | negsuc a ↦ 0 ];
  seconds = λ n. n;
  scale = 1;
  megabytes = λ n. n;
  unset = 0;
}

millimetres-IsOrdered : IsOrdered ⦃re = millimetres⦄
millimetres-IsOrdered = record {
  irrefl = λ a. ground arith;
  cotrans = λ a b c h k. ground arith;
  asym = λ a b h. ground arith;
}

abbrev Place : Type 0
Place = ℕ × (ℕ × ℕ)

-- A writer that keeps what it is given and never fails.
record Kept : Type 0 where
  header : Option (Header ℕ)
  filled : Option (LasPoint ℕ)
  placed : Option Place
  records : List (LasPoint ℕ × Place)

abbrev with_record : Kept → Option (LasPoint ℕ) → Option Place → Kept
with_record w (some p) (some a) = record w { records = w.records ++ ((p, a) ∷ []) }
with_record w _ _ = w

instance abbrev kept_points : Laszip ℕ
kept_points = record {
  Writer = Kept;
  create = some (record { header = none; filled = none; placed = none; records = [] });
  get_header_pointer = λ w. some w;
  fill_header = λ h w. record w { header = some h };
  open_writer = λ f c w. some w;
  get_point_pointer = λ w. some w;
  fill_point = λ p w. record w { filled = some p };
  set_coordinates = λ a w. some (record w { placed = some a });
  write_point = λ w. some (with_record w w.filled w.placed);
  get_point_count = λ w. some (length w.records);
  close_writer = λ w. some w;
  destroy = λ w. some w;
}

kept_points-NeverFails : NeverFails ℕ ⦃lz = kept_points⦄
kept_points-NeverFails = record {
  creates = refl;
  gives_header = λ w. refl;
  opens = λ f c w. refl;
  gives_point = λ w. refl;
  places = λ a w. refl;
  writes = λ w. refl;
  counts = λ w. refl;
  closes = λ w. refl;
  destroys = λ w. refl;
}

abbrev at_corner : ℕ → Point
at_corner n = record {
  point = record { x = pos n; y = pos (2 * n); z = negsuc n; reflectivity = 7; tag = 0 };
  timestamp = 1000;
  laser_id = 1;
}

abbrev corners : List Point
corners = at_corner 3 ∷ at_corner 1 ∷ at_corner 2 ∷ []

abbrev no_size : Kept → Option ℕ
no_size w = none

abbrev written_corners : Kept
written_corners = record {
  header = some (header_of ⦃re = millimetres⦄ corners 3);
  filled = some (record_of ⦃re = millimetres⦄ (at_corner 2)).0;
  placed = some (record_of ⦃re = millimetres⦄ (at_corner 2)).1;
  records = map (record_of ⦃re = millimetres⦄) corners;
}

save_laz-is_some_example :
    is_some (save_laz ⦃re = millimetres⦄ ⦃lz = kept_points⦄ (codes "a.laz") corners 5 no_size)
    ≡ true
save_laz-is_some_example =
    save_laz-is_some ⦃re = millimetres⦄ ⦃lz = kept_points⦄ kept_points-NeverFails (codes "a.laz")
      corners 5 no_size

abbrev corner_stats : LazStats ℕ
corner_stats = stats_of ⦃re = millimetres⦄ ⦃lz = kept_points⦄ (codes "a.laz") 3 1 5 none
