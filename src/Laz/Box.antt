-- ===== src/Laz/Box.antt =====
-- The bounding box and the header of code/save_laz.cpp.
use mandeye_controller.Prelude.{
  ℕ, ◌≡◌, refl, map, true, false, List, [], ◌∷◌, inl, inr, Bool-cases, All,
}
use mandeye_controller.Prelude.Int.{ℤ}
use mandeye_controller.Livox.{Point}
use mandeye_controller.Laz.{
  Reals, Range, Bounds, Header, max, min, inverted, widen, bound, bounding_box, header_of,
}

module _ ⦃re : Reals⦄ where
  open re use {D, metres}

  -- The least and the greatest of some numbers, from the limits on.
  abbrev pub range_of : List D → Range D → Range D
  range_of [] r = r
  range_of (a ∷ rest) r =
      range_of rest (record { lowest = min r.lowest a; largest = max r.largest a })

  abbrev pub limits : Range D
  limits = record { lowest = re.largest; largest = re.lowest }

  -- The header is to have the number of records `n` and the box of all points.
  abbrev pub IsHeader : List Point → ℕ → Header D → Type 0
  IsHeader buffer n h =
      ((h.number_of_point_records ≡ n)
        × ((h.points_by_first_return ≡ n) × (h.points_by_second_return ≡ 0)))
      × ((h.bounds.along_x ≡ range_of (map (λ p. metres p.point.x) buffer) limits)
          × ((h.bounds.along_y ≡ range_of (map (λ p. metres p.point.y) buffer) limits)
              × (h.bounds.along_z ≡ range_of (map (λ p. metres p.point.z) buffer) limits)))

  bound-range_of :
      (buffer : List Point) (b : Bounds D)
      → ((bound buffer b).along_x ≡ range_of (map (λ p. metres p.point.x) buffer) b.along_x)
        × (((bound buffer b).along_y ≡ range_of (map (λ p. metres p.point.y) buffer) b.along_y)
            × ((bound buffer b).along_z ≡ range_of (map (λ p. metres p.point.z) buffer) b.along_z))
  unfolding bound widen
  bound-range_of [] b = (refl, (refl, refl))
  bound-range_of (p ∷ ps) b = bound-range_of ps _

  pub header_of-IsHeader : (buffer : List Point) (n : ℕ) → IsHeader buffer n (header_of buffer n)
  unfolding header_of bounding_box inverted
  header_of-IsHeader buffer n = ((refl, (refl, refl)), bound-range_of buffer _)

-- What the comparison of doubles satisfies on numbers: no number is below itself, a number below
-- another is on either side of every third, and the limits are limits.
pub record IsOrdered ⦃re : Reals⦄ : Type 0 where
  pub irrefl : (a : re.D) → re.lt a a ≡ false
  pub cotrans : (a b c : re.D) → re.lt a b ≡ false → re.lt b c ≡ false → re.lt a c ≡ false
  pub asym : (a b : re.D) → re.lt a b ≡ true → re.lt b a ≡ false

module _ ⦃re : Reals⦄ (ord : IsOrdered) where
  open re use {D, lt, metres}

  -- `a` lies in the range.
  abbrev pub Within : D → Range D → Type 0
  Within a r = (lt a r.lowest ≡ false) × (lt r.largest a ≡ false)

  abbrev pub Encloses : Bounds D → Point → Type 0
  Encloses b p =
      Within (metres p.point.x) b.along_x
      × (Within (metres p.point.y) b.along_y × Within (metres p.point.z) b.along_z)

  widen-new : (n : ℤ) (r : Range D) → Within (metres n) (widen n r)
  unfolding widen
  widen-new n r = (
    elim (Bool-cases (lt (metres n) r.lowest)) [
      | inl below ↦ rw below (ord.irrefl (metres n))
      | inr fine ↦ rw fine fine
    ],
    elim (Bool-cases (lt r.largest (metres n))) [
      | inl above ↦ rw above (ord.irrefl (metres n))
      | inr fine ↦ rw fine fine
    ],
  )

  widen-old : (n : ℤ) (a : D) (r : Range D) → Within a r → Within a (widen n r)
  unfolding widen
  widen-old n a r (low, high) = (
    elim (Bool-cases (lt (metres n) r.lowest)) [
      | inl below ↦
          rw below (ord.cotrans a r.lowest (metres n) low (ord.asym (metres n) r.lowest below))
      | inr fine ↦ rw fine low
    ],
    elim (Bool-cases (lt r.largest (metres n))) [
      | inl above ↦
          rw above (ord.cotrans (metres n) r.largest a (ord.asym r.largest (metres n) above) high)
      | inr fine ↦ rw fine high
    ],
  )

  bound-old :
      (q : Point) (buffer : List Point) (b : Bounds D) → Encloses b q → Encloses (bound buffer b) q
  unfolding bound
  bound-old q [] b h = h
  bound-old q (p ∷ ps) b (x, (y, z)) = bound-old q ps _ (
    widen-old p.point.x (metres q.point.x) b.along_x x,
    (
      widen-old p.point.y (metres q.point.y) b.along_y y,
      widen-old p.point.z (metres q.point.z) b.along_z z,
    ),
  )

  bound-new : (buffer : List Point) (b : Bounds D) → All (Encloses (bound buffer b)) buffer
  unfolding bound
  bound-new [] b = tt
  bound-new (p ∷ ps) b = (
    bound-old p ps _ (
      widen-new p.point.x b.along_x,
      (widen-new p.point.y b.along_y, widen-new p.point.z b.along_z),
    ),
    bound-new ps _,
  )

  -- Every point of the buffer lies in the header's box, whichever of them are written.
  pub bounding_box-Encloses : (buffer : List Point) → All (Encloses (bounding_box buffer)) buffer
  unfolding bounding_box
  bounding_box-Encloses buffer = bound-new buffer _
