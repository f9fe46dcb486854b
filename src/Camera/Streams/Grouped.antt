-- ===== src/Camera/Streams/Grouped.antt =====
-- The mappings of Camera/Streams.antt: those of one buffer's planes, and those that an address has
-- after several starts of the camera.
use mandeye_controller.Prelude.{
  ℕ, ◌+◌, ◌≡◌, ◌≢◌, refl, sym, ap, ◌∙◌, Option, none, some, List, [], ◌∷◌, ◌++◌, map, append-nil,
  append_assoc, arith, All, Bool-cases, inl, inr, ◌==◌, ==_iff, if◌then◌else◌,
}
use mathlib.Core.Path.{subst}
use mathlib.Core.List.{flatten}
use mandeye_controller.Prelude.Assoc.{lookup, insert, lookup-insert}
use mandeye_controller.Camera.Streams.{
  Plane, Buffer, Mapping, map_planes, Mapped, or_none, mmap, image_memory, map_buffers,
}

-- Planes that follow one another and share a file.
pub record Group : Type 0 where
  pub first : Plane
  pub others : List Plane

abbrev pub members : Group → List Plane
members g = g.first ∷ g.others

abbrev pub Shares : Group → Type 0
Shares g = All (λ p. p.fd ≡ g.first.fd) g.others

abbrev pub lengths : List Plane → ℕ
lengths [] = 0
lengths (p ∷ ps) = p.length + lengths ps

abbrev pub mapping_of : Group → Mapping
mapping_of g = record { file = g.first.fd; size = lengths (members g) }

-- Neighbouring groups have different files.
abbrev pub Separate : List Group → Type 0
Separate [] = Unit {0}
Separate (g ∷ []) = Unit {0}
Separate (g ∷ h ∷ gs) = (g.first.fd ≢ h.first.fd) × Separate (h ∷ gs)

-- The groups of some planes.
pub record Grouping (planes : List Plane) (groups : List Group) : Type 0 where
  pub all_planes : flatten (map members groups) ≡ planes
  pub share : All Shares groups
  pub separate : Separate groups

-- What the loop makes of the planes from `p` on, with `total` bytes before it.
MappedFrom : ℕ → Plane → List Plane → Type 0
MappedFrom total p rest =
    (others : List Plane) × ((groups : List Group) × (Grouping (p ∷ rest)
          (record { first = p; others = others } ∷ groups)
        × (map_planes total (p ∷ rest)
            ≡ record { file = p.fd; size = total + lengths (p ∷ others) } ∷ map mapping_of groups)))

module _ (p q : Plane) (rest others : List Plane) (groups : List Group)
    (later : Grouping (q ∷ rest) (record { first = q; others = others } ∷ groups)) where
  joined :
      p.fd ≡ q.fd → Grouping (p ∷ q ∷ rest) (record { first = p; others = q ∷ others } ∷ groups)
  unfolding flatten
  joined e = record {
    all_planes = ap (λ ps. p ∷ ps) later.all_planes;
    share = ((sym e, subst (λ f. All (λ r. r.fd ≡ f) others) (sym e) later.share.0), later.share.1);
    separate = moved groups later.separate;
  }
    where
      moved :
          (gs : List Group)
          → Separate (record { first = q; others = others } ∷ gs)
          → Separate (record { first = p; others = q ∷ others } ∷ gs)
      moved [] s = tt
      moved (g ∷ gs) (differ, s) = (λ same. differ (sym e ∙ same), s)

  parted :
      p.fd ≢ q.fd
      → Grouping
          (p ∷ q ∷ rest)
          (record { first = p; others = [] } ∷ record { first = q; others = others } ∷ groups)
  unfolding flatten
  parted differ = record {
    all_planes = ap (λ ps. p ∷ ps) later.all_planes;
    share = (tt, later.share);
    separate = (differ, later.separate);
  }

mapped_from : (total : ℕ) (p : Plane) (rest : List Plane) → MappedFrom total p rest
unfolding map_planes MappedFrom flatten
mapped_from total p [] = (
  [],
  (
    [],
    (
      record { all_planes = refl; share = (tt, tt); separate = tt },
      ap (λ n. record { file = p.fd; size = n } ∷ []) (omega arith),
    ),
  ),
)
mapped_from total p (q ∷ rest) = elim (Bool-cases (p.fd == q.fd)) [
  | inl same ↦
      let (others, (groups, (later, mapped))) = mapped_from (total + p.length) q rest in
      let e = (==_iff p.fd q.fd).0 same in
      (
        q ∷ others,
        (
          groups,
          (
            joined p q rest others groups later e,
            rw same (
                mapped
                ∙ rw e (
                    ap (λ n. record { file = q.fd; size = n } ∷ map mapping_of groups)
                      (omega arith))),
          ),
        ),
      )
  | inr other ↦
      let (others, (groups, (later, mapped))) = mapped_from 0 q rest in
      (
        [],
        (
          record { first = q; others = others } ∷ groups,
          (
            parted p q rest others groups later
                (λ e. absurd (let t = (==_iff p.fd q.fd).1 e in cc)),
            rw other (
                ap (λ n. record { file = p.fd; size = n } ∷ map_planes 0 (q ∷ rest)) (omega arith)
                ∙ ap (λ ms. record { file = p.fd; size = total + (p.length + 0) } ∷ ms)
                    (mapped
                      ∙ ap (λ n. record { file = q.fd; size = n } ∷ map mapping_of groups)
                          (omega arith))),
          ),
        ),
      )
]

-- The planes of a buffer fall into groups, in their order, of neighbours that share a file, such that
-- neighbouring groups have different files; and the mappings are one for each group, of its file
-- and of the sum of its planes' lengths.
pub map_planes-groups :
    (planes : List Plane)
    → (groups : List Group) × (Grouping planes groups
        × (map_planes 0 planes ≡ map mapping_of groups))
unfolding map_planes MappedFrom flatten
map_planes-groups [] = ([], (record { all_planes = refl; share = tt; separate = tt }, refl))
map_planes-groups (p ∷ rest) =
    let (others, (groups, (grouping, mapped))) = mapped_from 0 p rest in
    (
      record { first = p; others = others } ∷ groups,
      (
        grouping,
        mapped ∙ ap (λ n. record { file = p.fd; size = n } ∷ map mapping_of groups) (omega arith),
      ),
    )

-- The mappings of the buffers at an address, in their order.
abbrev pub mapped_at : ℕ → List Buffer → List Mapping
mapped_at address [] = []
mapped_at address (b ∷ bs) =
    let rest = mapped_at address bs in
    if b.address == address then map_planes 0 b.planes ++ rest else rest

map_buffers-mmap :
    (address : ℕ) (bs : List Buffer) (mapped : Mapped)
    → mmap address (map_buffers bs mapped) ≡ mmap address mapped ++ mapped_at address bs
unfolding map_buffers mmap
map_buffers-mmap address [] mapped = sym (append-nil _)
map_buffers-mmap address (b ∷ bs) mapped =
    let new = mmap b.address mapped ++ map_planes 0 b.planes in
    let later = map_buffers-mmap address bs (insert b.address new mapped) in
    let found = lookup-insert b.address address new mapped in
    let rest = mapped_at address bs in
    elim (Bool-cases (b.address == address)) [
      | inr other ↦
          let kept : lookup address (insert b.address new mapped) ≡ lookup address mapped =
            found ∙ rw other refl in
          rw other (later ∙ ap (λ o. or_none o ++ rest) kept)
      | inl same ↦
          let e = (==_iff b.address address).0 same in
          let put : lookup address (insert b.address new mapped) ≡ some new =
            found ∙ rw same refl in
          rw same (
            later
            ∙ ap (λ o. or_none o ++ rest) put
            ∙ append_assoc (mmap b.address mapped) (map_planes 0 b.planes) rest
            ∙ ap (λ a. mmap a mapped ++ (map_planes 0 b.planes ++ rest)) e)
    ]

abbrev pub first_of : List Mapping → Option Mapping
first_of [] = none
first_of (m ∷ ms) = some m

abbrev pub or_first : Option Mapping → Option Mapping → Option Mapping
or_first none next = next
or_first (some m) next = some m

first_of-append :
    (xs ys : List Mapping) → first_of (xs ++ ys) ≡ or_first (first_of xs) (first_of ys)
first_of-append [] ys = refl
first_of-append (m ∷ xs) ys = refl

image_memory-first_of :
    (address : ℕ) (mapped : Mapped) → image_memory address mapped ≡ first_of (mmap address mapped)
unfolding image_memory
image_memory-first_of address mapped = elim (lookup address mapped) [
  | none ↦ refl
  | some [] ↦ refl
  | some (m ∷ ms) ↦ refl
]

-- What Mmap gives for an address after a start: what it gave before, and then the mappings of the
-- buffers that the start has put at this address. So the image of a buffer at an address that had a
-- mapping before the start is read from that earlier mapping, and at a new address from the first
-- mapping of the start's buffers.
pub map_buffers-image_memory :
    (address : ℕ) (bs : List Buffer) (mapped : Mapped)
    → let after = map_buffers bs mapped in
      (mmap address after ≡ mmap address mapped ++ mapped_at address bs)
      × (image_memory address after
          ≡ or_first (image_memory address mapped) (first_of (mapped_at address bs)))
map_buffers-image_memory address bs mapped =
    let maps = map_buffers-mmap address bs mapped in
    let before = image_memory-first_of address mapped in
    (
      maps,
      image_memory-first_of address (map_buffers bs mapped)
          ∙ ap first_of maps
          ∙ first_of-append (mmap address mapped) (mapped_at address bs)
          ∙ ap (λ m. or_first m (first_of (mapped_at address bs))) (sym before),
    )
