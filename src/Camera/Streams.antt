-- ===== src/Camera/Streams.antt =====
-- extras/libcamera/LibCameraWrapper.cpp, the camera's buffers: how start() maps their planes, what
-- Mmap gives, how an image is copied out of a mapping, and the requests. A buffer is its address with
-- its planes; mmap is taken to succeed, and a mapping is the file and the length that it was given.
pub mod Grouped
pub mod Rows
use mandeye_controller.Prelude.{
  ℕ, zero, suc, ◌+◌, ◌*◌, Bool, true, false, ◌&&◌, Option, none, some, List, [], ◌∷◌, ◌++◌, take,
  drop, ◌==◌, if◌then◌else◌,
}
use mandeye_controller.Prelude.Assoc.{lookup, insert}

pub record Plane : Type 0 where
  pub fd : ℕ
  pub length : ℕ

pub record Buffer : Type 0 where
  pub address : ℕ
  pub planes : List Plane

pub record Mapping : Type 0 where
  pub file : ℕ
  pub size : ℕ

-- The loop over a buffer's planes: the last of those that share a file maps them together.
unfoldable pub map_planes : (total : ℕ) → List Plane → List Mapping
map_planes total [] = []
map_planes total (p ∷ []) = record { file = p.fd; size = total + p.length } ∷ []
map_planes total (p ∷ q ∷ rest) =
    let sum = total + p.length in
    let shared = map_planes sum (q ∷ rest) in
    let apart = map_planes 0 (q ∷ rest) in
    if p.fd == q.fd then shared else record { file = p.fd; size = sum } ∷ apart

abbrev pub Mapped : Type 0
Mapped = List (ℕ × List Mapping)

abbrev pub or_none : Option (List Mapping) → List Mapping
or_none none = []
or_none (some ms) = ms

-- Mmap.
unfoldable pub mmap : ℕ → Mapped → List Mapping
mmap address mapped = or_none (lookup address mapped)

-- mem[0] in requestComplete, which the image is read from; without a mapping, `none`.
unfoldable pub image_memory : ℕ → Mapped → Option Mapping
unfolding mmap
image_memory address mapped = elim (mmap address mapped) [ [] ↦ none | m ∷ ms ↦ some m ]

-- The loop over the buffers; nothing is ever taken out of the map.
unfoldable pub map_buffers : List Buffer → Mapped → Mapped
unfolding map_planes mmap
map_buffers [] mapped = mapped
map_buffers (b ∷ bs) mapped =
    map_buffers bs (insert b.address (mmap b.address mapped ++ map_planes 0 b.planes) mapped)

-- The rows of an image of format RGB888: `at` is the pointer's offset into the mapping's bytes.
unfoldable pub copy_rows : (height width stride at : ℕ) → List ℕ → List (List ℕ)
copy_rows zero width stride at memory = []
copy_rows (suc height) width stride at memory =
    take (width * 3) (drop at memory) ∷ copy_rows height width stride (at + stride) memory

-- One request for each buffer, or none at all; the answers of createRequest and addBuffer are by the
-- buffer's index.
unfoldable pub add_requests : (creates adds : ℕ → Bool) (i count : ℕ) → Option ℕ
add_requests creates adds i zero = some 0
add_requests creates adds i (suc count) =
    let rest = add_requests creates adds (suc i) count in
    if creates i && adds i then elim rest [ none ↦ none | some n ↦ some (suc n) ] else none

unfoldable pub create_requests : (creates adds : ℕ → Bool) (count : ℕ) → ℕ
unfolding add_requests
create_requests creates adds count = elim (add_requests creates adds 0 count) [
  | none ↦ 0
  | some n ↦ n
]
