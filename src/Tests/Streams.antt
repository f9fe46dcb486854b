-- ===== src/Tests/Streams.antt =====
-- The camera's buffers and its configurations on concrete inputs.
use mandeye_controller.Prelude.{
  ℕ, ◌+◌, ◌*◌, ◌<◌, ◌≡◌, refl, true, false, some, List, [], ◌∷◌, ◌++◌, map, codes, Text, length,
  is_some, arith,
}
use mandeye_controller.Camera.{internal, frame_sync_id}
use mandeye_controller.Camera.Streams.{
  image_memory, Plane, Buffer, map_planes, mmap, map_buffers, copy_rows,
}
use mandeye_controller.Camera.Streams.Grouped.{
  Group, Grouping, mapping_of, mapped_at, map_planes-groups, map_buffers-image_memory, first_of,
  or_first,
}
use mandeye_controller.Camera.Streams.Rows.{AllFull, byte_of, copy_rows-image}
use mandeye_controller.Prelude.{get_elem?}
use mandeye_controller.Camera.Life.{
  absent, throws, given, Setting, number, other, Config, Answers, Life, Request, post, posts,
  get_camera_config,
}
use mandeye_controller.Camera.Life.Lasting.{IsHeld}
use mandeye_controller.Camera.Life.Posts.{read_but_last, posts-read_but_last}
use mandeye_controller.Camera.Life.Reported.{post-reported}
use mandeye_controller.Tests.Photos.{fresh, hard, no_line, whole_values, gain}

-- Two planes of one file and one of another.
abbrev three_planes : List Plane
three_planes =
    record { fd = 4; length = 100 }
    ∷ record { fd = 4; length = 50 }
    ∷ record { fd = 5; length = 50 }
    ∷ []

map_planes-groups_example :
    (groups : List Group) × (Grouping three_planes groups
      × (map_planes 0 three_planes ≡ map mapping_of groups))
map_planes-groups_example = map_planes-groups three_planes

-- A second start, with a buffer at the address of one of the first.
abbrev again : Buffer
again = record { address = 77; planes = record { fd = 9; length = 150 } ∷ [] }

abbrev first_start : List Buffer
first_start = record { address = 77; planes = three_planes } ∷ []

map_buffers-image_memory_example :
    let before = map_buffers first_start [] in
    (mmap 77 (map_buffers (again ∷ []) before) ≡ mmap 77 before ++ mapped_at 77 (again ∷ []))
    × (image_memory 77 (map_buffers (again ∷ []) before)
        ≡ or_first (image_memory 77 before) (first_of (mapped_at 77 (again ∷ []))))
map_buffers-image_memory_example =
    map_buffers-image_memory 77 (again ∷ []) (map_buffers first_start [])

-- Two rows of one pixel, with one byte between them.
abbrev bytes : List ℕ
bytes = 1 ∷ 2 ∷ 3 ∷ 0 ∷ 4 ∷ 5 ∷ 6 ∷ 0 ∷ []

copy_rows-image_example :
    ((length (copy_rows 2 1 4 0 bytes) ≡ 2) × AllFull 1 (copy_rows 2 1 4 0 bytes))
    × ((row column : ℕ)
        → row < 2
        → column < 1 * 3
        → byte_of row column (copy_rows 2 1 4 0 bytes) ≡ get_elem? bytes (row * 4 + column))
copy_rows-image_example = copy_rows-image 2 1 4 bytes (omega arith) (omega arith)

abbrev section : List (Text × Setting)
section = (codes "_Note", other) ∷ (codes "Gain", number 8) ∷ []

abbrev one_camera : Answers
one_camera = record {
  has_camera = true;
  buffers = first_start;
  creates = λ i. true;
  adds = λ i. true;
  controls = gain ∷ [];
  one = 1;
  gpiod = no_line;
}

abbrev slave : Config
slave = record { trigger = given hard; rate_ms = absent; picamera = section }

abbrev unreadable : Config
unreadable = record { trigger = throws; rate_ms = absent; picamera = [] }

abbrev sent : Config → Request
sent c = record { config = c; answers = one_camera; now = 10; wall_ns = 20 }

abbrev running : Life
running = record {
  wrapper = record fresh { control_list = (frame_sync_id, 1) ∷ [] };
  has_manager = true;
  camera = true;
  requests = 1;
  mapped = [];
}

posts-read_but_last_example :
    is_some (posts (sent slave ∷ sent unreadable ∷ sent slave ∷ []) running)
    ≡ read_but_last (sent slave ∷ sent unreadable ∷ sent slave ∷ [])
posts-read_but_last_example =
    posts-read_but_last (sent slave ∷ sent unreadable ∷ sent slave ∷ []) running refl

ends_at_third : read_but_last (sent slave ∷ sent unreadable ∷ sent slave ∷ []) ≡ false
ends_at_third = refl

post-reported_example :
    (m : Life) × ((post (sent (get_camera_config section running)) running ≡ some (true, m))
      × ((m.wrapper.trigger_mode ≡ internal)
          × ((m.wrapper.rate_ms ≡ running.wrapper.rate_ms)
              × ((m.wrapper.running ≡ true)
                  × ((k : ℕ)
                      → IsHeld k running.wrapper.control_list
                      → IsHeld k m.wrapper.control_list)))))
post-reported_example = post-reported section one_camera 10 20 running refl refl
