-- ===== src/FileSystem/Sessions.antt =====
-- The start of the program (code/main.cpp): the file system client is made and stateWatcher asks
-- it for the two directories of the session. Sessions that follow one another on one medium.
use mandeye_controller.Prelude.{
  ℕ, zero, suc, ◌+◌, ◌<◌, ◌≡◌, ◌≢◌, refl, ap, ◌∙◌, true, false, Option, none, some, List, [], ◌∷◌,
  ◌++◌, arith, if◌then◌else◌, Text, codes, is_empty,
}
use mandeye_controller.Prelude.Int.{ℤ, pos, suc_int, pred_int, signed32}
use mandeye_controller.Prelude.Decimal.{padded, padded_int}
use mathlib.Core.Path.{ap₂}
use native.Mathlib.Numerals.{add-one}
use mandeye_controller.FileSystem.{
  id_of_manifest, write_version, Client, Disk, join, line_of, read_u32, get_id_from_manifest,
  file_system_client, get_next_id_from_manifest, create_directory_for_stop_scans,
  create_directory_for_continous_scanning,
}
use mandeye_controller.FileSystem.Manifest.{read_u32-line_of}

-- stopScanDirectory, continousScanDirectory and id_manifest after the head of stateWatcher; a
-- directory that could not be made is empty there.
pub record Session : Type 0 where
  pub stop_scan_directory : Option Text
  pub continous_scan_directory : Option Text
  pub id_manifest : ℤ

unfoldable pub open_directories : Client → Disk → Session × Client × Disk
open_directories c d =
    let (stop, id, c', d') = create_directory_for_stop_scans (pos 0) c d in
    let (continous, c'', d'') = create_directory_for_continous_scanning id c' d' in
    (
      record { stop_scan_directory = stop; continous_scan_directory = continous; id_manifest = id },
      c'',
      d'',
    )

unfoldable pub open_session : Text → Disk → Session × Client × Disk
unfolding open_directories
open_session repository d = let (c, d') = file_system_client repository d in open_directories c d'

-- A medium that lets everything be read, written and made.
pub record IsUsable (d : Disk) : Type 0 where
  pub writable : d.writable ≡ true
  pub manifest_readable : d.manifest_readable ≡ true
  pub manifest_writable : d.manifest_writable ≡ true
  pub creates : (path : Text) → (d.create_directories path).value ≡ 0

abbrev pub stop_scan_name : ℕ → Text
stop_scan_name k = codes "stopScans_" ++ padded 4 k

abbrev pub continous_scan_name : ℕ → Text
continous_scan_name k = codes "continousScanning_" ++ padded 4 k

join_some : (a name : Text) → name ≢ [] → is_empty (join a name) ≡ false
unfolding join
join_some [] [] ne = absurd (ne refl)
join_some [] (x ∷ xs) ne = refl
join_some (c ∷ []) name ne = ground arith
join_some (c ∷ d ∷ s) name ne = refl

pub pred-suc_int : (k : ℕ) → pred_int (suc_int (pos k)) ≡ pos k
pred-suc_int k = rw add-one

pub get_id_usable :
    (d : Disk) (k : ℕ)
    → d.manifest_readable ≡ true
    → d.manifest ≡ some (line_of (pos k))
    → k < 2147483648
    → get_id_from_manifest d ≡ (pos k, write_version d)
unfolding get_id_from_manifest
get_id_usable d k r m small =
    ap (λ o. id_of_manifest o (write_version d)) opened
    ∙ ap (λ (x : ℤ). (x, write_version d)) number
  where
    opened : (if d.manifest_readable then d.manifest else none) ≡ some (line_of (pos k))
    opened = ground arith

    number : signed32 (read_u32 (line_of (pos k))) ≡ pos k
    number = ap signed32 (read_u32-line_of k (omega arith)) ∙ ground arith

abbrev numbered : ℕ → Disk → Disk
numbered k d = record (write_version d) { manifest = some (line_of (pos k)) }

get_next_usable :
    (c : Client) (d : Disk) (k : ℕ)
    → d.manifest_readable ≡ true
    → d.manifest_writable ≡ true
    → d.manifest ≡ some (line_of (pos k))
    → k < 2147483647
    → get_next_id_from_manifest c d
      ≡ (pos (k + 1), record c { next_id = pos (k + 1) }, numbered (k + 1) d)
unfolding get_next_id_from_manifest
get_next_usable c d k r w m small = ground (arith, get_id_usable d k r m (omega arith))

stop_scans_usable :
    (id : ℤ) (c : Client) (d : Disk) (k : ℕ)
    → IsUsable d
    → d.manifest ≡ some (line_of (pos k))
    → k < 2147483647
    → let r = create_directory_for_stop_scans id c d in
      (r.0 ≡ some (join c.repository (stop_scan_name k)))
      × (r.1 ≡ pos k)
      × (r.2.repository ≡ c.repository)
      × (r.3.manifest ≡ some (line_of (pos (k + 1))))
      × IsUsable r.3
unfolding create_directory_for_stop_scans padded_int
stop_scans_usable id c d k u m small = ground (
  arith,
  get_next_usable c d k u.manifest_readable u.manifest_writable m small,
  pred-suc_int k,
  u.creates (join c.repository (stop_scan_name k)),
  join_some c.repository (stop_scan_name k),
)

continous_usable :
    (c : Client) (d : Disk) (k : ℕ)
    → IsUsable d
    → let r = create_directory_for_continous_scanning (pos k) c d in
      (r.0 ≡ some (join c.repository (continous_scan_name k)))
      × (r.2.manifest ≡ d.manifest)
      × IsUsable r.2
unfolding create_directory_for_continous_scanning padded_int
continous_usable c d k u = ground (
  arith,
  u.creates (join c.repository (continous_scan_name k)),
  join_some c.repository (continous_scan_name k),
)

open_directories_usable :
    (c : Client) (d : Disk) (k : ℕ)
    → IsUsable d
    → d.manifest ≡ some (line_of (pos k))
    → k < 2147483647
    → let r = open_directories c d in
      (r.0.id_manifest ≡ pos k)
      × (r.0.stop_scan_directory ≡ some (join c.repository (stop_scan_name k)))
      × (r.0.continous_scan_directory ≡ some (join c.repository (continous_scan_name k)))
      × (r.2.manifest ≡ some (line_of (pos (k + 1))))
      × IsUsable r.2
unfolding open_directories
open_directories_usable c d k u m small =
    let s = create_directory_for_stop_scans (pos 0) c d in
    let (stop, id, same, next, u') = stop_scans_usable (pos 0) c d k u m small in
    let (continous, kept, u'') = continous_usable s.2 s.3 k u' in
    (
      id,
      stop,
      rw id (continous ∙ ap (λ a. some (join a (continous_scan_name k))) same),
      rw id (kept ∙ next),
      rw id u'',
    )

IsUsable-write_version : (d : Disk) → IsUsable d → IsUsable (write_version d)
IsUsable-write_version d u = record {
  writable = u.writable;
  manifest_readable = u.manifest_readable;
  manifest_writable = u.manifest_writable;
  creates = u.creates;
}

-- On a usable medium whose manifest says k, below 2 ^ 31 - 1, a session has the number k and the
-- two directories that carry it, and leaves k + 1 in the manifest and the medium usable.
open_session_numbers :
    (repository : Text) (d : Disk) (k : ℕ)
    → IsUsable d
    → d.manifest ≡ some (line_of (pos k))
    → k < 2147483647
    → let r = open_session repository d in
      (r.0.id_manifest ≡ pos k)
      × (r.0.stop_scan_directory ≡ some (join repository (stop_scan_name k)))
      × (r.0.continous_scan_directory ≡ some (join repository (continous_scan_name k)))
      × (r.2.manifest ≡ some (line_of (pos (k + 1))))
      × IsUsable r.2
unfolding open_session file_system_client
open_session_numbers repository d k u m small =
    let again =
      ap (λ (r : ℤ × Disk). r.1) (get_id_usable d k u.manifest_readable m (omega arith)) in
    open_directories_usable (file_system_client repository d).0 (get_id_from_manifest d).1 k
      (rw again (IsUsable-write_version d u)) (rw again m) small

-- The numbers of the sessions that follow one another on a medium.
unfoldable pub session_numbers : ℕ → Text → Disk → List ℤ
session_numbers zero repository d = []
session_numbers (suc n) repository d =
    let (s, c, d') = open_session repository d in s.id_manifest ∷ session_numbers n repository d'

pub count_from : ℕ → ℕ → List ℤ
count_from k zero = []
count_from k (suc n) = pos k ∷ count_from (k + 1) n

-- On a usable medium whose manifest says k, n sessions that follow one another have the numbers k,
-- k + 1 and so on, while these are below 2 ^ 31.
pub session_numbers-count_from :
    (n : ℕ) (repository : Text) (d : Disk) (k : ℕ)
    → IsUsable d
    → d.manifest ≡ some (line_of (pos k))
    → k + n < 2147483648
    → session_numbers n repository d ≡ count_from k n
unfolding session_numbers count_from
session_numbers-count_from zero repository d k u m small = refl
session_numbers-count_from (suc n) repository d k u m small =
    let (id, stop, continous, next, u') = open_session_numbers repository d k u m (omega arith) in
    ap₂ ◌∷◌ id (
      session_numbers-count_from n repository (open_session repository d).2 (k + 1) u' next
        (omega arith))
