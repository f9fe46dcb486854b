-- ===== src/FileSystem/Frozen.antt =====
-- Sessions on a medium whose manifest can be read and not written.
-- it for the two directories of the session. Sessions that follow one another on one medium.
use mandeye_controller.Prelude.{
  ℕ, zero, suc, ◌+◌, ◌<◌, ◌≡◌, ap, true, false, some, arith, Text, All,
}
use mandeye_controller.Prelude.Int.{ℤ, pos}
use mandeye_controller.FileSystem.{
  write_version, Client, Disk, line_of, get_id_from_manifest, file_system_client,
  get_next_id_from_manifest, create_directory_for_stop_scans,
  create_directory_for_continous_scanning,
}
use mandeye_controller.FileSystem.Sessions.{
  open_directories, open_session, pred-suc_int, get_id_usable, session_numbers,
}

-- A medium whose manifest says k and cannot be written.
pub record IsFrozen (k : ℕ) (d : Disk) : Type 0 where
  pub writable : d.writable ≡ true
  pub manifest_readable : d.manifest_readable ≡ true
  pub manifest_frozen : d.manifest_writable ≡ false
  pub manifest : d.manifest ≡ some (line_of (pos k))

get_next_frozen :
    (c : Client) (d : Disk) (k : ℕ)
    → IsFrozen k d
    → k < 2147483648
    → get_next_id_from_manifest c d
      ≡ (pos (k + 1), record c { next_id = pos (k + 1) }, write_version d)
unfolding get_next_id_from_manifest
get_next_frozen c d k f small =
    ground (arith, get_id_usable d k f.manifest_readable f.manifest small, f.manifest_frozen)

stop_scans_frozen :
    (id : ℤ) (c : Client) (d : Disk) (k : ℕ)
    → IsFrozen k d
    → k < 2147483648
    → let r = create_directory_for_stop_scans id c d in (r.1 ≡ pos k) × IsFrozen k r.3
unfolding create_directory_for_stop_scans
stop_scans_frozen id c d k f small = ground (arith, get_next_frozen c d k f small, pred-suc_int k)

continous_frozen :
    (id : ℤ) (c : Client) (d : Disk) (k : ℕ)
    → IsFrozen k d
    → IsFrozen k (create_directory_for_continous_scanning id c d).2
unfolding create_directory_for_continous_scanning
continous_frozen id c d k f = ground arith

open_directories_frozen :
    (c : Client) (d : Disk) (k : ℕ)
    → IsFrozen k d
    → k < 2147483648
    → let r = open_directories c d in (r.0.id_manifest ≡ pos k) × IsFrozen k r.2
unfolding open_directories
open_directories_frozen c d k f small =
    let s = create_directory_for_stop_scans (pos 0) c d in
    let (id, f') = stop_scans_frozen (pos 0) c d k f small in
    (id, continous_frozen s.1 s.2 s.3 k f')

IsFrozen-write_version : (k : ℕ) (d : Disk) → IsFrozen k d → IsFrozen k (write_version d)
IsFrozen-write_version k d f = record {
  writable = f.writable;
  manifest_readable = f.manifest_readable;
  manifest_frozen = f.manifest_frozen;
  manifest = f.manifest;
}

open_session_frozen :
    (repository : Text) (d : Disk) (k : ℕ)
    → IsFrozen k d
    → k < 2147483648
    → let r = open_session repository d in (r.0.id_manifest ≡ pos k) × IsFrozen k r.2
unfolding open_session file_system_client
open_session_frozen repository d k f small =
    let again =
      ap (λ (r : ℤ × Disk). r.1) (get_id_usable d k f.manifest_readable f.manifest small) in
    open_directories_frozen (file_system_client repository d).0 (get_id_from_manifest d).1 k
      (rw again (IsFrozen-write_version k d f)) small

-- Where the manifest says k, below 2 ^ 31, and can be read and not written, each of any number of
-- sessions has the number k.
pub open_session_repeats :
    (n : ℕ) (repository : Text) (d : Disk) (k : ℕ)
    → IsFrozen k d
    → k < 2147483648
    → All (λ id. id ≡ pos k) (session_numbers n repository d)
unfolding session_numbers
open_session_repeats zero repository d k f small = tt
open_session_repeats (suc n) repository d k f small =
    let (id, f') = open_session_frozen repository d k f small in
    (id, open_session_repeats n repository (open_session repository d).2 k f' small)
