-- ===== src/FileSystem.antt =====
-- code/FileSystemClient.h and code/FileSystemClient.cpp: the manifest that numbers the sessions
-- and the directories of a session. The medium's answers are fields of `Disk`: whether it lets
-- the repository and the manifest be written or read, and what create_directories returns.
pub mod Manifest
pub mod Sessions
pub mod Frozen
pub mod Listing
use mandeye_controller.Prelude.{
  ℕ, ◌+◌, ◌-◌, ◌*◌, ◌%◌, Bool, ◌&&◌, ◌||◌, Option, none, some, List, [], ◌∷◌, ◌++◌, leb, ltb, ◌==◌,
  if◌then◌else◌, Text, codes, is_empty,
}
use mandeye_controller.Prelude.Int.{ℤ, pos, minus_one, signed32, suc_int, pred_int}
use mandeye_controller.Prelude.Decimal.{decimal_int, padded_int, is_digit}

-- std::error_code.
pub record ErrorCode : Type 0 where
  pub value : ℕ
  pub message : Text

-- `manifest` and `version` are the files' contents. A file that may not be opened leaves the
-- stream bad.
pub record Disk : Type 0 where
  pub writable : Bool
  pub manifest : Option Text
  pub manifest_readable : Bool
  pub manifest_writable : Bool
  pub version : Option Text
  pub version_writable : Bool
  pub create_directories : Text → ErrorCode
  pub directories : List Text

pub record Client : Type 0 where
  pub repository : Text
  pub next_id : ℤ
  pub current_continous_scan_directory : Text
  pub current_stop_scan_directory : Text
  pub error : Text

abbrev is_blank : ℕ → Bool
is_blank c = c == 32 || (leb 9 c && leb c 13)

read_digits : ℕ → Text → ℕ
read_digits acc [] = acc
read_digits acc (c ∷ s) = if is_digit c then read_digits (acc * 10 + (c - 48)) s else acc

-- What `>>` stores for a number that is too large.
abbrev clamp32 : ℕ → ℕ
clamp32 n = if ltb n 4294967296 then n else 4294967295

-- `stream >> id` into a uint32_t: blanks, a sign, digits; 0 if there are none.
unfoldable pub read_u32 : Text → ℕ
unfolding read_digits
read_u32 [] = 0
read_u32 (c ∷ s) =
    let rest = read_u32 s in
    if is_blank c
    then rest
    else if c == 45
    then (4294967296 - clamp32 (read_digits 0 s)) % 4294967296
    else if c == 43
    then clamp32 (read_digits 0 s)
    else clamp32 (read_digits 0 (c ∷ s))

abbrev pub line_of : ℤ → Text
line_of id = decimal_int id ++ 10 ∷ []

-- Writing a file: nothing happens if it cannot be opened.
abbrev pub write_if : Bool → Text → Option Text → Option Text
write_if may text old = if may then some text else old

abbrev pub write_version : Disk → Disk
write_version d = record d {
  version = write_if d.version_writable (codes "Version 0.6-dev\n") d.version;
}

-- What the manifest says if it could be opened; if not, a manifest that says 0 is made.
id_of_manifest : Option Text → Disk → ℤ × Disk
id_of_manifest (some text) v = (signed32 (read_u32 text), v)
id_of_manifest none v =
    if v.manifest_writable
    then (pos 0, record v { manifest = some (line_of (pos 0)) })
    else (minus_one, v)

-- The id, and the disk afterwards.
unfoldable pub get_id_from_manifest : Disk → ℤ × Disk
unfolding id_of_manifest
get_id_from_manifest d =
    let v = write_version d in id_of_manifest (if v.manifest_readable then v.manifest else none) v

unfoldable pub file_system_client : Text → Disk → Client × Disk
file_system_client repository d =
    let (id, d') = get_id_from_manifest d in
    (
      record {
        repository = repository;
        next_id = id;
        current_continous_scan_directory = [];
        current_stop_scan_directory = [];
        error = [];
      },
      d',
    )

unfoldable pub get_next_id_from_manifest : Client → Disk → ℤ × Client × Disk
get_next_id_from_manifest c d =
    let (old, d') = get_id_from_manifest d in
    let id = suc_int old in
    (
      id,
      record c { next_id = id },
      record d' { manifest = write_if d'.manifest_writable (line_of id) d'.manifest },
    )

-- std::filesystem::path's `/` with a relative name on the right.
unfoldable pub join : Text → Text → Text
join [] name = name
join (c ∷ []) name = if c == 47 then c ∷ name else c ∷ 47 ∷ name
join (c ∷ d ∷ s) name = c ∷ join (d ∷ s) name

-- create_directories: the directory is there afterwards if it reports no error.
abbrev pub make_directory : Text → Disk → Disk
make_directory path d =
    if (d.create_directories path).value == 0
    then record d { directories = d.directories ++ path ∷ [] }
    else d

-- The directory that was made, if it was, as the out parameter and the result say.
unfoldable pub create_directory_for_continous_scanning :
    ℤ → Client → Disk → Option Text × Client × Disk
create_directory_for_continous_scanning id c d =
    let path = join c.repository (codes "continousScanning_" ++ padded_int 4 id) in
    let told : Client = record c { error = (d.create_directories path).message } in
    if d.writable
    then if (d.create_directories path).value == 0
      then if is_empty path then (none, told, make_directory path d) else (
        some path,
        record told { current_continous_scan_directory = path },
        make_directory path d,
      )
      else (none, told, make_directory path d)
    else (none, c, d)

-- Also the id that the manifest gave; -1 below the next one.
unfoldable pub create_directory_for_stop_scans : ℤ → Client → Disk → Option Text × ℤ × Client × Disk
create_directory_for_stop_scans id_before c d =
    let (next, c', d') = get_next_id_from_manifest c d in
    let id = pred_int next in
    let path = join c.repository (codes "stopScans_" ++ padded_int 4 id) in
    let told : Client = record c' { error = (d'.create_directories path).message } in
    if d.writable
    then if (d'.create_directories path).value == 0
      then if is_empty path then (none, id, told, make_directory path d') else (
        some path,
        id,
        record told { current_stop_scan_directory = path },
        make_directory path d',
      )
      else (none, id, told, make_directory path d')
    else (none, id_before, c, d)
