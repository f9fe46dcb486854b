-- ===== src/FileSystem/Listing.antt =====
-- code/FileSystemClient.cpp, GetDirectories: the lines of the session's files, sorted. A directory's
-- entries and the text of a file's size are the medium's and the standard library's.
use mandeye_controller.Prelude.{
  ℕ, suc, ◌≡◌, refl, ◌∙◌, Bool, false, Option, none, some, List, [], ◌∷◌, ◌++◌, arith,
  if◌then◌else◌, Text, codes, is_empty, text_eq, text_lt, text_lt_irrefl, text_lt_trans,
  text_lt_total, Bool-cases, Option-cases, inl, inr, All,
}
use mandeye_controller.FileSystem.{Client}

pub record Entry : Type 0 where
  pub path : Text
  pub is_regular_file : Bool
  pub file_size : ℕ

-- The lines in the order in which the directory is read; `shown` is std::to_string of the size over
-- 1024 * 1204 as a float.
unfoldable pub file_lines : (shown : ℕ → Text) → List Entry → List Text
file_lines shown [] = []
file_lines shown (e ∷ es) =
    let rest = file_lines shown es in
    if e.is_regular_file
    then (e.path ++ (codes " " ++ (shown e.file_size ++ codes " Mb"))) ∷ rest
    else rest

unfoldable pub insert_line : Text → List Text → List Text
insert_line t [] = t ∷ []
insert_line t (u ∷ us) = let rest = insert_line t us in if text_lt u t then u ∷ rest else t ∷ u ∷ us

-- std::sort.
unfoldable pub sort : List Text → List Text
unfolding insert_line
sort [] = []
sort (t ∷ ts) = insert_line t (sort ts)

-- `entries` gives the entries of a path that is a directory.
unfoldable pub get_directories :
    (shown : ℕ → Text) (entries : Text → Option (List Entry)) → Client → List Text
unfolding file_lines sort
get_directories shown entries c =
    if is_empty c.current_continous_scan_directory
    then []
    else elim (entries c.current_continous_scan_directory) [
      | none ↦ []
      | some es ↦ sort (file_lines shown es)
    ]

-- No line is above a later one.
abbrev pub IsAscending : List Text → Type 0
IsAscending [] = Unit {0}
IsAscending (t ∷ ts) = All (λ u. text_lt u t ≡ false) ts × IsAscending ts

-- How often a line stands in a list.
abbrev pub times : Text → List Text → ℕ
times t [] = 0
times t (u ∷ us) = if text_eq u t then suc (times t us) else times t us

insert_line-All {κ} :
    (P : Text → Type κ) (t : Text) (us : List Text) → P t → All P us → All P (insert_line t us)
unfolding insert_line
insert_line-All P t [] p h = (p, tt)
insert_line-All P t (u ∷ us) p (q, h) = elim (Bool-cases (text_lt u t)) [
  | inl below ↦ rw below (q, insert_line-All P t us p h)
  | inr not_below ↦ rw not_below (p, (q, h))
]

not_above_both : (t u v : Text) → text_lt u t ≡ false → text_lt v u ≡ false → text_lt v t ≡ false
not_above_both t u v h k = ground (arith, text_lt_trans u v t, text_lt_total v u)

All-not_above :
    (t u : Text) (us : List Text)
    → text_lt u t ≡ false
    → All (λ v. text_lt v u ≡ false) us
    → All (λ v. text_lt v t ≡ false) us
All-not_above t u [] h k = tt
All-not_above t u (v ∷ us) h (k, ks) = (not_above_both t u v h k, All-not_above t u us h ks)

insert_line-IsAscending :
    (t : Text) (us : List Text) → IsAscending us → IsAscending (insert_line t us)
unfolding insert_line
insert_line-IsAscending t [] h = (tt, tt)
insert_line-IsAscending t (u ∷ us) (first, h) = elim (Bool-cases (text_lt u t)) [
  | inl below ↦
      let above : text_lt t u ≡ false = ground (arith, text_lt_trans u t u, text_lt_irrefl u) in
      rw below (
        insert_line-All (λ v. text_lt v u ≡ false) t us above first,
        insert_line-IsAscending t us h,
      )
  | inr not_below ↦ rw not_below ((not_below, All-not_above t u us not_below first), (first, h))
]

insert_line-times : (s t : Text) (us : List Text) → times s (insert_line t us) ≡ times s (t ∷ us)
unfolding insert_line
insert_line-times s t [] = refl
insert_line-times s t (u ∷ us) = elim (Bool-cases (text_lt u t)) [
  | inr not_below ↦ rw not_below refl
  | inl below ↦ rw below (ground (arith, insert_line-times s t us))
]

sort-IsAscending : (ts : List Text) → IsAscending (sort ts)
unfolding sort
sort-IsAscending [] = tt
sort-IsAscending (t ∷ ts) = insert_line-IsAscending t (sort ts) (sort-IsAscending ts)

sort-times : (s : Text) (ts : List Text) → times s (sort ts) ≡ times s ts
unfolding sort
sort-times s [] = refl
sort-times s (t ∷ ts) = insert_line-times s t (sort ts) ∙ ground (arith, sort-times s ts)

-- The lines of the directory as it is, without one if it is not set or not there.
abbrev pub unsorted : (shown : ℕ → Text) → Option (List Entry) → List Text
unsorted shown none = []
unsorted shown (some es) = file_lines shown es

-- The report is in ascending order and has the line of each regular file of the session's directory
-- as often as the directory has it; it is empty before a directory is set, and where it is not there.
pub get_directories-IsAscending :
    (shown : ℕ → Text) (entries : Text → Option (List Entry)) (c : Client)
    → IsAscending (get_directories shown entries c)
      × ((s : Text)
          → times s (get_directories shown entries c) ≡ (
              if is_empty c.current_continous_scan_directory
              then 0
              else times s (unsorted shown (entries c.current_continous_scan_directory))))
unfolding get_directories
get_directories-IsAscending shown entries c =
    elim (Bool-cases (is_empty c.current_continous_scan_directory)) [
      | inl unset ↦ rw unset (tt, λ s. refl)
      | inr set ↦ elim (Option-cases (entries c.current_continous_scan_directory)) [
        | inl missing ↦ rw (set, missing) (tt, λ s. refl)
        | inr (es, there) ↦
            rw (set, there)
              (sort-IsAscending (file_lines shown es), λ s. sort-times s (file_lines shown es))
      ]
    ]
