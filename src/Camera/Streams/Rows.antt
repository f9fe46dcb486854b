-- ===== src/Camera/Streams/Rows.antt =====
-- The image that requestComplete copies row by row out of a mapping.
use mandeye_controller.Prelude.{
  ℕ, zero, suc, ◌+◌, ◌*◌, ◌≤◌, ◌<◌, ◌≡◌, refl, ap, ◌∙◌, Option, List, [], ◌∷◌, take, drop, length,
  get_elem?, arith, All,
}
use native.Mathlib.Nat.{suc-mul}
use mandeye_controller.Prelude.Options.{◌>>=◌}
use mandeye_controller.Camera.Streams.{copy_rows}

-- The byte of a column in a row.
abbrev pub byte_of : (row column : ℕ) → List (List ℕ) → Option ℕ
byte_of row column rows = get_elem? rows row >>= λ r. get_elem? r column

get_elem?-take : (n i : ℕ) (xs : List ℕ) → i < n → get_elem? (take n xs) i ≡ get_elem? xs i
get_elem?-take zero i xs h = absurd (omega (arith, h))
get_elem?-take (suc n) i [] h = refl
get_elem?-take (suc n) zero (x ∷ xs) h = refl
get_elem?-take (suc n) (suc i) (x ∷ xs) h = get_elem?-take n i xs (omega arith)

get_elem?-drop : (n i : ℕ) (xs : List ℕ) → get_elem? (drop n xs) i ≡ get_elem? xs (n + i)
get_elem?-drop zero i xs = ap (get_elem? xs) (omega arith)
get_elem?-drop (suc n) i [] = refl
get_elem?-drop (suc n) i (x ∷ xs) =
    let same : suc (n + i) ≡ suc n + i = omega arith in
    get_elem?-drop n i xs ∙ ap (get_elem? (x ∷ xs)) same

length-take : (n : ℕ) (xs : List ℕ) → n ≤ length xs → length (take n xs) ≡ n
length-take zero xs h = refl
length-take (suc n) [] h = absurd (omega (arith, h))
length-take (suc n) (x ∷ xs) h = ap suc (length-take n xs (omega arith))

length-drop : (n : ℕ) (xs : List ℕ) → n ≤ length xs → n + length (drop n xs) ≡ length xs
length-drop zero xs h = omega arith
length-drop (suc n) [] h = absurd (omega (arith, h))
length-drop (suc n) (x ∷ xs) h = omega (arith, length-drop n xs (omega arith))

abbrev pub AllFull : ℕ → List (List ℕ) → Type 0
AllFull width rows = All (λ row. length row ≡ width * 3) rows

copy_rows-byte :
    (height width stride at : ℕ) (memory : List ℕ) (row column : ℕ)
    → row < height
    → column < width * 3
    → byte_of row column (copy_rows height width stride at memory)
      ≡ get_elem? memory (at + (row * stride + column))
unfolding copy_rows
copy_rows-byte zero width stride at memory row column h k = absurd (omega (arith, h))
copy_rows-byte (suc height) width stride at memory zero column h k =
    get_elem?-take (width * 3) column (drop at memory) k
    ∙ get_elem?-drop at column memory
    ∙ ap (get_elem? memory) (omega arith)
copy_rows-byte (suc height) width stride at memory (suc row) column h k =
    copy_rows-byte height width stride (at + stride) memory row column (omega arith) k
    ∙ ap (get_elem? memory) (omega (arith, suc-mul row stride))

copy_rows-AllFull :
    (height width stride at : ℕ) (memory : List ℕ)
    → width * 3 ≤ stride
    → at + height * stride ≤ length memory
    → (length (copy_rows height width stride at memory) ≡ height)
      × AllFull width (copy_rows height width stride at memory)
unfolding copy_rows
copy_rows-AllFull zero width stride at memory h k = (refl, tt)
copy_rows-AllFull (suc height) width stride at memory h k =
    let more : suc height * stride ≡ stride + height * stride =
      suc-mul height stride ∙ omega arith in
    let (count, full) =
      copy_rows-AllFull height width stride (at + stride) memory h (omega arith) in
    (
      ap suc count,
      (
        length-take (width * 3) (drop at memory)
            (omega (arith, length-drop at memory (omega arith))),
        full,
      ),
    )

-- From a mapping that holds all rows, of a stride that holds a row, the image has each row in full,
-- and its byte in a column of a row is the mapping's at the row's place in the stride.
pub copy_rows-image :
    (height width stride : ℕ) (memory : List ℕ)
    → width * 3 ≤ stride
    → height * stride ≤ length memory
    → let image = copy_rows height width stride 0 memory in
      ((length image ≡ height) × AllFull width image)
      × ((row column : ℕ)
          → row < height
          → column < width * 3
          → byte_of row column image ≡ get_elem? memory (row * stride + column))
copy_rows-image height width stride memory h k = (
  copy_rows-AllFull height width stride 0 memory h (omega arith),
  λ row column r c.
      copy_rows-byte height width stride 0 memory row column r c
      ∙ ap (get_elem? memory) (omega arith),
)
