-- ===== src/Livox/Query/Params.antt =====
-- The parameters that a lidar writes into an answer, and what QueryInternalInfoCallback reads.
use mandeye_controller.Prelude.{
  ℕ, zero, suc, ◌+◌, ◌/◌, ◌%◌, ◌<◌, ◌≤◌, ◌≡◌, refl, sym, ap, ◌∙◌, false, true, some, arith, List,
  [], ◌∷◌, ◌++◌, All, length, get_or, get_or-append, length-append, append_assoc, ltb,
}
use native.Mathlib.Nat.{add-zero}
use mandeye_controller.Livox.{Client}
use mandeye_controller.Livox.Query.{
  Response, param_loop, take_param, uint16_at, param_fuel, query_internal_info_callback,
}

-- LivoxLidarKeyValueParam.
pub record Param : Type 0 where
  pub key : ℕ
  pub value : List ℕ

abbrev pub IsParam : Param → Type 0
IsParam p = (p.key < 65536) × (0 < length p.value) × (length p.value < 65536)

unfoldable pub encode : List Param → List ℕ
encode [] = []
encode (p ∷ ps) =
    (p.key % 256)
    ∷ (p.key / 256)
    ∷ (length p.value % 256)
    ∷ (length p.value / 256)
    ∷ (p.value ++ encode ps)

-- What the answer means: each parameter is taken, in order.
unfoldable pub take_params : ℕ → List Param → Client → Client
take_params handle [] c = c
take_params handle (p ∷ ps) c =
    take_params handle ps (take_param handle p.key (get_or p.value 0 0) c)

abbrev pub response_of : List Param → Response
response_of ps = record { param_num = length ps; bytes = λ j. get_or (encode ps) j 0 }

get_or_head : (xs ys : List ℕ) → 0 < length xs → get_or (xs ++ ys) 0 0 ≡ get_or xs 0 0
get_or_head [] ys h = absurd (omega arith)
get_or_head (x ∷ xs) ys h = refl

module _ (handle : ℕ) (full : List ℕ) (count : ℕ) (small : length full < 65536) where
  abbrev answer : Response
  answer = record { param_num = count; bytes = λ j. get_or full j 0 }

  byte :
      (pre rest : List ℕ) (k : ℕ)
      → full ≡ pre ++ rest
      → get_or full (length pre + k) 0 ≡ get_or rest k 0
  byte pre rest k e = rw e (get_or-append pre rest k 0)

  at_param :
      (pre : List ℕ) (p : Param) (ps : List Param)
      → full ≡ pre ++ encode (p ∷ ps)
      → IsParam p
      → (uint16_at answer (length pre) ≡ p.key)
        × (uint16_at answer (length pre + 2) ≡ length p.value)
        × (get_or full (length pre + 4) 0 ≡ get_or p.value 0 0)
  unfolding encode
  at_param pre p ps e good = (
    omega (arith, low, byte pre _ 1 e),
    omega (arith, byte pre _ 2 e, third),
    byte pre _ 4 e ∙ get_or_head p.value (encode ps) good.1,
  )
    where
      low : get_or full (length pre) 0 ≡ p.key % 256
      low = ap (λ n. get_or full n 0) (sym (add-zero (length pre))) ∙ byte pre _ 0 e

      third : get_or full (length pre + 2 + 1) 0 ≡ length p.value / 256
      third =
          ap (λ n. get_or full n 0) (let q : length pre + 2 + 1 ≡ length pre + 3 = omega arith in q)
          ∙ byte pre _ 3 e

  length-encode_cons :
      (pre : List ℕ) (p : Param) (ps : List Param)
      → full ≡ pre ++ encode (p ∷ ps)
      → length full ≡ length pre + 4 + length p.value + length (encode ps)
  unfolding encode
  length-encode_cons pre p ps e =
      rw e (omega (arith, length-append pre (encode (p ∷ ps)), length-append p.value (encode ps)))

  abbrev header : Param → List ℕ
  header p =
      (p.key % 256) ∷ (p.key / 256) ∷ (length p.value % 256) ∷ (length p.value / 256) ∷ p.value

  param_loop_reads :
      (fuel i : ℕ) (pre : List ℕ) (ps : List Param) (c : Client)
      → full ≡ pre ++ encode ps
      → All IsParam ps
      → i + length ps ≡ count
      → count ≤ 255
      → length ps < fuel
      → param_loop fuel i (length pre) handle answer c ≡ some (take_params handle ps c)
  unfolding param_loop take_params encode
  param_loop_reads zero i pre ps c e good n m f = absurd (omega arith)
  param_loop_reads (suc fuel) i pre [] c e good n m f =
      let stop : ltb i count ≡ false = ground arith in rw stop refl
  param_loop_reads (suc fuel) i pre (p ∷ ps) c e good n m f =
      let (key, len, first) = at_param pre p ps e good.0 in
      let more : ltb i count ≡ true = ground arith in
      let next : (i + 1) % 256 ≡ i + 1 = omega arith in
      let jump : (length pre + 4 + length p.value) % 65536 ≡ length (pre ++ header p) =
        omega (arith, length-append pre (header p), length-encode_cons pre p ps e) in
      rw (more, key, len, first, next, jump)
        (param_loop_reads fuel (i + 1) (pre ++ header p) ps
          (take_param handle p.key (get_or p.value 0 0) c)
          (e ∙ sym (append_assoc pre (header p) (encode ps))) good.1 (omega arith) m (omega arith))

-- An answer that holds up to 255 well-formed parameters in less than 65536 bytes is read as those
-- parameters, each once and in order.
pub query-encode :
    (handle : ℕ) (ps : List Param) (c : Client)
    → All IsParam ps
    → length ps ≤ 255
    → length (encode ps) < 65536
    → query_internal_info_callback 0 handle (some (response_of ps)) c
      ≡ some (take_params handle ps c)
unfolding query_internal_info_callback
query-encode handle ps c good few small =
    param_loop_reads handle (encode ps) (length ps) small param_fuel 0 [] ps c refl good
      (omega arith) few (omega arith)
