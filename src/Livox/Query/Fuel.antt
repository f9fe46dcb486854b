-- ===== src/Livox/Query/Fuel.antt =====
-- When the parameter loop of QueryInternalInfoCallback ends.
use mandeye_controller.Prelude.{
  ℕ, zero, suc, ◌+◌, ◌%◌, ◌<◌, ◌≤◌, ◌≡◌, refl, none, some, arith, Bool-cases, ltb, ◌==◌, inl, inr,
}
use mandeye_controller.Livox.{Client}
use mandeye_controller.Livox.Query.{
  Response, param_loop, take_param, uint16_at, param_fuel, query_internal_info_callback,
}

param_loop_ends :
    (fuel i off handle : ℕ) (r : Response) (c : Client)
    → r.param_num ≤ 255
    → i ≤ r.param_num
    → r.param_num < i + fuel
    → (d : Client) × (param_loop fuel i off handle r c ≡ some d)
unfolding param_loop
param_loop_ends zero i off handle r c small below enough = absurd (omega arith)
param_loop_ends (suc fuel) i off handle r c small below enough =
    elim (Bool-cases (ltb i r.param_num)) [
      | inl more ↦ rw more (
          param_loop_ends fuel ((i + 1) % 256) ((off + 4 + uint16_at r (off + 2)) % 65536) handle r
            (take_param handle (uint16_at r off) (r.bytes (off + 4)) c) small (ground arith)
            (ground arith))
      | inr done ↦ rw done (c, refl)
    ]

-- The callback returns on an answer of at most 255 parameters, whatever its bytes and its status.
pub query_terminates :
    (status handle : ℕ) (r : Response) (c : Client)
    → r.param_num ≤ 255
    → (d : Client) × (query_internal_info_callback status handle (some r) c ≡ some d)
unfolding query_internal_info_callback
query_terminates status handle r c small = elim (Bool-cases (status == 0)) [
  | inl good ↦ rw good (param_loop_ends param_fuel 0 0 handle r c small (omega arith) (omega arith))
  | inr bad ↦ rw bad (_, refl)
]

-- From 256 parameters on, the loop has not ended after any number of rounds: the uint8_t index
-- never reaches their number.
pub param_loop_hangs :
    (fuel i off handle : ℕ) (r : Response) (c : Client)
    → 256 ≤ r.param_num
    → i ≤ 255
    → param_loop fuel i off handle r c ≡ none
unfolding param_loop
param_loop_hangs zero i off handle r c many small = refl
param_loop_hangs (suc fuel) i off handle r c many small = ground (
  arith,
  param_loop_hangs fuel ((i + 1) % 256) ((off + 4 + uint16_at r (off + 2)) % 65536) handle r
      (take_param handle (uint16_at r off) (r.bytes (off + 4)) c),
)
