-- ===== src/Tests/Encoder.antt =====
-- The theorems on the encoding of values at concrete inputs.
use codetracer_python_record.Prelude.{
  ℕ, zero, suc, ◌+◌, ◌*◌, ◌≤◌, ◌≡◌, refl, true, none, some, [], ◌∷◌, arith, pos, ltb, if◌then◌else◌,
  codes, map, inl, Bool-cases, inr,
}
use codetracer_python_record.Encoder.{
  Object, none_object, list, int, str, dict, ValueRecord, encode_value, encode_value_streaming,
}
use codetracer_python_record.Encoder.Grammar.{IsValue, encode_value_streaming-IsValue}
use codetracer_python_record.Encoder.Nesting.{Weighs, Within, encode_value_streaming-Within}
use codetracer_python_record.Encoder.Tower.{Tower, base, floor, encode_value_streaming-Tower}
use codetracer_python_record.Encoder.Cycles.{encode_value-cycle}
use codetracer_python_record.Encoder.Trees.{
  RanksBelow, ops_of, retype, encode_value_streaming-encode_value,
}

-- A list that holds a text twice, a number, and `None`.
abbrev shelf : ℕ → Object
shelf zero = list (1 ∷ 1 ∷ 2 ∷ 3 ∷ [])
shelf (suc zero) = str (codes "a")
shelf (suc (suc zero)) = int (pos 3)
shelf (suc (suc (suc n))) = none_object

shelf-Weighs : (id : ℕ) → Weighs 1 (shelf id)
shelf-Weighs zero = omega arith
shelf-Weighs (suc zero) = omega arith
shelf-Weighs (suc (suc zero)) = omega arith
shelf-Weighs (suc (suc (suc n))) = omega arith

encode_value_streaming-IsValue_example : IsValue (encode_value_streaming shelf 0)
encode_value_streaming-IsValue_example = encode_value_streaming-IsValue shelf 0

encode_value_streaming-Within_example : Within (1 * 30) 0 (encode_value_streaming shelf 0)
encode_value_streaming-Within_example = encode_value_streaming-Within shelf 1 shelf-Weighs 0

abbrev rank : ℕ → ℕ
rank zero = 1
rank (suc n) = 0

shelf_ranks : (id : ℕ) → RanksBelow rank (rank id) (shelf id)
shelf_ranks zero = omega arith
shelf_ranks (suc zero) = tt
shelf_ranks (suc (suc zero)) = tt
shelf_ranks (suc (suc (suc n))) = tt

encode_value_streaming-encode_value_example :
    (r : ValueRecord) × (encode_value shelf 30 0 ≡ some r)
    × (encode_value_streaming shelf 0 ≡ map retype (ops_of r))
encode_value_streaming-encode_value_example =
    encode_value_streaming-encode_value shelf rank shelf_ranks 0 (omega arith)

-- Seventeen dictionaries, each in the one before.
abbrev tower_heap : ℕ → Object
tower_heap id = if ltb id 17 then dict ((17, id + 1) ∷ []) else str (codes "k")

tower-Weighs : (id : ℕ) → Weighs 2 (tower_heap id)
tower-Weighs id = elim (Bool-cases (ltb id 17)) [
  | inl e ↦ rw e (omega arith)
  | inr e ↦ rw e (omega arith)
]

Tower-from : (n id : ℕ) → id + n ≡ 17 → Tower tower_heap n id
Tower-from zero id h = base id
Tower-from (suc n) id h =
    let low : ltb id 17 ≡ true = ground arith in
    floor id 17 (id + 1) (codes "k") [] (rw low refl) refl (omega arith)
      (Tower-from n (id + 1) (omega arith))

encode_value_streaming-Tower_example : 2 * 17 ≤ 2 * 30
encode_value_streaming-Tower_example =
    encode_value_streaming-Tower tower_heap 17 0 (2 * 30) (Tower-from 17 0 refl) (omega arith)
      (encode_value_streaming-Within tower_heap 2 tower-Weighs 0)

-- The compounds that the encoder can hold do not suffice.
tower_exceeds : ¬ Within 32 0 (encode_value_streaming tower_heap 0)
tower_exceeds w = absurd (
    omega (
      arith,
      encode_value_streaming-Tower tower_heap 17 0 32 (Tower-from 17 0 refl) (omega arith) w,
    ))

-- A list that holds itself.
abbrev loop_heap : ℕ → Object
loop_heap id = list (id ∷ [])

encode_value-cycle_example : encode_value loop_heap 100 0 ≡ none
encode_value-cycle_example = encode_value-cycle loop_heap (λ id. id ≡ 0) (λ id h. inl h) 100 0 refl
