-- ===== src/Encoder/Tower.antt =====
-- Dictionaries inside dictionaries in runtime/value_encoder.rs, and the compounds that they open.
use codetracer_python_record.Prelude.{
  ℕ, zero, suc, ◌+◌, ◌*◌, ◌<◌, ◌≤◌, List, [], ◌∷◌, ◌++◌, ◌≡◌, refl, member, false, arith, All, Text,
  subst, sym, length, append_assoc, append-nil,
}
use codetracer_python_record.Encoder.{
  Object, str, dict, Op, stream_object, dict_type, begin_tuple, begin_sequence, write_string,
  end_compound, stream_entries, encode_streaming_recursive, encode_value_streaming,
}
use codetracer_python_record.Encoder.Nesting.{Within}

-- So many dictionaries, each the value behind the first key, a text, of the one before.
pub data Tower (heap : ℕ → Object) : ℕ → ℕ → Type 0 where
  base : (id : ℕ) → Tower heap zero id
  floor :
      {n : ℕ} (id key value : ℕ) (text : Text) (entries : List (ℕ × ℕ))
      → heap id ≡ dict ((key, value) ∷ entries)
      → heap key ≡ str text
      → id < value
      → Tower heap n value
      → Tower heap (suc n) id

Within-le : (bound h : ℕ) (ops rest : List Op) → Within bound h (ops ++ rest) → h ≤ bound
Within-le bound h [] [] w = w
Within-le bound h [] (op ∷ rest) w = w.0
Within-le bound h (op ∷ ops) rest w = w.0

above-member : (id : ℕ) (seen : List ℕ) → All (λ k. k < id) seen → member id seen ≡ false
unfolding member
above-member id [] h = refl
above-member id (k ∷ seen) h = ground (arith, h.0, above-member id seen h.1)

All-above : (a b : ℕ) (seen : List ℕ) → a < b → All (λ k. k < a) seen → All (λ k. k < b) seen
All-above a b [] lt h = tt
All-above a b (k ∷ seen) lt h = (omega (arith, h.0), All-above a b seen lt h.1)

module _ (heap : ℕ → Object) where
  -- What a floor writes before what its value writes, and that there is something behind.
  floor_ops :
      (left id key value : ℕ) (text : Text) (entries : List (ℕ × ℕ)) (seen : List ℕ)
      → heap id ≡ dict ((key, value) ∷ entries)
      → heap key ≡ str text
      → member id seen ≡ false
      → (behind : List Op) × ((encode_streaming_recursive heap (suc left) id seen).1
          ≡ begin_sequence dict_type (suc (length entries))
            ∷ begin_tuple 2
            ∷ write_string text
            ∷ ((encode_streaming_recursive heap left value (id ∷ seen)).1 ++ behind))
  unfolding encode_streaming_recursive stream_object stream_entries
  floor_ops left id key value text entries seen e t fresh =
      let v = encode_streaming_recursive heap left value (id ∷ seen) in
      let others = stream_entries heap (encode_streaming_recursive heap left) entries v.0 in
      ((end_compound ∷ others.1) ++ (end_compound ∷ []), rw (e, fresh, t) (simp (append_assoc)))

  -- Each floor has two more compounds open than the one above it.
  module _ (bound : ℕ) where
    tower_lem :
        {n : ℕ} (left id h : ℕ) (seen : List ℕ) (rest : List Op)
        → Tower heap n id
        → n ≤ left
        → All (λ k. k < id) seen
        → Within bound h ((encode_streaming_recursive heap left id seen).1 ++ rest)
        → h + 2 * n ≤ bound
    tower_lem left id h seen rest (base _) le fresh w =
        let small : h ≤ bound =
          Within-le bound h (encode_streaming_recursive heap left id seen).1 rest w in
        omega arith
    tower_lem zero id h seen rest (floor _ key value text entries e t lt below) le fresh w =
        absurd (omega arith)
    tower_lem (suc left) id h seen rest (floor _ key value text entries e t lt below) le fresh w =
        let (behind, written) =
          floor_ops left id key value text entries seen e t (above-member id seen fresh) in
        let v = encode_streaming_recursive heap left value (id ∷ seen) in
        let opened = subst (λ l. Within bound h (l ++ rest)) written w in
        let inside : Within bound (h + 1 + 1) (v.1 ++ (behind ++ rest)) =
          subst (λ l. Within bound (h + 1 + 1) l) (append_assoc v.1 behind rest) opened.1.1.1 in
        let deep =
          tower_lem left value (h + 1 + 1) (id ∷ seen) (behind ++ rest) below (omega arith)
            (lt, All-above id value seen lt fresh) inside in
        omega (arith, deep)

-- Where n dictionaries stand in each other, each the value behind the first key of the one
-- before, a text, with rising identities and n at most 30, the encoding has at least 2n
-- compounds open at some point: no lower bound holds.
pub encode_value_streaming-Tower :
    (heap : ℕ → Object) (n id bound : ℕ)
    → Tower heap n id
    → n ≤ 30
    → Within bound 0 (encode_value_streaming heap id)
    → 2 * n ≤ bound
unfolding encode_value_streaming
encode_value_streaming-Tower heap n id bound tower le w = omega (
  arith,
  tower_lem heap bound 30 id 0 [] [] tower le tt
      (subst (λ l. Within bound 0 l) (sym (append-nil _)) w),
)
