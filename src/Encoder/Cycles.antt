-- ===== src/Encoder/Cycles.antt =====
-- Identities in runtime/value_encoder.rs: the ones that a walk is inside of, and objects on a cycle.
use codetracer_python_record.Prelude.{
  ℕ, zero, suc, true, false, Option, none, some, List, [], ◌∷◌, ◌∙◌, ◌≡◌, ◌⊎◌, refl, member,
  Bool-cases, inl, inr, arith, Text, ap,
}
use codetracer_python_record.Encoder.{
  Object, none_object, boolean, int, float, str, tuple, list, dict, other, Op, ValueRecord, before,
  extract_text, encode_items, encode_key, encode_pair, encode_entries, encode_object, encode_value,
  remove_id, stream_items, stream_key, stream_entries, stream_fresh, is_leaf, stream_object,
  encode_streaming_recursive,
}

remove_id-fresh : (id : ℕ) (seen : List ℕ) → member id seen ≡ false → remove_id id seen ≡ seen
unfolding remove_id member
remove_id-fresh id [] h = refl
remove_id-fresh id (k ∷ seen) h = ground (arith, remove_id-fresh id seen)

remove_id-cons : (id : ℕ) (seen : List ℕ) → member id seen ≡ false → remove_id id (id ∷ seen) ≡ seen
unfolding remove_id
remove_id-cons id seen h = ground (arith, remove_id-fresh id seen h)

module _ (heap : ℕ → Object) where
  module _ (stream : ℕ → List ℕ → List ℕ × List Op)
      (same : (id : ℕ) (seen : List ℕ) → (stream id seen).0 ≡ seen) where
    items-seen : (ids seen : List ℕ) → (stream_items heap stream ids seen).0 ≡ seen
    unfolding stream_items
    items-seen [] seen = refl
    items-seen (id ∷ ids) seen = items-seen ids (stream id seen).0 ∙ same id seen

    key-seen :
        (text : Option Text) (key : ℕ) (seen : List ℕ)
        → (stream_key heap stream text key seen).0 ≡ seen
    key-seen none key seen = same key seen
    key-seen (some text) key seen = refl

    entries-seen :
        (entries : List (ℕ × ℕ)) (seen : List ℕ)
        → (stream_entries heap stream entries seen).0 ≡ seen
    unfolding stream_entries
    entries-seen [] seen = refl
    entries-seen ((key, value) ∷ entries) seen =
        let k = stream_key heap stream (extract_text heap (heap key)) key seen in
        entries-seen entries (stream value k.0).0
        ∙ same value k.0
        ∙ key-seen (extract_text heap (heap key)) key seen

    fresh-seen :
        (o : Object) (id : ℕ) (seen : List ℕ)
        → member id seen ≡ false
        → (stream_fresh heap stream o id seen).0 ≡ seen
    unfolding stream_fresh
    fresh-seen none_object id seen h = refl
    fresh-seen (boolean b) id seen h = refl
    fresh-seen (int i) id seen h = refl
    fresh-seen (float f text) id seen h = refl
    fresh-seen (str text) id seen h = refl
    fresh-seen (tuple ids) id seen h =
        ap (remove_id id) (items-seen ids (id ∷ seen)) ∙ remove_id-cons id seen h
    fresh-seen (list ids) id seen h =
        ap (remove_id id) (items-seen ids (id ∷ seen)) ∙ remove_id-cons id seen h
    fresh-seen (dict entries) id seen h =
        ap (remove_id id) (entries-seen entries (id ∷ seen)) ∙ remove_id-cons id seen h
    fresh-seen (other text) id seen h = remove_id-cons id seen h

    leaf-seen :
        (o : Object) (id : ℕ) (seen : List ℕ)
        → is_leaf heap stream o ≡ true
        → (stream_fresh heap stream o id seen).0 ≡ seen
    unfolding stream_fresh
    leaf-seen none_object id seen h = refl
    leaf-seen (boolean b) id seen h = refl
    leaf-seen (int i) id seen h = refl
    leaf-seen (float f text) id seen h = refl
    leaf-seen (str text) id seen h = refl
    leaf-seen (tuple ids) id seen h = cc
    leaf-seen (list ids) id seen h = cc
    leaf-seen (dict entries) id seen h = cc
    leaf-seen (other text) id seen h = cc

    object-seen :
        (o : Object) (id : ℕ) (seen : List ℕ) → (stream_object heap stream o id seen).0 ≡ seen
    unfolding stream_object
    object-seen o id seen = elim (Bool-cases (is_leaf heap stream o)) [
      | inl e ↦ rw e (leaf-seen o id seen e)
      | inr e ↦ rw e (elim (Bool-cases (member id seen)) [
        | inl m ↦ rw m refl
        | inr m ↦ rw m (fresh-seen o id seen m)
      ])
    ]

  -- The set of objects on the way is the same behind an encoding as before it.
  pub encode_streaming_recursive-seen :
      (left id : ℕ) (seen : List ℕ) → (encode_streaming_recursive heap left id seen).0 ≡ seen
  unfolding encode_streaming_recursive
  encode_streaming_recursive-seen zero id seen = refl
  encode_streaming_recursive-seen (suc left) id seen =
      object-seen (encode_streaming_recursive heap left)
        (λ i s. encode_streaming_recursive-seen left i s) (heap id) id seen

  -- An object holds one of those that `P` says.
  abbrev pub HoldsOne : (ℕ → Type 0) → List ℕ → Type 0
  HoldsOne P [] = ⊥
  HoldsOne P (id ∷ ids) = P id ⊎ HoldsOne P ids

  abbrev pub values_of : List (ℕ × ℕ) → List ℕ
  values_of [] = []
  values_of ((key, value) ∷ entries) = value ∷ values_of entries

  abbrev pub Holds : (ℕ → Type 0) → Object → Type 0
  Holds P (tuple ids) = HoldsOne P ids
  Holds P (list ids) = HoldsOne P ids
  Holds P (dict entries) = HoldsOne P (values_of entries)
  Holds P o = ⊥

  before-none : (r : Option ValueRecord) → before heap r none ≡ none
  before-none none = refl
  before-none (some r) = refl

  module _ (P : ℕ → Type 0) (encode : ℕ → Option ValueRecord)
      (fails : (id : ℕ) → P id → encode id ≡ none) where
    items-none : (ids : List ℕ) → HoldsOne P ids → encode_items heap encode ids ≡ none
    unfolding encode_items
    items-none [] h = absurd h
    items-none (id ∷ ids) (inl p) = rw (fails id p) refl
    items-none (id ∷ ids) (inr h) = rw (items-none ids h) (before-none (encode id))

    pair-none : (key value : ℕ) → P value → encode_pair heap encode key value ≡ none
    pair-none key value p =
        rw (fails value p)
          (rw (before-none (encode_key heap encode (extract_text heap (heap key)) key)) refl)

    entries-none :
        (entries : List (ℕ × ℕ))
        → HoldsOne P (values_of entries)
        → encode_entries heap encode entries ≡ none
    unfolding encode_entries
    entries-none [] h = absurd h
    entries-none ((key, value) ∷ entries) (inl p) = rw (pair-none key value p) refl
    entries-none ((key, value) ∷ entries) (inr h) =
        rw (entries-none entries h) (before-none (encode_pair heap encode key value))

    object-none : (o : Object) → Holds P o → encode_object heap encode o ≡ none
    unfolding encode_object
    object-none none_object h = absurd h
    object-none (boolean b) h = absurd h
    object-none (int i) h = absurd h
    object-none (float f t) h = absurd h
    object-none (str t) h = absurd h
    object-none (tuple ids) h = rw (items-none ids h) refl
    object-none (list ids) h = rw (items-none ids h) refl
    object-none (dict entries) h = rw (entries-none entries h) refl
    object-none (other t) h = absurd h

-- Where every object of a set holds one of the set, as an item or as the value of a key, the
-- tree encoding of such an object ends within no number of levels.
pub encode_value-cycle :
    (heap : ℕ → Object) (P : ℕ → Type 0)
    → ((id : ℕ) → P id → Holds heap P (heap id))
    → (fuel id : ℕ) → P id
    → encode_value heap fuel id ≡ none
unfolding encode_value
encode_value-cycle heap P holds zero id p = refl
encode_value-cycle heap P holds (suc fuel) id p =
    object-none heap P (encode_value heap fuel) (λ i q. encode_value-cycle heap P holds fuel i q)
      (heap id) (holds id p)
