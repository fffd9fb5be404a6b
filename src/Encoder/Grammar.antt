-- ===== src/Encoder/Grammar.antt =====
-- The shape of what runtime/value_encoder.rs writes to the streaming encoder.
use codetracer_python_record.Prelude.{
  ℕ, zero, suc, Option, none, some, List, [], ◌∷◌, ◌++◌, ◌≡◌, refl, length, member, subst,
  append_assoc, Bool-cases, inl, inr,
}
use codetracer_python_record.Encoder.{
  Object, none_object, boolean, int, float, str, tuple, list, dict, other, Op, begin_tuple,
  begin_sequence, end_compound, extract_text, shown_op, stream_items, stream_key, stream_entries,
  stream_fresh, is_leaf, stream_object, encode_streaming_recursive, encode_value_streaming,
}

-- A call that writes a value by itself.
abbrev pub WritesLeaf : Op → Type 0
WritesLeaf (begin_tuple n) = ⊥
WritesLeaf (begin_sequence t n) = ⊥
WritesLeaf end_compound = ⊥
WritesLeaf op = Unit

-- A call that opens a compound of so many values.
abbrev pub Opens : Op → ℕ → Type 0
Opens (begin_tuple n) k = n ≡ k
Opens (begin_sequence t n) k = n ≡ k
Opens op k = ⊥

-- The calls that write one value, and so many values: a compound holds as many values as it announced.
mutual
  pub data IsValue : List Op → Type 0 where
    leaf : (op : Op) → WritesLeaf op → IsValue (op ∷ [])
    compound :
        (op : Op) (k : ℕ) (ops : List Op)
        → Opens op k
        → AreValues k ops
        → IsValue (op ∷ (ops ++ (end_compound ∷ [])))

  pub data AreValues : ℕ → List Op → Type 0 where
    done : AreValues zero []
    more : {k : ℕ} (xs ys : List Op) → IsValue xs → AreValues k ys → AreValues (suc k) (xs ++ ys)

shown_op-IsValue : (text : Option (List ℕ)) → IsValue (shown_op text ∷ [])
shown_op-IsValue none = leaf _ tt
shown_op-IsValue (some text) = leaf _ tt

module _ (heap : ℕ → Object) where
  module _ (stream : ℕ → List ℕ → List ℕ × List Op)
      (valued : (id : ℕ) (seen : List ℕ) → IsValue (stream id seen).1) where
    items-AreValues :
        (ids seen : List ℕ) → AreValues (length ids) (stream_items heap stream ids seen).1
    unfolding stream_items
    items-AreValues [] seen = done
    items-AreValues (id ∷ ids) seen =
        more _ _ (valued id seen) (items-AreValues ids (stream id seen).0)

    key-IsValue :
        (text : Option (List ℕ)) (key : ℕ) (seen : List ℕ)
        → IsValue (stream_key heap stream text key seen).1
    key-IsValue none key seen = valued key seen
    key-IsValue (some text) key seen = leaf _ tt

    entries-AreValues :
        (entries : List (ℕ × ℕ)) (seen : List ℕ)
        → AreValues (length entries) (stream_entries heap stream entries seen).1
    unfolding stream_entries
    entries-AreValues [] seen = done
    entries-AreValues ((key, value) ∷ entries) seen =
        let k = stream_key heap stream (extract_text heap (heap key)) key seen in
        let v = stream value k.0 in
        let rest = stream_entries heap stream entries v.0 in
        let inside : AreValues 2 (k.1 ++ (v.1 ++ [])) =
          more _ _ (key-IsValue (extract_text heap (heap key)) key seen)
            (more _ _ (valued value k.0) done) in
        let pair = compound (begin_tuple 2) 2 _ refl inside in
        subst (λ l. AreValues (suc (length entries)) l) (simp (append_assoc))
          (more _ _ pair (entries-AreValues entries v.0))

    fresh-IsValue :
        (o : Object) (id : ℕ) (seen : List ℕ) → IsValue (stream_fresh heap stream o id seen).1
    unfolding stream_fresh
    fresh-IsValue none_object id seen = leaf _ tt
    fresh-IsValue (boolean b) id seen = leaf _ tt
    fresh-IsValue (int i) id seen = leaf _ tt
    fresh-IsValue (float f text) id seen = leaf _ tt
    fresh-IsValue (str text) id seen = leaf _ tt
    fresh-IsValue (tuple ids) id seen = compound _ _ _ refl (items-AreValues ids (id ∷ seen))
    fresh-IsValue (list ids) id seen = compound _ _ _ refl (items-AreValues ids (id ∷ seen))
    fresh-IsValue (dict entries) id seen =
        compound _ _ _ refl (entries-AreValues entries (id ∷ seen))
    fresh-IsValue (other text) id seen = shown_op-IsValue text

    object-IsValue :
        (o : Object) (id : ℕ) (seen : List ℕ) → IsValue (stream_object heap stream o id seen).1
    unfolding stream_object
    object-IsValue o id seen = elim (Bool-cases (is_leaf heap stream o)) [
      | inl e ↦ rw e (fresh-IsValue o id seen)
      | inr e ↦ rw e (elim (Bool-cases (member id seen)) [
        | inl m ↦ rw m (leaf _ tt)
        | inr m ↦ rw m (fresh-IsValue o id seen)
      ])
    ]

  pub recursive-IsValue :
      (left id : ℕ) (seen : List ℕ) → IsValue (encode_streaming_recursive heap left id seen).1
  unfolding encode_streaming_recursive
  recursive-IsValue zero id seen = leaf _ tt
  recursive-IsValue (suc left) id seen =
      object-IsValue (encode_streaming_recursive heap left) (λ i s. recursive-IsValue left i s)
        (heap id) id seen

-- On every heap, cyclic ones too, the encoder is told one whole value: every compound that is
-- opened is closed, and holds as many values as it announced.
pub encode_value_streaming-IsValue :
    (heap : ℕ → Object) (id : ℕ) → IsValue (encode_value_streaming heap id)
unfolding encode_value_streaming
encode_value_streaming-IsValue heap id = recursive-IsValue heap 30 id []
