-- ===== src/Encoder.antt =====
-- The encoding of Python values, codetracer-python-recorder/src/runtime/value_encoder.rs: `encode_value`,
-- which builds a tree, and `encode_value_streaming`, which writes to the streaming encoder. Python's
-- objects live on a heap, `heap id` is the object with that identity, so that a container can hold
-- itself. An object is what the first extraction that succeeds makes of it. A type id of the trace
-- writer is written as the name that the writer gives it for; `none_constant` is the id that the
-- constant `NONE_VALUE` of the trace types has.
pub mod Grammar
pub mod Nesting
pub mod Tower
pub mod Trees
pub mod Cycles
use codetracer_python_record.Prelude.{
  ℕ, zero, suc, Bool, not, Option, none, some, List, [], ◌∷◌, ◌++◌, ◌==◌, ℤ, Text, if◌then◌else◌,
  keep, length, member,
}

-- A number stands for the value of a float. The last field of a float and the one of `other` is what
-- `str()` answers, `none` where it raises. Integers beyond 64 bits are `other`.
pub data Object : Type 0 where
  none_object : Object
  boolean : Bool → Object
  int : ℤ → Object
  float : ℕ → Option Text → Object
  str : Text → Object
  tuple list : List ℕ → Object
  dict : List (ℕ × ℕ) → Object
  other : Option Text → Object

pub data TypeName : Type 0 where
  none_constant none_type bool_type int_type float_type string_type : TypeName
  tuple_type list_type dict_type object_type cycle_type : TypeName

-- The texts that stand for a value that is not written.
pub data Message : Type 0 where
  unrepr cycle depth_limit : Message
  shown : Text → Message

-- `ValueRecord`.
mutual
  pub data ValueRecord : Type 0 where
    none_value : TypeName → ValueRecord
    bool_value : Bool → ValueRecord
    int_value : ℤ → ValueRecord
    string_value : Text → ValueRecord
    tuple_value : Records → ValueRecord
    sequence_value : TypeName → Records → ValueRecord
    raw_value error_value : Message → ValueRecord

  pub data Records : Type 0 where
    nil : Records
    cons : ValueRecord → Records → Records

module _ (heap : ℕ → Object) where
  -- `extract::<String>` of a key.
  abbrev pub extract_text : Object → Option Text
  extract_text none_object = none
  extract_text (boolean b) = none
  extract_text (int i) = none
  extract_text (float f t) = none
  extract_text (str text) = some text
  extract_text (tuple ids) = none
  extract_text (list ids) = none
  extract_text (dict entries) = none
  extract_text (other t) = none

  abbrev pub shown_value : Option Text → ValueRecord
  shown_value none = error_value unrepr
  shown_value (some text) = raw_value (shown text)

  -- Both results before the rest, where all of them are there.
  abbrev pub before : Option ValueRecord → Option Records → Option Records
  before none rest = none
  before (some r) none = none
  before (some r) (some rs) = some (cons r rs)

  abbrev pub wrap : (Records → ValueRecord) → Option Records → Option ValueRecord
  wrap f none = none
  wrap f (some rs) = some (f rs)

  module _ (encode : ℕ → Option ValueRecord) where
    unfoldable pub encode_items : List ℕ → Option Records
    encode_items [] = some nil
    encode_items (id ∷ ids) = before (encode id) (encode_items ids)

    abbrev pub encode_key : Option Text → ℕ → Option ValueRecord
    encode_key none key = encode key
    encode_key (some text) key = some (string_value text)

    -- A pair of a dictionary, as a tuple.
    abbrev pub encode_pair : ℕ → ℕ → Option ValueRecord
    encode_pair key value =
        wrap tuple_value
          (before (encode_key (extract_text (heap key)) key) (before (encode value) (some nil)))

    unfoldable pub encode_entries : List (ℕ × ℕ) → Option Records
    encode_entries [] = some nil
    encode_entries ((key, value) ∷ entries) =
        before (encode_pair key value) (encode_entries entries)

    unfoldable pub encode_object : Object → Option ValueRecord
    unfolding encode_items encode_entries
    encode_object none_object = some (none_value none_constant)
    encode_object (boolean b) = some (bool_value b)
    encode_object (int i) = some (int_value i)
    encode_object (float f text) = some (shown_value text)
    encode_object (str text) = some (string_value text)
    encode_object (tuple ids) = wrap tuple_value (encode_items ids)
    encode_object (list ids) = wrap (sequence_value list_type) (encode_items ids)
    encode_object (dict entries) = wrap (sequence_value dict_type) (encode_entries entries)
    encode_object (other text) = some (shown_value text)

  -- `encode_value`. The source recurs without a bound: `none` is more nesting than the fuel.
  unfoldable pub encode_value : ℕ → ℕ → Option ValueRecord
  unfolding encode_object
  encode_value zero id = none
  encode_value (suc n) id = encode_object (encode_value n) (heap id)

-- A call on the streaming encoder.
pub data Op : Type 0 where
  write_none : TypeName → Op
  write_bool : Bool → Op
  write_int : ℤ → Op
  write_float : ℕ → Op
  write_string : Text → Op
  write_raw write_error : Message → TypeName → Op
  begin_tuple : ℕ → Op
  begin_sequence : TypeName → ℕ → Op
  end_compound : Op

-- `seen.remove`.
unfoldable pub remove_id : ℕ → List ℕ → List ℕ
remove_id id seen = keep (λ (k : ℕ). not (k == id)) seen

abbrev pub shown_op : Option Text → Op
shown_op none = write_error unrepr object_type
shown_op (some text) = write_raw (shown text) object_type

module _ (heap : ℕ → Object) where
  module _ (stream : ℕ → List ℕ → List ℕ × List Op) where
    unfoldable pub stream_items : List ℕ → List ℕ → List ℕ × List Op
    stream_items [] seen = (seen, [])
    stream_items (id ∷ ids) seen =
        let (seen', ops) = stream id seen in
        let rest = stream_items ids seen' in (rest.0, ops ++ rest.1)

    abbrev pub stream_key : Option Text → ℕ → List ℕ → List ℕ × List Op
    stream_key none key seen = stream key seen
    stream_key (some text) key seen = (seen, write_string text ∷ [])

    unfoldable pub stream_entries : List (ℕ × ℕ) → List ℕ → List ℕ × List Op
    stream_entries [] seen = (seen, [])
    stream_entries ((key, value) ∷ entries) seen =
        let k = stream_key (extract_text heap (heap key)) key seen in
        let v = stream value k.0 in
        let rest = stream_entries entries v.0 in
        (rest.0, begin_tuple 2 ∷ (k.1 ++ (v.1 ++ (end_compound ∷ rest.1))))

    -- What is written between the calls of a compound, and the identities behind it.
    abbrev pub compound : ℕ → Op → List ℕ × List Op → List ℕ × List Op
    compound id op inner = (remove_id id inner.0, op ∷ (inner.1 ++ (end_compound ∷ [])))

    -- A container, or an object of another type, that the walk is not inside of.
    unfoldable pub stream_fresh : Object → ℕ → List ℕ → List ℕ × List Op
    unfolding stream_items stream_entries remove_id
    stream_fresh none_object id seen = (seen, write_none none_type ∷ [])
    stream_fresh (boolean b) id seen = (seen, write_bool b ∷ [])
    stream_fresh (int i) id seen = (seen, write_int i ∷ [])
    stream_fresh (float f text) id seen = (seen, write_float f ∷ [])
    stream_fresh (str text) id seen = (seen, write_string text ∷ [])
    stream_fresh (tuple ids) id seen =
        compound id (begin_tuple (length ids)) (stream_items ids (id ∷ seen))
    stream_fresh (list ids) id seen =
        compound id (begin_sequence list_type (length ids)) (stream_items ids (id ∷ seen))
    stream_fresh (dict entries) id seen =
        compound id (begin_sequence dict_type (length entries)) (stream_entries entries (id ∷ seen))
    stream_fresh (other text) id seen = (remove_id id (id ∷ seen), shown_op text ∷ [])

    -- The types that are not checked for a cycle.
    abbrev pub is_leaf : Object → Bool
    is_leaf none_object = Bool.true
    is_leaf (boolean b) = Bool.true
    is_leaf (int i) = Bool.true
    is_leaf (float f text) = Bool.true
    is_leaf (str text) = Bool.true
    is_leaf (tuple ids) = Bool.false
    is_leaf (list ids) = Bool.false
    is_leaf (dict entries) = Bool.false
    is_leaf (other text) = Bool.false

    unfoldable pub stream_object : Object → ℕ → List ℕ → List ℕ × List Op
    unfolding stream_fresh
    stream_object o id seen =
        if is_leaf o
        then stream_fresh o id seen
        else if member id seen
        then (seen, write_error cycle cycle_type ∷ [])
        else stream_fresh o id seen

  -- `encode_streaming_recursive`, where the number is what is left of the depth.
  unfoldable pub encode_streaming_recursive : ℕ → ℕ → List ℕ → List ℕ × List Op
  unfolding stream_object
  encode_streaming_recursive zero id seen = (seen, write_raw depth_limit object_type ∷ [])
  encode_streaming_recursive (suc left) id seen =
      stream_object (encode_streaming_recursive left) (heap id) id seen

  abbrev pub max_streaming_depth : ℕ
  max_streaming_depth = 30

  -- What is written between the reset of the encoder and the copy of its bytes.
  unfoldable pub encode_value_streaming : ℕ → List Op
  unfolding encode_streaming_recursive
  encode_value_streaming id = (encode_streaming_recursive max_streaming_depth id []).1
