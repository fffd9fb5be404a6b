-- ===== src/Encoder/Trees.antt =====
-- The two encodings of runtime/value_encoder.rs beside each other: what the streaming encoder is
-- told, and the tree that `encode_value` builds.
use codetracer_python_record.Prelude.{
  ℕ, zero, suc, ◌<◌, ◌≤◌, false, Option, none, some, List, [], ◌∷◌, ◌++◌, ◌≡◌, refl, member, arith,
  Text, ap, length, All, append_assoc, map, sym, ◌∙◌,
}
use mathlib.Core.List.{map-append}
use codetracer_python_record.Encoder.{
  Object, none_object, boolean, int, float, str, tuple, list, dict, other, Op, ValueRecord, Records,
  nil, cons, none_value, bool_value, int_value, string_value, tuple_value, sequence_value,
  raw_value, error_value, write_none, write_bool, write_int, write_float, none_type, write_string,
  write_raw, write_error, begin_tuple, begin_sequence, end_compound, object_type, list_type,
  dict_type, extract_text, encode_items, encode_key, encode_entries, encode_object, encode_value,
  stream_items, stream_key, stream_entries, stream_object, encode_streaming_recursive,
  encode_value_streaming, shown_value, shown_op,
}
use codetracer_python_record.Encoder.Cycles.{encode_streaming_recursive-seen}

unfoldable pub count : Records → ℕ
count nil = 0
count (cons r rs) = suc (count rs)

-- The calls that write a tree.
unfoldable mutual
  unfolding count

  pub ops_of : ValueRecord → List Op
  ops_of (none_value t) = write_none t ∷ []
  ops_of (bool_value b) = write_bool b ∷ []
  ops_of (int_value i) = write_int i ∷ []
  ops_of (string_value text) = write_string text ∷ []
  ops_of (tuple_value rs) = begin_tuple (count rs) ∷ (ops_all rs ++ (end_compound ∷ []))
  ops_of (sequence_value t rs) = begin_sequence t (count rs) ∷ (ops_all rs ++ (end_compound ∷ []))
  ops_of (raw_value m) = write_raw m object_type ∷ []
  ops_of (error_value m) = write_error m object_type ∷ []

  ops_all : Records → List Op
  ops_all nil = []
  ops_all (cons r rs) = ops_of r ++ ops_all rs

-- Each `None` with the type `NoneType`.
unfoldable pub retype : Op → Op
retype (write_none t) = write_none none_type
retype (write_bool b) = write_bool b
retype (write_int i) = write_int i
retype (write_float f) = write_float f
retype (write_string text) = write_string text
retype (write_raw m t) = write_raw m t
retype (write_error m t) = write_error m t
retype (begin_tuple n) = begin_tuple n
retype (begin_sequence t n) = begin_sequence t n
retype end_compound = end_compound

-- The calls that write a tree, with the type `NoneType` for each `None`.
unfoldable mutual
  unfolding count

  asked_of : ValueRecord → List Op
  asked_of (none_value t) = write_none none_type ∷ []
  asked_of (bool_value b) = write_bool b ∷ []
  asked_of (int_value i) = write_int i ∷ []
  asked_of (string_value text) = write_string text ∷ []
  asked_of (tuple_value rs) = begin_tuple (count rs) ∷ (asked_all rs ++ (end_compound ∷ []))
  asked_of (sequence_value t rs) =
      begin_sequence t (count rs) ∷ (asked_all rs ++ (end_compound ∷ []))
  asked_of (raw_value m) = write_raw m object_type ∷ []
  asked_of (error_value m) = write_error m object_type ∷ []

  asked_all : Records → List Op
  asked_all nil = []
  asked_all (cons r rs) = asked_of r ++ asked_all rs

closed_lem :
    (ops : List Op) → map retype (ops ++ end_compound ∷ []) ≡ map retype ops ++ end_compound ∷ []
unfolding retype
closed_lem ops = map-append retype ops (end_compound ∷ [])

mutual
  unfolding ops_of ops_all asked_of asked_all retype

  asked_of_lem : (r : ValueRecord) → asked_of r ≡ map retype (ops_of r)
  asked_of_lem (none_value t) = refl
  asked_of_lem (bool_value b) = refl
  asked_of_lem (int_value i) = refl
  asked_of_lem (string_value text) = refl
  asked_of_lem (tuple_value rs) =
      ap (λ l. begin_tuple (count rs) ∷ l)
        (ap (λ l. l ++ end_compound ∷ []) (asked_all_lem rs) ∙ sym (closed_lem (ops_all rs)))
  asked_of_lem (sequence_value t rs) =
      ap (λ l. begin_sequence t (count rs) ∷ l)
        (ap (λ l. l ++ end_compound ∷ []) (asked_all_lem rs) ∙ sym (closed_lem (ops_all rs)))
  asked_of_lem (raw_value m) = refl
  asked_of_lem (error_value m) = refl

  asked_all_lem : (rs : Records) → asked_all rs ≡ map retype (ops_all rs)
  asked_all_lem nil = refl
  asked_all_lem (cons r rs) =
      ap (λ l. l ++ asked_all rs) (asked_of_lem r)
      ∙ ap (λ l. map retype (ops_of r) ++ l) (asked_all_lem rs)
      ∙ sym (map-append retype (ops_of r) (ops_all rs))

-- No float, and what a container holds has a lower rank than the container.
abbrev pub RanksBelow : (ℕ → ℕ) → ℕ → Object → Type 0
RanksBelow rank r (tuple ids) = All (λ i. rank i < r) ids
RanksBelow rank r (list ids) = All (λ i. rank i < r) ids
RanksBelow rank r (dict entries) = All (λ (e : ℕ × ℕ). (rank e.0 < r) × (rank e.1 < r)) entries
RanksBelow rank r (float f text) = ⊥
RanksBelow rank r o = Unit

module _ (heap : ℕ → Object) (rank : ℕ → ℕ) where
  -- The objects that the walk is inside of stand above.
  abbrev Above : ℕ → List ℕ → Type 0
  Above r seen = All (λ k. r < rank k) seen

  Above-le : (a b : ℕ) (seen : List ℕ) → a ≤ b → Above b seen → Above a seen
  Above-le a b [] le h = tt
  Above-le a b (k ∷ seen) le h = (omega (arith, h.0), Above-le a b seen le h.1)

  Above-cons : (a id : ℕ) (seen : List ℕ) → a < rank id → Above (rank id) seen → Above a (id ∷ seen)
  Above-cons a id seen lt h = (lt, Above-le a (rank id) seen (omega arith) h)

  Above-member : (id : ℕ) (seen : List ℕ) → Above (rank id) seen → member id seen ≡ false
  unfolding member
  Above-member id [] h = refl
  Above-member id (k ∷ seen) h = ground (arith, h.0, Above-member id seen h.1)

  -- A tree, and the calls that write it.
  abbrev Agrees : Option ValueRecord → List Op → Type 0
  Agrees result ops = (r : ValueRecord) × (result ≡ some r) × (ops ≡ asked_of r)

  abbrev AllAgree : Option Records → List Op → ℕ → Type 0
  AllAgree result ops n =
      (rs : Records) × (result ≡ some rs) × (ops ≡ asked_all rs) × (count rs ≡ n)

  shown-Agrees : (text : Option Text) → Agrees (some (shown_value heap text)) (shown_op text ∷ [])
  unfolding asked_of
  shown-Agrees none = (_, refl, refl)
  shown-Agrees (some text) = (_, refl, refl)

  module _ (encode : ℕ → Option ValueRecord) (stream : ℕ → List ℕ → List ℕ × List Op)
      (same : (id : ℕ) (seen : List ℕ) → (stream id seen).0 ≡ seen) (bound : ℕ)
      (agree : (id : ℕ) (seen : List ℕ)
        → rank id < bound
        → Above (rank id) seen
        → Agrees (encode id) (stream id seen).1) where
    -- In a container of the rank `r`.
    module _ (id : ℕ) (seen : List ℕ) (le : rank id ≤ bound) (above : Above (rank id) seen) where
      child_lem : (i : ℕ) → rank i < rank id → Agrees (encode i) (stream i (id ∷ seen)).1
      child_lem i lt = agree i (id ∷ seen) (omega arith) (Above-cons (rank i) id seen lt above)

      items_lem :
          (ids : List ℕ)
          → All (λ i. rank i < rank id) ids
          → AllAgree
              (encode_items heap encode ids)
              (stream_items heap stream ids (id ∷ seen)).1
              (length ids)
      unfolding encode_items stream_items asked_of count
      items_lem [] h = (nil, refl, refl, refl)
      items_lem (i ∷ ids) h =
          let (r, er, sr) = child_lem i h.0 in
          let (rs, es, ss, n) = items_lem ids h.1 in
          (cons r rs, rw (er, es) refl, rw (same i (id ∷ seen)) (rw (sr, ss) refl), ap suc n)

      key_lem :
          (text : Option Text) (key : ℕ)
          → rank key < rank id
          → ((stream_key heap stream text key (id ∷ seen)).0 ≡ id ∷ seen)
            × Agrees
                (encode_key heap encode text key)
                (stream_key heap stream text key (id ∷ seen)).1
      unfolding asked_of
      key_lem none key lt = (same key (id ∷ seen), child_lem key lt)
      key_lem (some text) key lt = (refl, (string_value text, refl, refl))

      entries_lem :
          (entries : List (ℕ × ℕ))
          → All (λ (e : ℕ × ℕ). (rank e.0 < rank id) × (rank e.1 < rank id)) entries
          → AllAgree
              (encode_entries heap encode entries)
              (stream_entries heap stream entries (id ∷ seen)).1
              (length entries)
      unfolding encode_entries stream_entries asked_of count
      entries_lem [] h = (nil, refl, refl, refl)
      entries_lem ((key, value) ∷ entries) h =
          let (sk, (k, ek, ok)) = key_lem (extract_text heap (heap key)) key h.0.0 in
          let (v, ev, ov) = child_lem value h.0.1 in
          let (rs, es, os, n) = entries_lem entries h.1 in
          (
            cons (tuple_value (cons k (cons v nil))) rs,
            rw (ek, ev, es) refl,
            rw sk (rw (same value (id ∷ seen)) (rw (ok, ov, os) (simp (append_assoc)))),
            ap suc n,
          )

      object_lem :
          (o : Object)
          → RanksBelow rank (rank id) o
          → Agrees (encode_object heap encode o) (stream_object heap stream o id seen).1
      unfolding encode_object stream_object asked_of
      object_lem none_object h = (_, refl, refl)
      object_lem (boolean b) h = (_, refl, refl)
      object_lem (int i) h = (_, refl, refl)
      object_lem (float f t) h = absurd h
      object_lem (str t) h = (_, refl, refl)
      object_lem (tuple ids) h =
          let (rs, e, s, n) = items_lem ids h in
          (tuple_value rs, rw e refl, rw (Above-member id seen above) (rw (s, n) refl))
      object_lem (list ids) h =
          let (rs, e, s, n) = items_lem ids h in
          (sequence_value list_type rs, rw e refl, rw (Above-member id seen above) (rw (s, n) refl))
      object_lem (dict entries) h =
          let (rs, e, s, n) = entries_lem entries h in
          (sequence_value dict_type rs, rw e refl, rw (Above-member id seen above) (rw (s, n) refl))
      object_lem (other t) h =
          let (r, e, s) = shown-Agrees t in (r, e, rw (Above-member id seen above) s)

  recursive_lem :
      ((id : ℕ) → RanksBelow rank (rank id) (heap id))
      → (left id : ℕ) (seen : List ℕ) → rank id < left
      → Above (rank id) seen
      → Agrees (encode_value heap left id) (encode_streaming_recursive heap left id seen).1
  unfolding encode_value encode_streaming_recursive
  recursive_lem ranked zero id seen lt above = absurd (omega arith)
  recursive_lem ranked (suc left) id seen lt above =
      object_lem (encode_value heap left) (encode_streaming_recursive heap left)
        (encode_streaming_recursive-seen heap left) left (λ i s. recursive_lem ranked left i s) id
        seen (omega arith) above (heap id) (ranked id)

-- For a value on a heap without floats, where each container ranks above what it holds, and of a
-- rank below 30, the tree encoding ends within 30 levels, and the streaming encoder is told just
-- the calls that write this tree, but that each None has the type NoneType of the writer there,
-- where the tree has the type of the constant NONE_VALUE.
pub encode_value_streaming-encode_value :
    (heap : ℕ → Object) (rank : ℕ → ℕ)
    → ((id : ℕ) → RanksBelow rank (rank id) (heap id))
    → (id : ℕ) → rank id < 30
    → (r : ValueRecord) × (encode_value heap 30 id ≡ some r)
      × (encode_value_streaming heap id ≡ map retype (ops_of r))
unfolding encode_value_streaming
encode_value_streaming-encode_value heap rank ranked id lt =
    let (r, ends, asked) = recursive_lem heap rank ranked 30 id [] lt tt in
    (r, ends, asked ∙ asked_of_lem r)
