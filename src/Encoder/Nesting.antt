-- ===== src/Encoder/Nesting.antt =====
-- How many compounds stand open at once while runtime/value_encoder.rs writes a value.
use codetracer_python_record.Prelude.{
  ℕ, zero, suc, ◌+◌, ◌-◌, ◌*◌, ◌≤◌, Option, none, some, List, [], ◌∷◌, ◌++◌, member, subst, sym,
  append_assoc, append-nil, Bool-cases, inl, inr, arith, Text,
}
use codetracer_python_record.Encoder.{
  Object, none_object, boolean, int, float, str, tuple, list, dict, other, Op, begin_tuple,
  begin_sequence, end_compound, extract_text, shown_op, stream_items, stream_key, stream_entries,
  stream_fresh, is_leaf, stream_object, encode_streaming_recursive, encode_value_streaming,
}

-- The compounds that are open behind a call, from those before it.
abbrev pub open_after : Op → ℕ → ℕ
open_after (begin_tuple n) open_count = open_count + 1
open_after (begin_sequence t n) open_count = open_count + 1
open_after end_compound open_count = open_count - 1
open_after op open_count = open_count

-- At no point are more than `bound` compounds open.
abbrev pub Within : ℕ → ℕ → List Op → Type 0
Within bound h [] = h ≤ bound
Within bound h (op ∷ ops) = (h ≤ bound) × Within bound (open_after op h) ops

shown-Within :
    (bound h : ℕ) (text : Option Text) (rest : List Op)
    → Within bound h rest
    → h ≤ bound
    → Within bound h (shown_op text ∷ rest)
shown-Within bound h none rest w le = (le, w)
shown-Within bound h (some text) rest w le = (le, w)

-- How much an object adds by itself: a dictionary opens a sequence, and a tuple for each pair.
abbrev pub Weighs : ℕ → Object → Type 0
Weighs w (dict entries) = 2 ≤ w
Weighs w o = 1 ≤ w

module _ (heap : ℕ → Object) (bound : ℕ) where
  -- A walk that adds at most `room` compounds, before any calls that stay within the bound.
  abbrev Adds : ℕ → List Op → Type 0
  Adds room ops =
      (h : ℕ) (rest : List Op)
      → h + room ≤ bound
      → Within bound h rest
      → Within bound h (ops ++ rest)

  module _ (room : ℕ) (stream : ℕ → List ℕ → List ℕ × List Op)
      (adds : (id : ℕ) (seen : List ℕ) → Adds room (stream id seen).1) where
    items-Adds : (ids seen : List ℕ) → Adds room (stream_items heap stream ids seen).1
    unfolding stream_items
    items-Adds [] seen h rest le w = w
    items-Adds (id ∷ ids) seen h rest le w =
        subst (λ l. Within bound h l)
          (sym (
            append_assoc (stream id seen).1 (stream_items heap stream ids (stream id seen).0).1
              rest))
          (adds id seen h _ le (items-Adds ids (stream id seen).0 h rest le w))

    key-Adds :
        (text : Option Text) (key : ℕ) (seen : List ℕ)
        → Adds room (stream_key heap stream text key seen).1
    key-Adds none key seen = adds key seen
    key-Adds (some text) key seen = λ h rest le w. (omega arith, w)

    entries-Adds :
        (entries : List (ℕ × ℕ)) (seen : List ℕ)
        → Adds (room + 1) (stream_entries heap stream entries seen).1
    unfolding stream_entries
    entries-Adds [] seen h rest le w = w
    entries-Adds ((key, value) ∷ entries) seen h rest le w =
        let k = stream_key heap stream (extract_text heap (heap key)) key seen in
        let v = stream value k.0 in
        let others = stream_entries heap stream entries v.0 in
        let behind : Within bound h (others.1 ++ rest) = entries-Adds entries v.0 h rest le w in
        let closed : Within bound (h + 1) (end_compound ∷ (others.1 ++ rest)) =
          (omega arith, subst (λ n. Within bound n (others.1 ++ rest)) (omega arith) behind) in
        let valued : Within bound (h + 1) (k.1 ++ (v.1 ++ (end_compound ∷ (others.1 ++ rest)))) =
          key-Adds (extract_text heap (heap key)) key seen (h + 1) _ (omega arith)
            (adds value k.0 (h + 1) _ (omega arith) closed) in
        (omega arith, subst (λ l. Within bound (h + 1) l) (simp (append_assoc)) valued)

    compound-Adds :
        (h extra : ℕ) (ops rest : List Op)
        → Adds extra ops
        → h + extra + 1 ≤ bound
        → Within bound h rest
        → Within bound (h + 1) ((ops ++ (end_compound ∷ [])) ++ rest)
    compound-Adds h extra ops rest inner le w =
        let closed : Within bound (h + 1) (end_compound ∷ rest) =
          (omega arith, subst (λ n. Within bound n rest) (omega arith) w) in
        subst (λ l. Within bound (h + 1) l) (simp (append_assoc))
          (inner (h + 1) (end_compound ∷ rest) (omega arith) closed)

    fresh-Adds :
        (w : ℕ) (o : Object) (id : ℕ) (seen : List ℕ)
        → Weighs w o
        → Adds (room + w) (stream_fresh heap stream o id seen).1
    unfolding stream_fresh
    fresh-Adds w none_object id seen k h rest le v = (omega arith, v)
    fresh-Adds w (boolean b) id seen k h rest le v = (omega arith, v)
    fresh-Adds w (int i) id seen k h rest le v = (omega arith, v)
    fresh-Adds w (float f text) id seen k h rest le v = (omega arith, v)
    fresh-Adds w (str text) id seen k h rest le v = (omega arith, v)
    fresh-Adds w (tuple ids) id seen k h rest le v =
        (omega arith, compound-Adds h room _ rest (items-Adds ids (id ∷ seen)) (omega arith) v)
    fresh-Adds w (list ids) id seen k h rest le v =
        (omega arith, compound-Adds h room _ rest (items-Adds ids (id ∷ seen)) (omega arith) v)
    fresh-Adds w (dict entries) id seen k h rest le v = (
      omega arith,
      compound-Adds h (room + 1) _ rest (entries-Adds entries (id ∷ seen)) (omega arith) v,
    )
    fresh-Adds w (other text) id seen k h rest le v = shown-Within bound h text rest v (omega arith)

    object-Adds :
        (w : ℕ) (o : Object) (id : ℕ) (seen : List ℕ)
        → Weighs w o
        → Adds (room + w) (stream_object heap stream o id seen).1
    unfolding stream_object
    object-Adds w o id seen k = elim (Bool-cases (is_leaf heap stream o)) [
      | inl e ↦ rw e (fresh-Adds w o id seen k)
      | inr e ↦ rw e (elim (Bool-cases (member id seen)) [
        | inl m ↦ rw m (λ h rest le v. (omega arith, v))
        | inr m ↦ rw m (fresh-Adds w o id seen k)
      ])
    ]

  recursive-Adds :
      (w : ℕ)
      → ((id : ℕ) → Weighs w (heap id))
      → (left id : ℕ) (seen : List ℕ)
      → Adds (w * left) (encode_streaming_recursive heap left id seen).1
  unfolding encode_streaming_recursive
  recursive-Adds w weighs zero id seen h rest le v = (omega arith, v)
  recursive-Adds w weighs (suc left) id seen h rest le v =
      object-Adds (w * left) (encode_streaming_recursive heap left)
        (λ i s. recursive-Adds w weighs left i s) w (heap id) id seen (weighs id) h rest
        (grind arith) v

-- On a heap where each dictionary weighs at least 2 and every other object at least 1, at most
-- 30 times the weight of compounds are open at any point of an encoding.
pub encode_value_streaming-Within :
    (heap : ℕ → Object) (w : ℕ)
    → ((id : ℕ) → Weighs w (heap id))
    → (id : ℕ) → Within (w * 30) 0 (encode_value_streaming heap id)
unfolding encode_value_streaming
encode_value_streaming-Within heap w weighs id =
    subst (λ l. Within (w * 30) 0 l) (append-nil _)
      (recursive-Adds heap (w * 30) w weighs 30 id [] 0 [] (omega arith) (omega arith))
