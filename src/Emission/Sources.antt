-- ===== src/Emission/Sources.antt =====
-- The names and the call keys on the right of the assignments that runtime/tracer/events.rs emits.
use codetracer_python_record.Prelude.{
  ℕ, ◌≡◌, ℤ, pos, negsuc, Bool, true, false, List, [], ◌∷◌, String, map, All, All-append, eq_iff,
  arith, Bool-cases, inl, inr,
}
use codetracer_python_record.Reconstructor.Window.{
  RValueShape, literal, simple, field_access, index_access, function_return, compound, unclassified,
}
use codetracer_python_record.Reconstructor.Table.{LineAssignment}
use codetracer_python_record.Emission.{
  literal_value, simple_value, field_value, index_value, return_value, compound_value, WriterCall,
  ensure_variable_id, bind_variable, assignment, has_name, build_rvalue, assignment_calls,
  bind_name, emit_loop,
}

-- The names for which calls ask the writer for an id.
abbrev pub ensured : List WriterCall → List String
ensured [] = []
ensured (ensure_variable_id s ∷ calls) = s ∷ ensured calls
ensured (bind_variable id ∷ calls) = ensured calls
ensured (assignment id value ∷ calls) = ensured calls

-- The key of a call that an assignment names is one that was recorded.
abbrev pub HasKey : WriterCall → Type 0
HasKey (ensure_variable_id s) = Unit
HasKey (bind_variable id) = Unit
HasKey (assignment id (return_value (negsuc k))) = ⊥
HasKey (assignment id (return_value (pos k))) = Unit
HasKey (assignment id literal_value) = Unit
HasKey (assignment id (simple_value v)) = Unit
HasKey (assignment id (field_value v f)) = Unit
HasKey (assignment id (index_value v k)) = Unit
HasKey (assignment id (compound_value vs)) = Unit

module _ (id_of : String → ℕ) where
  ensures-HasKey :
      (names : List String) → All HasKey (map (λ (s : String). ensure_variable_id s) names)
  ensures-HasKey [] = tt
  ensures-HasKey (s ∷ names) = (tt, ensures-HasKey names)

  rvalue-HasKey :
      (shape : RValueShape) (key : ℤ) (id : ℕ)
      → HasKey (assignment id (build_rvalue id_of shape key).0)
        × All HasKey (build_rvalue id_of shape key).1
  unfolding build_rvalue
  rvalue-HasKey literal key id = (tt, tt)
  rvalue-HasKey (simple s) key id = (tt, (tt, tt))
  rvalue-HasKey (field_access r f) key id = (tt, (tt, tt))
  rvalue-HasKey (index_access r k) key id = (tt, (tt, tt))
  rvalue-HasKey function_return (pos key) id = (tt, tt)
  rvalue-HasKey function_return (negsuc key) id = (tt, tt)
  rvalue-HasKey (compound sources) key id = (tt, ensures-HasKey sources)
  rvalue-HasKey unclassified key id = (tt, tt)

  calls-HasKey :
      (bound : List String) (a : LineAssignment) (key : ℤ)
      → All HasKey (assignment_calls id_of bound a key)
  unfolding assignment_calls
  calls-HasKey bound a key =
      let (assigned, values) = rvalue-HasKey a.rvalue key (id_of a.target) in
      elim (Bool-cases (has_name a.target bound)) [
        | inl h ↦ (
          tt,
          All-append HasKey (build_rvalue id_of a.rvalue key).1 _ values (rw h (assigned, tt)),
        )
        | inr h ↦ (
          tt,
          All-append HasKey (build_rvalue id_of a.rvalue key).1 _ values
              (rw h (tt, (assigned, tt))),
        )
      ]

  -- No assignment that is emitted names the key of a call that was never recorded, whatever the
  -- latest key is.
  emit_loop-HasKey :
      (drops : String → Bool) (key : ℤ) (bound : List String) (assignments : List LineAssignment)
      → All HasKey (emit_loop id_of drops key bound assignments).1
  unfolding emit_loop
  emit_loop-HasKey drops key bound [] = tt
  emit_loop-HasKey drops key bound (a ∷ assignments) = elim (Bool-cases (drops a.target)) [
    | inl h ↦ rw h (emit_loop-HasKey drops key bound assignments)
    | inr h ↦ rw h (
        All-append HasKey (assignment_calls id_of bound a key) _ (calls-HasKey bound a key)
          (emit_loop-HasKey drops key (bind_name a.target bound) assignments))
  ]

  -- A kept assignment that copies a variable asks the writer for the id of that variable, also
  -- where the policy drops it.
  emit_loop-source :
      (drops : String → Bool) (key : ℤ) (bound : List String) (a : LineAssignment)
      (assignments : List LineAssignment) (source : String)
      → drops a.target ≡ false
      → drops source ≡ true
      → a.rvalue ≡ simple source
      → has_name source (ensured (emit_loop id_of drops key bound (a ∷ assignments)).1) ≡ true
  unfolding emit_loop assignment_calls build_rvalue has_name
  emit_loop-source drops key bound a assignments source kept dropped copies =
      rw kept (rw copies (ground (arith, eq_iff source source)))
