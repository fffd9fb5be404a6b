-- ===== src/Reconstructor/Answers.antt =====
-- Lines with several statements, destructured constants, columns and the cache of
-- runtime/assignment_reconstructor.rs.
use codetracer_python_record.Prelude.{
  ℕ, suc, ◌≤◌, ◌≡◌, ◌≢◌, ◌⊎◌, refl, sym, ap, ◌∙◌, pos, false, Option, none, some, List, [], ◌∷◌,
  String, ltb, ◌==◌, All, lookup, insert, lookup-insert, ==_refl, arith, subst, Bool-cases,
  Option-cases, inl, inr,
}
use codetracer_python_record.Reconstructor.Window.{
  literal, index_access, name, DecodedInstruction, is_load_op, is_noise, is_pop_top_or_kwnames,
  pop_tail, meaningful, classify_window,
}
use codetracer_python_record.Reconstructor.Table.{
  LineAssignment, LineAssignmentTable, for_line, min_column, first_column, first_column_for_line,
  is_on, count_stores, find_receiver, window_before, detect_unpack_sequence, classify_rvalue,
  build_table, keep_built, AssignmentReconstructor, table_for,
}
use codetracer_python_record.Reconstructor.Shapes.{IsConstant, classify_window-literal}

-- An instruction of this name on this line.
abbrev pub IsAt : DecodedInstruction → String → ℕ → Type 0
IsAt i op line = (i.opname ≡ op) × (i.line ≡ some line)

not_constant :
    (load store : DecodedInstruction) (w : List DecodedInstruction)
    → load.opname ≡ "LOAD_CONST"
    → store.opname ≡ "STORE_NAME"
    → IsConstant (meaningful (load ∷ store ∷ w))
    → ⊥
unfolding is_noise is_pop_top_or_kwnames pop_tail
not_constant load store w h k = rw h (rw k (λ x. x))

classify_rvalue_window :
    (load : DecodedInstruction) (before rest : List DecodedInstruction) (line : ℕ)
    → IsAt load "LOAD_CONST" line
    → (classify_rvalue (load ∷ before) rest line).0
      ≡ classify_window (load ∷ window_before before line)
unfolding classify_rvalue detect_unpack_sequence
classify_rvalue_window load [] rest line h = rw h.0 (rw h.1 (rw (==_refl line) refl))
classify_rvalue_window load (i ∷ before) rest line h = rw h.0 (rw h.1 (rw (==_refl line) refl))

window_before_on :
    (i : DecodedInstruction) (before : List DecodedInstruction) (line : ℕ)
    → i.line ≡ some line
    → window_before (i ∷ before) line ≡ i ∷ window_before before line
unfolding window_before
window_before_on i before line h = rw h (rw (==_refl line) refl)

-- A store of a constant is not classified as a literal where a store stands before the load of
-- the constant on the same line.
classify_rvalue-second_statement :
    (load store : DecodedInstruction) (before rest : List DecodedInstruction) (line : ℕ)
    → IsAt load "LOAD_CONST" line
    → IsAt store "STORE_NAME" line
    → (classify_rvalue (load ∷ store ∷ before) rest line).0 ≢ literal
classify_rvalue-second_statement load store before rest line h k literal_stored =
    not_constant load store (window_before before line) h.0 k.0 (
      (classify_window-literal (load ∷ store ∷ window_before before line)).0 (
        sym (
          classify_rvalue_window load (store ∷ before) rest line h
          ∙ ap (λ (w : List DecodedInstruction). classify_window (load ∷ w))
              (window_before_on store before line k.1))
        ∙ literal_stored))

find_receiver_stop :
    (line : ℕ) (i : DecodedInstruction) (before : List DecodedInstruction)
    → is_on line i.line ≡ false
    → find_receiver line i before ≡ i
unfolding find_receiver
find_receiver_stop line i [] h = refl
find_receiver_stop line i (j ∷ before) h = rw h refl

-- Where a constant is unpacked into stores, and the instruction before the load of it is on
-- another line and has a name, the stores are said to be parts of that name.
classify_rvalue-constant_sequence :
    (unpack load previous : DecodedInstruction) (before rest : List DecodedInstruction)
    (line line' n : ℕ) (x : String)
    → IsAt unpack "UNPACK_SEQUENCE" line
    → IsAt load "LOAD_CONST" line
    → previous.line ≡ some line'
    → (line' == line) ≡ false
    → previous.argval_kind ≡ name x
    → count_stores line rest ≡ suc n
    → classify_rvalue (unpack ∷ load ∷ previous ∷ before) rest line
      ≡ (index_access x (pos 0), suc n)
unfolding classify_rvalue detect_unpack_sequence find_receiver is_load_op
classify_rvalue-constant_sequence unpack load previous before rest line line' n x u l p other named
      c =
    rw u.0 (
      rw u.1 (
        rw (==_refl line) (
          rw l.0 (
            rw l.1 (
              rw (==_refl line) (
                rw (find_receiver_stop line previous before (rw p other))
                  (rw named (rw c refl))))))))

abbrev pub AtLeast : ℕ → Option ℕ → Type 0
AtLeast c none = Unit
AtLeast c (some d) = c ≤ d

AtLeast-le : (c d : ℕ) (column : Option ℕ) → c ≤ d → AtLeast d column → AtLeast c column
AtLeast-le c d none le h = tt
AtLeast-le c d (some x) le h = omega arith

abbrev pub IsLeast : ℕ → List LineAssignment → Type 0
IsLeast c [] = Unit
IsLeast c (a ∷ stores) = AtLeast c a.column × IsLeast c stores

abbrev pub Stands : ℕ → List LineAssignment → Type 0
Stands c [] = ⊥
Stands c (a ∷ stores) = (a.column ≡ some c) ⊎ Stands c stores

-- No column for stores without any; else one that stands there, and none of them is smaller.
abbrev pub IsFirst : Option ℕ → List LineAssignment → Type 0
IsFirst none stores = All (λ (a : LineAssignment). a.column ≡ none) stores
IsFirst (some c) stores = IsLeast c stores × Stands c stores

none-IsLeast :
    (c : ℕ) (stores : List LineAssignment)
    → All (λ (a : LineAssignment). a.column ≡ none) stores
    → IsLeast c stores
none-IsLeast c [] h = tt
none-IsLeast c (a ∷ stores) h = (rw h.0 tt, none-IsLeast c stores h.1)

IsLeast-le : (c d : ℕ) (stores : List LineAssignment) → c ≤ d → IsLeast d stores → IsLeast c stores
IsLeast-le c d [] le h = tt
IsLeast-le c d (a ∷ stores) le h = (AtLeast-le c d a.column le h.0, IsLeast-le c d stores le h.1)

min_column-IsFirst :
    (a : LineAssignment) (stores : List LineAssignment) (column first : Option ℕ)
    → a.column ≡ column
    → IsFirst first stores
    → IsFirst (min_column column first) (a ∷ stores)
min_column-IsFirst a stores none none h k = (h, k)
min_column-IsFirst a stores none (some d) h k = ((subst (AtLeast d) (sym h) tt, k.0), inr k.1)
min_column-IsFirst a stores (some c) none h k =
    ((subst (AtLeast c) (sym h) (omega arith), none-IsLeast c stores k), inl h)
min_column-IsFirst a stores (some c) (some d) h k = elim (Bool-cases (ltb d c)) [
  | inl less ↦
      subst (λ (e : ℕ). IsFirst (some e) (a ∷ stores)) (sym (rw less refl))
        ((subst (AtLeast d) (sym h) (ground (arith, less)), k.0), inr k.1)
  | inr more ↦
      subst (λ (e : ℕ). IsFirst (some e) (a ∷ stores)) (sym (rw more refl))
        (
          (
            subst (AtLeast c) (sym h) (omega arith),
            IsLeast-le c d stores (ground (arith, more)) k.0,
          ),
          inl h,
        )
]

first_column_lem : (stores : List LineAssignment) → IsFirst (first_column stores) stores
unfolding first_column
first_column_lem [] = tt
first_column_lem (a ∷ stores) =
    min_column-IsFirst a stores a.column (first_column stores) refl (first_column_lem stores)

-- The first column of a line is the smallest among those of its stores and stands among them,
-- and there is none only where no store of the line has a column.
first_column_for_line_lem :
    (table : LineAssignmentTable) (line : ℕ)
    → IsFirst (first_column_for_line table line) (for_line table line)
unfolding first_column_for_line
first_column_for_line_lem table line = first_column_lem (for_line table line)

abbrev pub Caches :
    AssignmentReconstructor → ℕ → AssignmentReconstructor × Option LineAssignmentTable → Type 0
Caches cache id (cache', none) = cache' ≡ cache
Caches cache id (cache', some table) =
    ((decoded : Option (List DecodedInstruction))
      → table_for cache' id decoded ≡ (cache', some table))
    × ((k : ℕ) → (id == k) ≡ false → lookup k cache' ≡ lookup k cache)

module _ (cache : AssignmentReconstructor) (id : ℕ) where
  table_for_hit :
      (table : LineAssignmentTable) (decoded : Option (List DecodedInstruction))
      → lookup id cache ≡ some table
      → table_for cache id decoded ≡ (cache, some table)
  unfolding table_for
  table_for_hit table decoded h = rw (h, table_for) refl

keep_built-Caches :
    (cache : AssignmentReconstructor) (id : ℕ) (table : Option LineAssignmentTable)
    → Caches cache id (keep_built cache id table)
keep_built-Caches cache id none = refl
keep_built-Caches cache id (some table) = (
  λ decoded.
      table_for_hit (insert id table cache) id table decoded
        (lookup-insert id id table cache ∙ rw (==_refl id) refl),
  λ k other. lookup-insert id k table cache ∙ rw other refl,
)

table_for_miss :
    (cache : AssignmentReconstructor) (id : ℕ) (decoded : Option (List DecodedInstruction))
    → lookup id cache ≡ none
    → Caches cache id (table_for cache id decoded)
unfolding table_for
table_for_miss cache id none e =
    let kept : table_for cache id none ≡ (cache, none) = rw (e, table_for) refl in
    subst (Caches cache id) (sym kept) refl
table_for_miss cache id (some instructions) e =
    let built : table_for cache id (some instructions)
        ≡ keep_built cache id (build_table instructions) =
      rw (e, table_for) refl in
    subst (Caches cache id) (sym built) (keep_built-Caches cache id (build_table instructions))

-- A table that is answered for a code object is answered for it again, whatever its code
-- decodes to then, by a cache that this leaves unchanged; for other code objects the cache
-- holds what it held; and where no table is answered the cache is unchanged.
table_for_lem :
    (cache : AssignmentReconstructor) (id : ℕ) (decoded : Option (List DecodedInstruction))
    → Caches cache id (table_for cache id decoded)
table_for_lem cache id decoded = elim (Option-cases (lookup id cache)) [
  | inr (table, e) ↦
      subst (Caches cache id) (sym (table_for_hit cache id table decoded e))
        ((λ again. table_for_hit cache id table again e), λ k other. refl)
  | inl e ↦ table_for_miss cache id decoded e
]
