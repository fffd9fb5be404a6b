-- ===== src/Reconstructor/Window.antt =====
-- The instructions, the classes of their names, and the shape of the window before a store:
-- `classify_window` of runtime/assignment_reconstructor.rs.
use codetracer_python_record.Prelude.{
  ℕ, ℤ, Bool, false, not, ◌&&◌, ◌||◌, Option, none, some, List, [], ◌∷◌, ◌++◌, String, str_eq,
  if◌then◌else◌, keep, any, take,
}

pub data RValueShape : Type 0 where
  literal : RValueShape
  simple : String → RValueShape
  field_access : String → String → RValueShape
  index_access : String → ℤ → RValueShape
  function_return : RValueShape
  compound : List String → RValueShape
  unclassified : RValueShape

pub data ArgValKind : Type 0 where
  name : String → ArgValKind
  int : ℤ → ArgValKind
  other : ArgValKind
  missing : ArgValKind

pub record DecodedInstruction : Type 0 where
  pub opname : String
  pub argval_kind : ArgValKind
  pub line : Option ℕ
  pub col_offset : Option ℕ

abbrev pub one_of_ops : String → List String → Bool
one_of_ops s [] = false
one_of_ops s (t ∷ ts) = str_eq s t || one_of_ops s ts

unfoldable pub is_store_op : String → Bool
is_store_op op =
    one_of_ops op
      ("STORE_NAME" ∷ "STORE_FAST" ∷ "STORE_GLOBAL" ∷ "STORE_DEREF" ∷ "STORE_FAST_STORE_FAST" ∷ [])

unfoldable pub is_load_op : String → Bool
is_load_op op =
    one_of_ops op
      ("LOAD_NAME" ∷ "LOAD_FAST" ∷ "LOAD_GLOBAL" ∷ "LOAD_DEREF" ∷ "LOAD_CLASSDEREF" ∷ [])

unfoldable pub is_const_op : String → Bool
is_const_op op = one_of_ops op ("LOAD_CONST" ∷ "RETURN_CONST" ∷ [])

unfoldable pub is_call_op : String → Bool
is_call_op op = one_of_ops op (
    "CALL" ∷ "CALL_KW" ∷ "CALL_FUNCTION" ∷ "CALL_FUNCTION_EX" ∷ "CALL_FUNCTION_KW" ∷ "CALL_METHOD"
    ∷ [])

unfoldable pub is_noise : String → Bool
is_noise op =
    one_of_ops op
      ("RESUME" ∷ "NOP" ∷ "CACHE" ∷ "COPY_FREE_VARS" ∷ "PUSH_NULL" ∷ "PRECALL" ∷ "KW_NAMES" ∷ [])

unfoldable pub is_pop_top_or_kwnames : String → Bool
is_pop_top_or_kwnames op = str_eq op "POP_TOP"

-- A window is kept with its last instruction first. `filtered` without what is popped at its end.
unfoldable pub pop_tail : List DecodedInstruction → List DecodedInstruction
pop_tail [] = []
pop_tail (i ∷ before) =
    let rest = pop_tail before in if is_pop_top_or_kwnames i.opname then rest else i ∷ before

abbrev pub meaningful : List DecodedInstruction → List DecodedInstruction
meaningful window = pop_tail (keep (λ (i : DecodedInstruction). not (is_noise i.opname)) window)

-- The pattern of a window that is one instruction.
unfoldable pub single_shape : DecodedInstruction → Option RValueShape
single_shape i =
    if is_const_op i.opname
    then some literal
    else if is_load_op i.opname
    then elim i.argval_kind [ name s ↦ some (simple s) | _ ↦ none ]
    else none

abbrev pub field_of : ArgValKind → ArgValKind → Option RValueShape
field_of (name field) (name receiver) = some (field_access receiver field)
field_of last loader = none

abbrev pub element_of : ArgValKind → ArgValKind → Option RValueShape
element_of (name receiver) (int index) = some (index_access receiver index)
element_of recv_op const_op = none

-- `LOAD_NAME receiver; LOAD_ATTR field`, for the last two instructions.
unfoldable pub field_shape : DecodedInstruction → DecodedInstruction → Option RValueShape
field_shape last loader =
    if str_eq last.opname "LOAD_ATTR" && is_load_op loader.opname
    then field_of last.argval_kind loader.argval_kind
    else none

-- `LOAD receiver; LOAD_CONST n; BINARY_SUBSCR`, for the last three instructions.
unfoldable pub subscript_shape :
    DecodedInstruction → DecodedInstruction → List DecodedInstruction → Option RValueShape
subscript_shape last const_op [] = none
subscript_shape last const_op (recv_op ∷ before) =
    if str_eq last.opname "BINARY_SUBSCR"
      && (str_eq const_op.opname "LOAD_CONST" && is_load_op recv_op.opname)
    then element_of recv_op.argval_kind const_op.argval_kind
    else none

-- A call among the last three instructions.
unfoldable pub call_shape : List DecodedInstruction → Option RValueShape
call_shape filtered =
    if any (λ (i : DecodedInstruction). is_call_op i.opname) (take 3 filtered)
    then some function_return
    else none

-- The names that the loads of a window name, in the order of the code, each once: the last
-- instruction of the code is the first of the list.
unfoldable pub sources_of : List DecodedInstruction → List String
sources_of [] = []
sources_of (i ∷ before) =
    let sources = sources_of before in
    if is_load_op i.opname
    then elim i.argval_kind [
      | name s ↦ if one_of_ops s sources then sources else sources ++ s ∷ []
      | _ ↦ sources
    ]
    else sources

unfoldable pub sources_shape : List String → RValueShape
sources_shape [] = unclassified
sources_shape (s ∷ []) = simple s
sources_shape (s ∷ t ∷ ts) = compound (s ∷ t ∷ ts)

-- The first pattern that fits, else the fallback.
abbrev pub first_shape : Option RValueShape → RValueShape → RValueShape
first_shape none fallback = fallback
first_shape (some shape) fallback = shape

-- `classify_window` behind its filter.
unfoldable pub classify_filtered : List DecodedInstruction → RValueShape
unfolding sources_shape
classify_filtered [] = unclassified
classify_filtered (i ∷ []) = first_shape (single_shape i) (sources_shape (sources_of (i ∷ [])))
classify_filtered (last ∷ i ∷ before) = first_shape (field_shape last i) (
    first_shape (subscript_shape last i before) (
      first_shape (call_shape (last ∷ i ∷ before))
        (sources_shape (sources_of (last ∷ i ∷ before)))))

unfoldable pub classify_window : List DecodedInstruction → RValueShape
unfolding classify_filtered pop_tail
classify_window window = classify_filtered (meaningful window)
