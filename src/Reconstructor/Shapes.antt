-- ===== src/Reconstructor/Shapes.antt =====
-- What shapes, columns and tables runtime/assignment_reconstructor.rs answers.
use codetracer_python_record.Prelude.{
  ◌≡◌, ◌≢◌, ◌↔◌, refl, Bool, true, false, ◌&&◌, Option, none, some, List, [], ◌∷◌, String, str_eq,
  if◌then◌else◌, Bool-cases, inl, inr,
}
use codetracer_python_record.Reconstructor.Window.{
  RValueShape, literal, simple, function_return, ArgValKind, name, int, other, missing,
  DecodedInstruction, is_const_op, is_load_op, meaningful, single_shape, field_shape,
  subscript_shape, call_shape, sources_of, sources_shape, first_shape, field_of, element_of,
  classify_filtered, classify_window,
}

-- No pattern but the single constant gives a literal.
abbrev NotLiteral : Option RValueShape → Type 0
NotLiteral none = Unit
NotLiteral (some shape) = shape ≢ literal

sources_shape-ne : (sources : List String) → sources_shape sources ≢ literal
unfolding sources_shape
sources_shape-ne [] h = cc
sources_shape-ne (s ∷ []) h = cc
sources_shape-ne (s ∷ t ∷ ts) h = cc

first_shape-ne :
    (shape : Option RValueShape) (fallback : RValueShape)
    → NotLiteral shape
    → fallback ≢ literal
    → first_shape shape fallback ≢ literal
first_shape-ne none fallback h k = k
first_shape-ne (some shape) fallback h k = h

field_of-ne : (last loader : ArgValKind) → NotLiteral (field_of last loader)
field_of-ne (name field) (name receiver) = λ h. cc
field_of-ne (name field) (int k) = tt
field_of-ne (name field) other = tt
field_of-ne (name field) missing = tt
field_of-ne (int k) loader = tt
field_of-ne other loader = tt
field_of-ne missing loader = tt

element_of-ne : (recv_op const_op : ArgValKind) → NotLiteral (element_of recv_op const_op)
element_of-ne (name receiver) (int k) = λ h. cc
element_of-ne (name receiver) (name s) = tt
element_of-ne (name receiver) other = tt
element_of-ne (name receiver) missing = tt
element_of-ne (int k) const_op = tt
element_of-ne other const_op = tt
element_of-ne missing const_op = tt

if_NotLiteral :
    (b : Bool) (shape : Option RValueShape)
    → NotLiteral shape
    → NotLiteral (if b then shape else none)
if_NotLiteral true shape h = h
if_NotLiteral false shape h = tt

field_shape-ne : (last loader : DecodedInstruction) → NotLiteral (field_shape last loader)
unfolding field_shape
field_shape-ne last loader =
    if_NotLiteral (str_eq last.opname "LOAD_ATTR" && is_load_op loader.opname) _
      (field_of-ne last.argval_kind loader.argval_kind)

subscript_shape-ne :
    (last const_op : DecodedInstruction) (before : List DecodedInstruction)
    → NotLiteral (subscript_shape last const_op before)
unfolding subscript_shape
subscript_shape-ne last const_op [] = tt
subscript_shape-ne last const_op (recv_op ∷ before) =
    if_NotLiteral _ (element_of recv_op.argval_kind const_op.argval_kind)
      (element_of-ne recv_op.argval_kind const_op.argval_kind)

call_shape-ne : (filtered : List DecodedInstruction) → NotLiteral (call_shape filtered)
unfolding call_shape
call_shape-ne filtered = if_NotLiteral _ (some function_return) (λ h. cc)

-- A single instruction that is no constant gives no literal.
single_shape-ne :
    (i : DecodedInstruction) → is_const_op i.opname ≡ false → NotLiteral (single_shape i)
unfolding single_shape
single_shape-ne i h = rw h (if_NotLiteral (is_load_op i.opname) _ (load i.argval_kind))
  where
    load : (kind : ArgValKind) → NotLiteral (elim kind [ name s ↦ some (simple s) | _ ↦ none ])
    load (name s) = λ k. cc
    load (int k) = tt
    load other = tt
    load missing = tt

-- The single instruction of a window is a constant.
abbrev pub IsConstant : List DecodedInstruction → Type 0
IsConstant [] = ⊥
IsConstant (i ∷ []) = is_const_op i.opname ≡ true
IsConstant (i ∷ j ∷ before) = ⊥

classify_filtered-literal :
    (filtered : List DecodedInstruction)
    → (classify_filtered filtered ≡ literal) ↔ IsConstant filtered
unfolding classify_filtered single_shape
classify_filtered-literal [] = (λ h. cc, λ h. absurd h)
classify_filtered-literal (i ∷ []) = elim (Bool-cases (is_const_op i.opname)) [
  | inl h ↦ (λ k. h, λ k. rw (h, single_shape) refl)
  | inr h ↦ (
    λ k. absurd (
        first_shape-ne (single_shape i) _ (single_shape-ne i h)
          (sources_shape-ne (sources_of (i ∷ []))) k),
    λ k. cc,
  )
]
classify_filtered-literal (i ∷ j ∷ before) = (
  first_shape-ne (field_shape i j) _ (field_shape-ne i j) (
      first_shape-ne (subscript_shape i j before) _ (subscript_shape-ne i j before) (
        first_shape-ne (call_shape (i ∷ j ∷ before)) _ (call_shape-ne (i ∷ j ∷ before))
          (sources_shape-ne (sources_of (i ∷ j ∷ before))))),
  λ h. absurd h,
)

-- A window is classified as a literal exactly if what stays of it, without the instructions
-- that are noise and the pops at its end, is one instruction that loads a constant.
pub classify_window-literal :
    (window : List DecodedInstruction)
    → (classify_window window ≡ literal) ↔ IsConstant (meaningful window)
unfolding classify_window
classify_window-literal window = classify_filtered-literal (meaningful window)
