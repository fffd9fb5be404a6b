-- ===== src/FilterEngine.antt =====
-- `TraceFilterEngine` of trace_filter/engine.rs: the resolution of a code object, kept in the slot
-- that CPython has for it. The slots belong to the interpreter, not to an engine. The classifier is
-- another crate's, so it is a field of the engine; the file system below a path, and whether CPython
-- takes a value for a slot, are arguments.
pub mod Slots
pub mod Index
use codetracer_python_record.Prelude.{
  ℕ, Bool, true, false, Option, none, some, List, [], ◌∷◌, Text, if◌then◌else◌, lookup, insert,
  remove,
}
use codetracer_python_record.ModuleNames.{
  Directory, is_valid_module_name, module_name_from_packages,
}

-- What is read of a `ScopeResolution` here; the number stands for its decision and its policies.
pub record Resolution : Type 0 where
  pub decision : ℕ
  pub module_name : Option Text
  pub absolute_path : Option Text

pub record ScopeQuery : Type 0 where
  pub filename : Text
  pub qualname : Text
  pub module_hint : Option Text

-- An attribute is `none` where it cannot be read.
pub record CodeObject : Type 0 where
  pub id : ℕ
  pub filename : Option Text
  pub qualname : Option Text

pub record TraceFilterEngine : Type 0 where
  pub classifier : ScopeQuery → Resolution
  pub code_extra_index : Option ℕ

-- The occupied slots, by code object.
abbrev pub Slots : Type 0
Slots = List (ℕ × Resolution)

-- `directories` are those above a path, `stem` its stem.
pub record Packages : Type 0 where
  pub directories : Text → List Directory
  pub stem : Text → Option Text

-- The name that the walk over the packages gives, if it is valid.
abbrev pub valid_name : Option Text → Option Text
valid_name none = none
valid_name (some name) = if is_valid_module_name name then some name else none

unfoldable pub derived_name : Packages → Resolution → Option Text
unfolding module_name_from_packages is_valid_module_name
derived_name p r = elim r.absolute_path [
  | none ↦ none
  | some absolute ↦
      valid_name (module_name_from_packages (p.directories absolute) (p.stem absolute))
]

abbrev pub retried : (ScopeQuery → Resolution) → Text → Text → Resolution → Option Text → Resolution
retried classifier filename qualname first none = first
retried classifier filename qualname first (some name) =
    classifier (record { filename = filename; qualname = qualname; module_hint = some name })

-- The second pass, where the first found no module name.
abbrev pub second_pass :
    Packages → (ScopeQuery → Resolution) → Text → Text → Resolution → Option Text → Resolution
second_pass p classifier filename qualname first (some name) = first
second_pass p classifier filename qualname first none =
    retried classifier filename qualname first (derived_name p first)

abbrev pub classify_named :
    Packages → TraceFilterEngine → Option Text → Option Text → Option Text → Option Resolution
classify_named p e none qualname hint = none
classify_named p e (some filename) none hint = none
classify_named p e (some filename) (some qualname) hint =
    let first =
      e.classifier (record { filename = filename; qualname = qualname; module_hint = hint }) in
    some (second_pass p e.classifier filename qualname first first.module_name)

unfoldable pub classify :
    Packages → TraceFilterEngine → CodeObject → Option Text → Option Resolution
unfolding derived_name
classify p e code hint = classify_named p e code.filename code.qualname hint

-- `CODE_EXTRA_INDEX` is one for all engines, so an engine with an index sees every slot.
abbrev pub slot_of : Slots → Option ℕ → ℕ → Option Resolution
slot_of slots none id = none
slot_of slots (some index) id = lookup id slots

abbrev pub stored : Bool → Slots → Option ℕ → ℕ → Resolution → Slots
stored takes slots none id r = slots
stored takes slots (some index) id r = if takes then insert id r slots else slots

abbrev pub store_resolved :
    Bool → Slots → Option ℕ → ℕ → Option Resolution → Slots × Option Resolution
store_resolved takes slots index id none = (slots, none)
store_resolved takes slots index id (some r) = (stored takes slots index id r, some r)

-- What is in the slot, or the classification, which is stored.
abbrev pub from_slot :
    Bool → Slots → Option ℕ → ℕ → Option Resolution → Option Resolution → Slots × Option Resolution
from_slot takes slots index id classified none = store_resolved takes slots index id classified
from_slot takes slots index id classified (some r) = (slots, some r)

-- `none` is an error. `takes` says whether CPython accepts the write.
unfoldable pub resolve_code :
    Packages
    → Bool
    → Slots
    → TraceFilterEngine
    → CodeObject
    → Option Text
    → Slots × Option Resolution
unfolding classify
resolve_code p takes slots e code hint =
    from_slot takes slots e.code_extra_index code.id (classify p e code hint)
      (slot_of slots e.code_extra_index code.id)

-- What happens to the slots: an engine resolves, or a code object is destroyed, and
-- `scope_resolution_freefunc` drops what its slot held.
pub data SlotEvent : Type 0 where
  resolves : Bool → TraceFilterEngine → CodeObject → Option Text → SlotEvent
  destroys : ℕ → SlotEvent

unfoldable pub slot_step : Packages → Slots → SlotEvent → Slots
unfolding resolve_code
slot_step p slots (resolves takes e code hint) = (resolve_code p takes slots e code hint).0
slot_step p slots (destroys id) = remove id slots

unfoldable pub slot_run : Packages → Slots → List SlotEvent → Slots
unfolding slot_step
slot_run p slots [] = slots
slot_run p slots (e ∷ events) = slot_run p (slot_step p slots e) events
