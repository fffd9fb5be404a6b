-- ===== src/FilterEngine/Slots.antt =====
-- How long a resolution of trace_filter/engine.rs stays in its slot.
use codetracer_python_record.Prelude.{
  ℕ, Bool, true, false, Option, none, some, List, [], ◌∷◌, ◌∙◌, ◌≡◌, ◌≢◌, refl, Text, All, lookup,
  lookup-insert, lookup-remove, arith, Option-cases, inl, inr, subst, sym, ap,
}
use codetracer_python_record.FilterEngine.{
  Resolution, CodeObject, TraceFilterEngine, Slots, Packages, classify, slot_of, stored,
  store_resolved, from_slot, resolve_code, SlotEvent, resolves, destroys, slot_step, slot_run,
}

-- The code object is not destroyed.
abbrev pub Keeps : ℕ → SlotEvent → Type 0
Keeps id (resolves takes e code hint) = Unit
Keeps id (destroys other) = other ≢ id

stored_lem :
    (takes : Bool) (slots : Slots) (index : Option ℕ) (id other : ℕ) (r kept : Resolution)
    → lookup id slots ≡ some kept
    → slot_of slots index other ≡ none
    → lookup id (stored takes slots index other r) ≡ some kept
stored_lem takes slots none id other r kept h empty = h
stored_lem true slots (some index) id other r kept h empty =
    ground (arith, lookup-insert other id r slots, h, empty)
stored_lem false slots (some index) id other r kept h empty = h

store_lem :
    (takes : Bool) (slots : Slots) (index : Option ℕ) (id other : ℕ) (result : Option Resolution)
    (kept : Resolution)
    → lookup id slots ≡ some kept
    → slot_of slots index other ≡ none
    → lookup id (store_resolved takes slots index other result).0 ≡ some kept
store_lem takes slots index id other none kept h empty = h
store_lem takes slots index id other (some r) kept h empty =
    stored_lem takes slots index id other r kept h empty

step_lem :
    (p : Packages) (slots : Slots) (id : ℕ) (kept : Resolution) (e : SlotEvent)
    → Keeps id e
    → lookup id slots ≡ some kept
    → lookup id (slot_step p slots e) ≡ some kept
unfolding slot_step resolve_code
step_lem p slots id kept (destroys other) k h = ground (arith, lookup-remove other id slots, k, h)
step_lem p slots id kept (resolves takes e code hint) k h =
    elim (Option-cases (slot_of slots e.code_extra_index code.id)) [
      | inr (r, found) ↦ rw (found, slot_step) h
      | inl empty ↦
          rw (empty, slot_step)
            (store_lem takes slots e.code_extra_index id code.id (classify p e code hint) kept h
              empty)
    ]

run_lem :
    (p : Packages) (slots : Slots) (id : ℕ) (kept : Resolution) (events : List SlotEvent)
    → All (Keeps id) events
    → lookup id slots ≡ some kept
    → lookup id (slot_run p slots events) ≡ some kept
unfolding slot_run
run_lem p slots id kept [] k h = h
run_lem p slots id kept (e ∷ events) k h =
    run_lem p (slot_step p slots e) id kept events k.1 (step_lem p slots id kept e k.0 h)

-- A resolution that was answered, and that CPython took, stands in the slot.
answered_lem :
    (slots : Slots) (index id : ℕ) (classified slot : Option Resolution) (r : Resolution)
    → lookup id slots ≡ slot
    → (from_slot true slots (some index) id classified slot).1 ≡ some r
    → lookup id (from_slot true slots (some index) id classified slot).0 ≡ some r
answered_lem slots index id none none r found h = cc
answered_lem slots index id (some made) none r found h =
    lookup-insert id id made slots ∙ ground (arith, h)
answered_lem slots index id classified (some kept) r found h = found ∙ h

-- If two engines have the index, an answer of one for a code object, which CPython took, is the
-- answer of the other for it, whatever that one would classify, the hint, and the resolutions
-- and destructions of other code objects between, as long as the code object is not destroyed;
-- and the slots stay.
pub resolve_code_lasts :
    (p : Packages) (slots : Slots) (e other : TraceFilterEngine) (index : ℕ) (code : CodeObject)
    (hint hint' : Option Text) (r : Resolution) (events : List SlotEvent) (takes : Bool)
    → e.code_extra_index ≡ some index
    → other.code_extra_index ≡ some index
    → (resolve_code p true slots e code hint).1 ≡ some r
    → All (Keeps code.id) events
    → let later = slot_run p (resolve_code p true slots e code hint).0 events in
      resolve_code p takes later other code hint' ≡ (later, some r)
unfolding resolve_code
resolve_code_lasts p slots e other index code hint hint' r events takes has has' answered keeps =
    let first : (slots' : Slots) → Option ℕ → Slots × Option Resolution = λ slots' i.
      from_slot true slots' i code.id (classify p e code hint) (slot_of slots' i code.id) in
    let answered' : (first slots (some index)).1 ≡ some r =
      subst (λ i. (first slots i).1 ≡ some r) has answered in
    let held : lookup code.id (first slots (some index)).0 ≡ some r =
      answered_lem slots index code.id (classify p e code hint) (lookup code.id slots) r refl
        answered' in
    let held' : lookup code.id (resolve_code p true slots e code hint).0 ≡ some r =
      subst (λ i. lookup code.id (first slots i).0 ≡ some r) (sym has) held in
    let later = slot_run p (resolve_code p true slots e code hint).0 events in
    let lasts = run_lem p (resolve_code p true slots e code hint).0 code.id r events keeps held' in
    subst
      (λ i.
        from_slot takes later i code.id (classify p other code hint') (slot_of later i code.id)
        ≡ (later, some r))
      (sym has')
      (ap (λ s. from_slot takes later (some index) code.id (classify p other code hint') s) lasts)
