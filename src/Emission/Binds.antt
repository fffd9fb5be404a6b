-- ===== src/Emission/Binds.antt =====
-- What the calls of `emit_assignment_events` in runtime/tracer/events.rs bind and assign.
use codetracer_python_record.Prelude.{
  ℕ, ◌≡◌, refl, sym, ap, ◌∙◌, ℤ, pos, negsuc, Bool, true, false, not, ◌||◌, List, [], ◌∷◌, ◌++◌,
  String, str_eq, if◌then◌else◌, lookup, lookup-insert, unwrap_or, map, keep, All, append_assoc,
  append-nil, ==_refl, eq_iff, arith, subst, ◌==◌, Bool-cases, inl, inr,
}
use codetracer_python_record.Reconstructor.Window.{
  RValueShape, literal, simple, field_access, index_access, function_return, compound, unclassified,
}
use codetracer_python_record.Reconstructor.Table.{LineAssignment}
use codetracer_python_record.Emission.{
  WriterCall, ensure_variable_id, bind_variable, assignment, has_name, build_rvalue,
  assignment_calls, bind_name, emit_loop, emit_assignment_events,
}

-- The ids that calls bind, and those that they assign to.
abbrev pub bound_ids : List WriterCall → List ℕ
bound_ids [] = []
bound_ids (ensure_variable_id s ∷ calls) = bound_ids calls
bound_ids (bind_variable id ∷ calls) = id ∷ bound_ids calls
bound_ids (assignment id value ∷ calls) = bound_ids calls

abbrev pub assigned_ids : List WriterCall → List ℕ
assigned_ids [] = []
assigned_ids (ensure_variable_id s ∷ calls) = assigned_ids calls
assigned_ids (bind_variable id ∷ calls) = assigned_ids calls
assigned_ids (assignment id value ∷ calls) = id ∷ assigned_ids calls

bound_ids-append : (a b : List WriterCall) → bound_ids (a ++ b) ≡ bound_ids a ++ bound_ids b
bound_ids-append [] b = refl
bound_ids-append (ensure_variable_id s ∷ a) b = bound_ids-append a b
bound_ids-append (bind_variable id ∷ a) b = ap (λ (l : List ℕ). id ∷ l) (bound_ids-append a b)
bound_ids-append (assignment id value ∷ a) b = bound_ids-append a b

assigned_ids-append :
    (a b : List WriterCall) → assigned_ids (a ++ b) ≡ assigned_ids a ++ assigned_ids b
assigned_ids-append [] b = refl
assigned_ids-append (ensure_variable_id s ∷ a) b = assigned_ids-append a b
assigned_ids-append (bind_variable id ∷ a) b = assigned_ids-append a b
assigned_ids-append (assignment id value ∷ a) b =
    ap (λ (l : List ℕ). id ∷ l) (assigned_ids-append a b)

ensures :
    (names : List String)
    → (bound_ids (map (λ (s : String). ensure_variable_id s) names) ≡ [])
      × (assigned_ids (map (λ (s : String). ensure_variable_id s) names) ≡ [])
ensures [] = (refl, refl)
ensures (s ∷ names) = ensures names

-- No name stands twice.
abbrev pub IsDistinct : List String → Type 0
IsDistinct [] = Unit
IsDistinct (s ∷ names) = (has_name s names ≡ false) × IsDistinct names

has_name-append :
    (s t : String) (names : List String)
    → has_name s (names ++ t ∷ []) ≡ (has_name s names || str_eq t s)
unfolding has_name
has_name-append s t [] = ground arith
has_name-append s t (n ∷ names) = ground (arith, has_name-append s t names)

append-IsDistinct :
    (s : String) (names : List String)
    → has_name s names ≡ false
    → IsDistinct names
    → IsDistinct (names ++ s ∷ [])
unfolding has_name
append-IsDistinct s [] h d = (refl, tt)
append-IsDistinct s (n ∷ names) h d = (
  has_name-append n s names ∙ ground (arith, eq_iff n s, eq_iff s n, h, d.0),
  append-IsDistinct s names (ground (arith, h)) d.1,
)

-- A name that stands in a list stands in a longer one.
has_name_more :
    (s : String) (names more : List String)
    → has_name s names ≡ true
    → has_name s (names ++ more) ≡ true
unfolding has_name
has_name_more s [] more h = cc
has_name_more s (n ∷ names) more h = ground (arith, has_name_more s names more)

has_name_last : (s : String) (names : List String) → has_name s (names ++ s ∷ []) ≡ true
unfolding has_name
has_name_last s [] = ground (arith, eq_iff s s)
has_name_last s (n ∷ names) = ground (arith, has_name_last s names)

module _ (id_of : String → ℕ) where
  rvalue_ids :
      (shape : RValueShape) (key : ℤ)
      → (bound_ids (build_rvalue id_of shape key).1 ≡ [])
        × (assigned_ids (build_rvalue id_of shape key).1 ≡ [])
  unfolding build_rvalue
  rvalue_ids literal key = (refl, refl)
  rvalue_ids (simple s) key = (refl, refl)
  rvalue_ids (field_access r f) key = (refl, refl)
  rvalue_ids (index_access r k) key = (refl, refl)
  rvalue_ids function_return (pos key) = (refl, refl)
  rvalue_ids function_return (negsuc key) = (refl, refl)
  rvalue_ids (compound sources) key = ensures sources
  rvalue_ids unclassified key = (refl, refl)

  calls_ids :
      (bound : List String) (a : LineAssignment) (key : ℤ)
      → (bound_ids (assignment_calls id_of bound a key)
          ≡ (if has_name a.target bound then [] else id_of a.target ∷ []))
        × (assigned_ids (assignment_calls id_of bound a key) ≡ id_of a.target ∷ [])
  unfolding assignment_calls
  calls_ids bound a key = elim (Bool-cases (has_name a.target bound)) [
    | inl h ↦ rw h (
      bound_ids-append values (assigned ∷ []) ∙ rw (rvalue_ids a.rvalue key).0 refl,
      assigned_ids-append values (assigned ∷ []) ∙ rw (rvalue_ids a.rvalue key).1 refl,
    )
    | inr h ↦ rw h (
      bound_ids-append values (bind_variable (id_of a.target) ∷ assigned ∷ [])
          ∙ rw (rvalue_ids a.rvalue key).0 refl,
      assigned_ids-append values (bind_variable (id_of a.target) ∷ assigned ∷ [])
          ∙ rw (rvalue_ids a.rvalue key).1 refl,
    )
  ]
    where
      values : List WriterCall
      values = (build_rvalue id_of a.rvalue key).1

      assigned : WriterCall
      assigned = assignment (id_of a.target) (build_rvalue id_of a.rvalue key).0

  module _ (drops : String → Bool) (key : ℤ) where
    -- The assignments whose targets the policy does not drop.
    abbrev pub kept : List LineAssignment → List LineAssignment
    kept assignments = keep (λ (a : LineAssignment). not (drops a.target)) assignments

    -- The names bound before, then new ones, none of them dropped, each bound by one call; a call for
    -- every assignment kept, in their order, whose target is bound in the end.
    abbrev pub Emits : List String → List LineAssignment → List String × List WriterCall → Type 0
    Emits bound assignments r =
        (news : List String) × (r.0 ≡ bound ++ news)
        × (bound_ids r.1 ≡ map id_of news)
        × All (λ (s : String). drops s ≡ false) news
        × (assigned_ids r.1 ≡ map (λ (a : LineAssignment). id_of a.target) (kept assignments))
        × (IsDistinct bound → IsDistinct r.0)
        × All (λ (a : LineAssignment). has_name a.target r.0 ≡ true) (kept assignments)

    module _ (bound : List String) (a : LineAssignment) (assignments : List LineAssignment) where
      -- The loop's result behind the first assignment, from what is bound then.
      abbrev rest : List String → List String × List WriterCall
      rest names = emit_loop id_of drops key names assignments

      emit_dropped :
          drops a.target ≡ true → emit_loop id_of drops key bound (a ∷ assignments) ≡ rest bound
      unfolding emit_loop
      emit_dropped h = rw h refl

      emit_again :
          drops a.target ≡ false
          → has_name a.target bound ≡ true
          → emit_loop id_of drops key bound (a ∷ assignments)
            ≡ ((rest bound).0, assignment_calls id_of bound a key ++ (rest bound).1)
      unfolding emit_loop bind_name
      emit_again h k = rw h (rw k refl)

      emit_first :
          drops a.target ≡ false
          → has_name a.target bound ≡ false
          → emit_loop id_of drops key bound (a ∷ assignments) ≡ (
            (rest (bound ++ a.target ∷ [])).0,
            assignment_calls id_of bound a key ++ (rest (bound ++ a.target ∷ [])).1,
          )
      unfolding emit_loop bind_name
      emit_first h k = rw h (rw k refl)

      Emits-dropped :
          drops a.target ≡ true
          → Emits bound assignments (rest bound)
          → Emits bound (a ∷ assignments) (emit_loop id_of drops key bound (a ∷ assignments))
      Emits-dropped h e = subst (Emits bound (a ∷ assignments)) (sym (emit_dropped h)) (rw h e)

      Emits-again :
          drops a.target ≡ false
          → has_name a.target bound ≡ true
          → Emits bound assignments (rest bound)
          → Emits bound (a ∷ assignments) (emit_loop id_of drops key bound (a ∷ assignments))
      Emits-again h k (news, names, binds, clean, assigns, distinct, have) =
          subst (Emits bound (a ∷ assignments)) (sym (emit_again h k)) (
            news,
            names,
            bound_ids-append (assignment_calls id_of bound a key) (rest bound).1
                ∙ rw (calls_ids bound a key).0 (rw k binds),
            clean,
            assigned_ids-append (assignment_calls id_of bound a key) (rest bound).1
                ∙ rw (calls_ids bound a key).1
                    (rw h (ap (λ (l : List ℕ). id_of a.target ∷ l) assigns)),
            distinct,
            rw h (rw names (has_name_more a.target bound news k), have),
          )

      Emits-first :
          drops a.target ≡ false
          → has_name a.target bound ≡ false
          → Emits (bound ++ a.target ∷ []) assignments (rest (bound ++ a.target ∷ []))
          → Emits bound (a ∷ assignments) (emit_loop id_of drops key bound (a ∷ assignments))
      Emits-first h k (news, names, binds, clean, assigns, distinct, have) =
          subst (Emits bound (a ∷ assignments)) (sym (emit_first h k)) (
            a.target ∷ news,
            names ∙ append_assoc bound (a.target ∷ []) news,
            bound_ids-append (assignment_calls id_of bound a key) (rest (bound ++ a.target ∷ [])).1
                ∙ rw (calls_ids bound a key).0
                    (rw k (ap (λ (l : List ℕ). id_of a.target ∷ l) binds)),
            (h, clean),
            assigned_ids-append (assignment_calls id_of bound a key)
                  (rest (bound ++ a.target ∷ [])).1
                ∙ rw (calls_ids bound a key).1
                    (rw h (ap (λ (l : List ℕ). id_of a.target ∷ l) assigns)),
            λ d. distinct (append-IsDistinct a.target bound k d),
            rw h (
              rw names (
                  has_name_more a.target (bound ++ a.target ∷ []) news
                    (has_name_last a.target bound)),
              have,
            ),
          )

    -- Whatever the policy, the loop binds just the names of the line that are kept and were not bound
    -- before, each by one call, so that no name bound is bound twice; it assigns once for each
    -- assignment that is kept, in order, and the names assigned to are bound in the end.
    pub emit_loop-Emits :
        (bound : List String) (assignments : List LineAssignment)
        → Emits bound assignments (emit_loop id_of drops key bound assignments)
    unfolding emit_loop
    emit_loop-Emits bound [] = ([], sym (append-nil bound), refl, tt, refl, λ d. d, tt)
    emit_loop-Emits bound (a ∷ assignments) = elim (Bool-cases (drops a.target)) [
      | inl h ↦ Emits-dropped bound a assignments h (emit_loop-Emits bound assignments)
      | inr h ↦ elim (Bool-cases (has_name a.target bound)) [
        | inl k ↦ Emits-again bound a assignments h k (emit_loop-Emits bound assignments)
        | inr k ↦
            Emits-first bound a assignments h k
              (emit_loop-Emits (bound ++ a.target ∷ []) assignments)
      ]
    ]

    -- Whatever the policy drops, the names bound in the frame grow by new names, none of them
    -- dropped, each bound by one call, and stay without a repetition; there is one assignment
    -- for each assignment of the line that is kept, in order, to a name that is bound in the
    -- end; and the other frames stay.
    pub emit_assignment_events-Emits :
        (frames : List (ℕ × List String)) (frame_id : ℕ) (assignments : List LineAssignment)
        → let r = emit_assignment_events id_of drops key frames frame_id assignments in
          Emits
            (unwrap_or (lookup frame_id frames) [])
            assignments
            (unwrap_or (lookup frame_id r.0) [], r.1)
          × ((k : ℕ) → (frame_id == k) ≡ false → lookup k r.0 ≡ lookup k frames)
    unfolding emit_assignment_events
    emit_assignment_events-Emits frames frame_id [] =
        (emit_loop-Emits (unwrap_or (lookup frame_id frames) []) [], λ k other. refl)
    emit_assignment_events-Emits frames frame_id (a ∷ assignments) =
        let bound : List String = unwrap_or (lookup frame_id frames) [] in
        let r : List String × List WriterCall = emit_loop id_of drops key bound (a ∷ assignments) in
        (
          rw (lookup-insert frame_id frame_id r.0 frames)
              (rw (==_refl frame_id) (emit_loop-Emits bound (a ∷ assignments))),
          λ k other. lookup-insert frame_id k r.0 frames ∙ rw other refl,
        )
