-- ===== src/Activation/Window.antt =====
-- The window of codetracer-python-recorder/src/runtime/activation.rs, described by the history of
-- events alone.
use codetracer_python_record.Prelude.{
  ℕ, ◌≡◌, refl, Bool, true, false, not, ◌||◌, Option, none, some, List, [], ◌∷◌, ◌==◌,
  if◌then◌else◌, arith, Bool-cases, inl, inr,
}
use codetracer_python_record.Activation.{
  ActivationController, ActivationExitKind, suspended, completed, Code, new, is_active,
  resume_if_needed, ensure_started, should_process_event, handle_exit, is_target, Event, enters,
  exits, step, run,
}

module _ {P : Type 0} (same_path : P → P → Bool) where
  -- A code object runs to its end.
  abbrev pub closes : ℕ → List (Event same_path) → Bool
  closes k [] = false
  closes k (exits j completed ∷ es) = k == j || closes k es
  closes k (_ ∷ es) = closes k es

  -- The window opens at the first event of a code object of the activation file, and stays open
  -- until that code object completes.
  abbrev pub in_window : P → List (Event same_path) → Bool
  in_window path [] = false
  in_window path (enters code ∷ es) =
      let later = in_window path es in
      if is_target same_path path code.filename then not (closes code.id es) else later
  in_window path (_ ∷ es) = in_window path es

  record IsWaiting (path : P) (a : ActivationController P) : Type 0 where
    target : a.activation_path ≡ some path
    no_code : a.activation_code_id ≡ none
    not_done : a.activation_done ≡ false
    not_started : a.started ≡ false

  record IsOpen (k : ℕ) (a : ActivationController P) : Type 0 where
    code : a.activation_code_id ≡ some k
    started : a.started ≡ true

  record IsClosed (a : ActivationController P) : Type 0 where
    done : a.activation_done ≡ true
    stopped : a.started ≡ false

  IsClosed-step :
      (a : ActivationController P) (e : Event same_path)
      → IsClosed a
      → IsClosed (step same_path a e)
  unfolding step should_process_event ensure_started resume_if_needed handle_exit
  IsClosed-step a (enters c) v = ground arith
  IsClosed-step a (exits k suspended) v = ground arith
  IsClosed-step a (exits k completed) v = ground arith

  closed_run :
      (a : ActivationController P) (es : List (Event same_path))
      → IsClosed a
      → is_active (run same_path a es) ≡ false
  unfolding run is_active
  closed_run a [] v = v.stopped
  closed_run a (e ∷ es) v = closed_run (step same_path a e) es (IsClosed-step a e v)

  IsOpen-enters :
      (k : ℕ) (a : ActivationController P) (c : Code P)
      → IsOpen k a
      → IsOpen k (step same_path a (enters c))
  unfolding step should_process_event ensure_started resume_if_needed
  IsOpen-enters k a c v = ground arith

  IsOpen-suspended :
      (k j : ℕ) (a : ActivationController P)
      → IsOpen k a
      → IsOpen k (step same_path a (exits j suspended))
  unfolding step handle_exit
  IsOpen-suspended k j a v = ground arith

  IsOpen-completed :
      (k j : ℕ) (a : ActivationController P)
      → IsOpen k a
      → let a' = step same_path a (exits j completed) in if k == j then IsClosed a' else IsOpen k a'
  unfolding step handle_exit
  IsOpen-completed k j a v = elim (Bool-cases (k == j)) [
    | inl h ↦ rw h (record { done = ground arith; stopped = ground arith })
    | inr h ↦ rw h (record { code = ground arith; started = ground arith })
  ]

  open_run :
      (k : ℕ) (a : ActivationController P) (es : List (Event same_path))
      → IsOpen k a
      → is_active (run same_path a es) ≡ not (closes k es)
  unfolding run is_active
  open_run k a [] v = v.started
  open_run k a (enters c ∷ es) v =
      open_run k (step same_path a (enters c)) es (IsOpen-enters k a c v)
  open_run k a (exits j suspended ∷ es) v =
      open_run k (step same_path a (exits j suspended)) es (IsOpen-suspended k j a v)
  open_run k a (exits j completed ∷ es) v = elim (Bool-cases (k == j)) [
    | inl h ↦ rw h (closed_run _ es (rw h at (IsOpen-completed k j a v)))
    | inr h ↦
        rw h (
          open_run k (step same_path a (exits j completed)) es (rw h at (IsOpen-completed k j a v)))
  ]

  IsWaiting-enters :
      (path : P) (a : ActivationController P) (c : Code P)
      → IsWaiting path a
      → let a' = step same_path a (enters c) in
        if is_target same_path path c.filename then IsOpen c.id a' else IsWaiting path a'
  unfolding step should_process_event ensure_started resume_if_needed
  IsWaiting-enters path a c v = elim (Bool-cases (is_target same_path path c.filename)) [
    | inl h ↦ rw h (record { code = ground arith; started = ground arith })
    | inr h ↦ rw h (record {
      target = ground arith;
      no_code = ground arith;
      not_done = ground arith;
      not_started = ground arith;
    })
  ]

  waiting_exits :
      (path : P) (a : ActivationController P) (j : ℕ) (kind : ActivationExitKind)
      → IsWaiting path a
      → step same_path a (exits j kind) ≡ a
  unfolding step handle_exit
  waiting_exits path a j suspended v = ground arith
  waiting_exits path a j completed v = ground arith

  waiting_run :
      (path : P) (a : ActivationController P) (es : List (Event same_path))
      → IsWaiting path a
      → is_active (run same_path a es) ≡ in_window path es
  unfolding run is_active
  waiting_run path a [] v = v.not_started
  waiting_run path a (enters c ∷ es) v = elim (Bool-cases (is_target same_path path c.filename)) [
    | inl h ↦ rw h (open_run c.id _ es (rw h at (IsWaiting-enters path a c v)))
    | inr h ↦
        rw h (
          waiting_run path (step same_path a (enters c)) es (rw h at (IsWaiting-enters path a c v)))
  ]
  waiting_run path a (exits j kind ∷ es) v =
      rw (waiting_exits path a j kind v) (waiting_run path a es v)

  -- With an activation path that resolves, tracing is active after a history of events exactly
  -- if the history ends inside the window: an event of the activation file opened it and its
  -- code object has not completed since; suspensions make no difference, and a closed window
  -- never opens again.
  pub is_active-run :
      (absolute : P → Option P) (path resolved : P) (a : ActivationController P)
      (es : List (Event same_path))
      → absolute path ≡ some resolved
      → new absolute (some path) ≡ some a
      → is_active (run same_path a es) ≡ in_window resolved es
  unfolding new
  is_active-run absolute path resolved a es h e = waiting_run resolved a es (record {
    target = ground arith;
    no_code = ground arith;
    not_done = ground arith;
    not_started = ground arith;
  })

  record IsUnbounded (a : ActivationController P) : Type 0 where
    no_code : a.activation_code_id ≡ none
    started : a.started ≡ true

  IsUnbounded-step :
      (a : ActivationController P) (e : Event same_path)
      → IsUnbounded a
      → IsUnbounded (step same_path a e)
  unfolding step should_process_event ensure_started resume_if_needed handle_exit
  IsUnbounded-step a (enters c) v = ground arith
  IsUnbounded-step a (exits j suspended) v = ground arith
  IsUnbounded-step a (exits j completed) v = ground arith

  unbounded_run :
      (a : ActivationController P) (es : List (Event same_path))
      → IsUnbounded a
      → is_active (run same_path a es) ≡ true
  unfolding run is_active
  unbounded_run a [] v = v.started
  unbounded_run a (e ∷ es) v = unbounded_run (step same_path a e) es (IsUnbounded-step a e v)

  -- Without an activation path a controller is made, whatever resolves paths, and tracing is
  -- active after every history of events.
  is_active-run_unbounded :
      (absolute : P → Option P) (es : List (Event same_path))
      → (a : ActivationController P) × (new absolute none ≡ some a)
        × (is_active (run same_path a es) ≡ true)
  unfolding new
  is_active-run_unbounded absolute es =
      (_, refl, unbounded_run _ es (record { no_code = refl; started = refl }))
