-- ===== src/Enricher/Origin.antt =====
-- Which origin `enrich` of runtime/io_capture/sink/enricher.rs gives an event.
use codetracer_python_record.Prelude.{
  ℕ, ◌≡◌, refl, ◌∙◌, Bool, true, false, ◌&&◌, ◌||◌, Option, none, some, List, [], ◌∷◌,
  if◌then◌else◌, is_none, is_some, or_else, arith, Bool-cases, inl, inr,
}
use codetracer_python_record.IoCapture.Events.{ProxyEvent}
use codetracer_python_record.Enricher.{
  LineSnapshot, LineSnapshotStore, snapshot_for_thread, is_io_capture_muted, Frame, Stack,
  is_located, populate_from_frame, populate_loop, populate_from_stack, populate_from_snapshot,
  enrich,
}

-- A value that is there stays.
abbrev pub Stays {ℓ} : {A : Type ℓ} → Option A → Option A → Type ℓ
Stays none b = Unit
Stays (some a) b = b ≡ some a

-- The event with more of its origin known, and with nothing else changed.
pub record Extends (e e' : ProxyEvent) : Type 0 where
  pub stream : e'.stream ≡ e.stream
  pub operation : e'.operation ≡ e.operation
  pub payload : e'.payload ≡ e.payload
  pub thread_id : e'.thread_id ≡ e.thread_id
  pub timestamp : e'.timestamp ≡ e.timestamp
  pub frame_id : Stays e.frame_id e'.frame_id
  pub path_id : Stays e.path_id e'.path_id
  pub line : Stays e.line e'.line
  pub path : Stays e.path e'.path

Stays_refl {ℓ} : {A : Type ℓ} (a : Option A) → Stays a a
Stays_refl none = tt
Stays_refl (some a) = refl

Stays_trans {ℓ} : {A : Type ℓ} (a b c : Option A) → Stays a b → Stays b c → Stays a c
Stays_trans none b c h k = tt
Stays_trans (some a) none c h k = ground arith
Stays_trans (some a) (some b) c h k = k ∙ h

Stays-or_else {ℓ} : {A : Type ℓ} (a b : Option A) → Stays a (or_else a b)
Stays-or_else none b = tt
Stays-or_else (some a) b = refl

Extends-refl : (e : ProxyEvent) → Extends e e
Extends-refl e = record {
  stream = refl;
  operation = refl;
  payload = refl;
  thread_id = refl;
  timestamp = refl;
  frame_id = Stays_refl e.frame_id;
  path_id = Stays_refl e.path_id;
  line = Stays_refl e.line;
  path = Stays_refl e.path;
}

Extends-trans : (a b c : ProxyEvent) → Extends a b → Extends b c → Extends a c
Extends-trans a b c h k = record {
  stream = k.stream ∙ h.stream;
  operation = k.operation ∙ h.operation;
  payload = k.payload ∙ h.payload;
  thread_id = k.thread_id ∙ h.thread_id;
  timestamp = k.timestamp ∙ h.timestamp;
  frame_id = Stays_trans a.frame_id b.frame_id c.frame_id h.frame_id k.frame_id;
  path_id = Stays_trans a.path_id b.path_id c.path_id h.path_id k.path_id;
  line = Stays_trans a.line b.line c.line h.line k.line;
  path = Stays_trans a.path b.path c.path h.path k.path;
}

frame-Extends : (e : ProxyEvent) (frame : Option Frame) → Extends e (populate_from_frame e frame)
unfolding populate_from_frame
frame-Extends e none = Extends-refl e
frame-Extends e (some frame) = record {
  stream = refl;
  operation = refl;
  payload = refl;
  thread_id = refl;
  timestamp = refl;
  frame_id = Stays-or_else e.frame_id (some frame.address);
  path_id = Stays_refl e.path_id;
  line = Stays-or_else e.line frame.lineno;
  path = Stays-or_else e.path frame.filename;
}

snapshot-Extends :
    (e : ProxyEvent) (s : Option LineSnapshot) → Extends e (populate_from_snapshot e s)
unfolding populate_from_snapshot
snapshot-Extends e none = Extends-refl e
snapshot-Extends e (some s) = record {
  stream = refl;
  operation = refl;
  payload = refl;
  thread_id = refl;
  timestamp = refl;
  frame_id = Stays-or_else e.frame_id (some s.frame_id);
  path_id = Stays-or_else e.path_id (some s.path_id);
  line = Stays-or_else e.line (some s.line);
  path = Stays_refl e.path;
}

if-Extends :
    (e a b : ProxyEvent) (t : Bool) → Extends e a → Extends e b → Extends e (if t then a else b)
if-Extends e a b true h k = h
if-Extends e a b false h k = k

loop-Extends :
    (frames : ℕ → Option Frame) (depths : List ℕ) (e : ProxyEvent)
    → Extends e (populate_loop frames depths e)
unfolding populate_loop
loop-Extends frames [] e = Extends-refl e
loop-Extends frames (depth ∷ depths) e =
    let e' : ProxyEvent = populate_from_frame e (frames depth) in
    if-Extends e e' (populate_loop frames depths e') (is_some (frames depth) && is_located e')
      (frame-Extends e (frames depth))
      (Extends-trans e e' (populate_loop frames depths e') (frame-Extends e (frames depth))
        (loop-Extends frames depths e'))

stack-Extends : (stack : Stack) (e : ProxyEvent) → Extends e (populate_from_stack stack e)
unfolding populate_from_stack
stack-Extends none e = if-Extends e e e (is_located e) (Extends-refl e) (Extends-refl e)
stack-Extends (some frames) e =
    if-Extends e e _ (is_located e) (Extends-refl e) (loop-Extends frames (2 ∷ 1 ∷ 0 ∷ []) e)

-- A muted thread records nothing, and else the event is passed on.
abbrev pub Enriches : Bool → ProxyEvent → Option ProxyEvent → Type 0
Enriches true e r = r ≡ none
Enriches false e r = (e' : ProxyEvent) × (r ≡ some e') × Extends e e'

-- An event of a muted thread is not recorded; of another thread it is passed on with its stream,
-- operation, payload, thread and time as they were, and each part of its origin that it had
-- stays.
pub enrich-Extends :
    (store : LineSnapshotStore) (depth : ℕ) (stack : Stack) (e : ProxyEvent)
    → Enriches (is_io_capture_muted depth) e (enrich store depth stack e)
unfolding enrich
enrich-Extends store depth stack e = elim (Bool-cases (is_io_capture_muted depth)) [
  | inl h ↦ rw h refl
  | inr h ↦ rw h (last, refl, Extends-trans e first last first_lem last_lem)
]
  where
    found : ProxyEvent
    found = populate_from_snapshot e (snapshot_for_thread store e.thread_id)

    first : ProxyEvent
    first = if is_none e.frame_id || (is_none e.path_id || is_none e.line) then found else e

    last : ProxyEvent
    last =
        if is_none first.line || (is_none first.path_id && is_none first.path)
        then populate_from_stack stack first
        else first

    first_lem : Extends e first
    first_lem = if-Extends e found e _ (snapshot-Extends e _) (Extends-refl e)

    last_lem : Extends first last
    last_lem = if-Extends first _ first _ (stack-Extends stack first) (Extends-refl first)

-- Of a thread that is not muted and has a snapshot, an event takes the frame, path id and line
-- that it lacks from the snapshot, and the stack is not consulted.
enrich_snapshot :
    (store : LineSnapshotStore) (stack : Stack) (e : ProxyEvent) (s : LineSnapshot)
    → snapshot_for_thread store e.thread_id ≡ some s
    → enrich store 0 stack e
      ≡ some (record e {
        frame_id = or_else e.frame_id (some s.frame_id);
        path_id = or_else e.path_id (some s.path_id);
        line = or_else e.line (some s.line);
      })
unfolding enrich populate_from_snapshot is_io_capture_muted
enrich_snapshot store stack e s h = ground (arith, h)
