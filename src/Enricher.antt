-- ===== src/Enricher.antt =====
-- Where captured output comes from: runtime/line_snapshots.rs, runtime/io_capture/mute.rs and
-- runtime/io_capture/sink/enricher.rs of codetracer-python-recorder/src. The frames of the Python
-- stack are a parameter: `none` where `sys._getframe` is not there, then what it answers at a depth.
pub mod Origin
use codetracer_python_record.Prelude.{
  ℕ, suc, ◌+◌, ◌-◌, ℤ, Bool, true, false, ◌&&◌, ◌||◌, Option, none, some, List, [], ◌∷◌, String,
  ltb, if◌then◌else◌, lookup, insert, remove, is_none, is_some, or_else,
}
use codetracer_python_record.IoCapture.Events.{ProxyEvent}

-- Without the time of the capture, which nothing reads.
pub record LineSnapshot : Type 0 where
  pub path_id : ℕ
  pub line : ℤ
  pub frame_id : ℕ

-- `LineSnapshotStore`, by thread.
abbrev pub LineSnapshotStore : Type 0
LineSnapshotStore = List (ℕ × LineSnapshot)

unfoldable pub record_snapshot : LineSnapshotStore → ℕ → ℕ → ℤ → ℕ → LineSnapshotStore
record_snapshot store thread_id path_id line frame_id =
    insert thread_id (record { path_id = path_id; line = line; frame_id = frame_id }) store

unfoldable pub snapshot_for_thread : LineSnapshotStore → ℕ → Option LineSnapshot
snapshot_for_thread store thread_id = lookup thread_id store

unfoldable pub remove_snapshot : LineSnapshotStore → ℕ → LineSnapshotStore
remove_snapshot store thread_id = remove thread_id store

abbrev pub clear_snapshots : LineSnapshotStore → LineSnapshotStore
clear_snapshots store = []

abbrev pub u32_max : ℕ
u32_max = 4294967295

-- The depth of a thread's mutes: a guard is made, and dropped.
unfoldable pub mute : ℕ → ℕ
mute depth = if ltb depth u32_max then depth + 1 else u32_max

unfoldable pub unmute : ℕ → ℕ
unmute depth = depth - 1

unfoldable pub is_io_capture_muted : ℕ → Bool
is_io_capture_muted depth = ltb 0 depth

pub record Frame : Type 0 where
  pub lineno : Option ℤ
  pub filename : Option String
  pub address : ℕ

abbrev pub Stack : Type 0
Stack = Option (ℕ → Option Frame)

-- `event.line.is_some() && (event.path_id.is_some() || event.path.is_some())`.
abbrev pub is_located : ProxyEvent → Bool
is_located e = is_some e.line && (is_some e.path_id || is_some e.path)

-- One round of the walk over the stack.
unfoldable pub populate_from_frame : ProxyEvent → Option Frame → ProxyEvent
populate_from_frame e none = e
populate_from_frame e (some frame) = record e {
  line = or_else e.line frame.lineno;
  path = or_else e.path frame.filename;
  frame_id = or_else e.frame_id (some frame.address);
}

-- The walk over the depths. A depth without a frame is passed over.
unfoldable pub populate_loop : (ℕ → Option Frame) → List ℕ → ProxyEvent → ProxyEvent
populate_loop frames [] e = e
populate_loop frames (depth ∷ depths) e =
    let e' = populate_from_frame e (frames depth) in
    let rest = populate_loop frames depths e' in
    if is_some (frames depth) && is_located e' then e' else rest

unfoldable pub populate_from_stack : Stack → ProxyEvent → ProxyEvent
unfolding populate_loop
populate_from_stack stack e =
    if is_located e
    then e
    else elim stack [ none ↦ e | some frames ↦ populate_loop frames (2 ∷ 1 ∷ 0 ∷ []) e ]

-- What is missing is taken from the snapshot.
unfoldable pub populate_from_snapshot : ProxyEvent → Option LineSnapshot → ProxyEvent
populate_from_snapshot e none = e
populate_from_snapshot e (some s) = record e {
  frame_id = or_else e.frame_id (some s.frame_id);
  path_id = or_else e.path_id (some s.path_id);
  line = or_else e.line (some s.line);
}

-- `enrich`, at a depth of mutes.
unfoldable pub enrich : LineSnapshotStore → ℕ → Stack → ProxyEvent → Option ProxyEvent
enrich store depth stack e =
    let e' =
      if is_none e.frame_id || (is_none e.path_id || is_none e.line)
      then populate_from_snapshot e (snapshot_for_thread store e.thread_id)
      else e in
    if is_io_capture_muted depth
    then none
    else some (
        if is_none e'.line || (is_none e'.path_id && is_none e'.path)
        then populate_from_stack stack e'
        else e')
