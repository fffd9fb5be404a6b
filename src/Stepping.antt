-- ===== src/Stepping.antt =====
-- The steps that `on_line` of runtime/tracer/events.rs writes, the lines whose assignments it emits
-- then, and the lengths of lines that `read_line_lengths` there reads. A frame is its pointer. A
-- position of the trace is what its reader makes of the calls: a step goes to column 1 of a line, a
-- delta moves on from there.
pub mod Cursor
pub mod Lines
use codetracer_python_record.Prelude.{
  ℕ, zero, suc, ◌+◌, ◌-◌, ◌*◌, ℤ, pos, Bool, true, false, not, ◌&&◌, ◌||◌, Option, none, some, List,
  [], ◌∷◌, ◌++◌, Text, if◌then◌else◌, lookup, insert, ◌==◌, ltb, leb, sub_ℕ, ◌+ℤ◌, starts_with,
  is_empty,
}
use codetracer_python_record.Tracer.{ends_with}

-- The maps of the tracer by frame, and whether columns are written.
pub record StepState : Type 0 where
  pub column_aware : Bool
  pub last_line_per_frame : List (ℕ × ℕ)
  pub last_column_per_frame : List (ℕ × ℕ)

pub data StepCall : Type 0 where
  register_step : Text → ℕ → StepCall
  write_delta_column : ℤ → StepCall

-- The lines from the first on, so many of them.
unfoldable pub lines_from : ℕ → ℕ → List ℕ
lines_from line zero = []
lines_from line (suc n) = line ∷ lines_from (line + 1) n

abbrev pub first_to_emit : Option ℕ → ℕ
first_to_emit none = 0
first_to_emit (some previous_line) = previous_line + 1

-- The lines whose assignments are emitted, from the last line seen in the frame. `-` is
-- `saturating_sub`.
unfoldable pub lines_to_emit : Option ℕ → ℕ → List ℕ
unfolding lines_from
lines_to_emit previous_line lineno =
    let first = first_to_emit previous_line in
    let last = lineno - 1 in if leb first last then lines_from first (last + 1 - first) else []

-- A step, and the delta to its column.
unfoldable pub absolute_step : Text → ℕ → ℕ → List StepCall
absolute_step path lineno column =
    register_step path lineno
    ∷ (if ltb 1 column then write_delta_column (sub_ℕ column 1) ∷ [] else [])

abbrev pub is_line : Option ℕ → ℕ → Bool
is_line none lineno = false
is_line (some line) lineno = line == lineno

-- With columns: from whether the line is the same, and the column of the frame.
unfoldable pub column_step : Bool → Option ℕ → Text → ℕ → ℕ → List StepCall
unfolding absolute_step
column_step true (some prev_column) path lineno column =
    if column == prev_column then [] else write_delta_column (sub_ℕ column prev_column) ∷ []
column_step true none path lineno column = absolute_step path lineno column
column_step false prev_column path lineno column = absolute_step path lineno column

-- The step of `on_line`, with the column that the table of the code has for the line.
abbrev pub aware_column : Bool → Option ℕ → Option ℕ
aware_column true column = column
aware_column false column = none

abbrev pub step_at : StepState → ℕ → Text → ℕ → Option ℕ → StepState × List StepCall
step_at s frame path lineno none = (s, register_step path lineno ∷ [])
step_at s frame path lineno (some column) = (
  record s { last_column_per_frame = insert frame column s.last_column_per_frame },
  column_step (is_line (lookup frame s.last_line_per_frame) lineno)
      (lookup frame s.last_column_per_frame) path lineno column,
)

-- The step, where the code object has a file name, and then the line is remembered.
abbrev pub remember_line : ℕ → ℕ → StepState → StepState
remember_line frame lineno s = record s {
  last_line_per_frame = insert frame lineno s.last_line_per_frame;
}

abbrev pub step_of : StepState → ℕ → Option Text → ℕ → Option ℕ → StepState × List StepCall
step_of s frame none lineno column = (s, [])
step_of s frame (some path) lineno column =
    step_at s frame path lineno (aware_column s.column_aware column)

unfoldable pub write_step : StepState → ℕ → Option Text → ℕ → Option ℕ → StepState × List StepCall
unfolding column_step
write_step s frame path lineno column =
    let (s', calls) = step_of s frame path lineno column in (remember_line frame lineno s', calls)

-- A line event: the frame, the line and the column of its first store.
pub record LineEvent : Type 0 where
  pub frame : ℕ
  pub lineno : ℕ
  pub column : Option ℕ

unfoldable pub write_steps : StepState → Text → List LineEvent → StepState × List StepCall
unfolding write_step
write_steps s path [] = (s, [])
write_steps s path (e ∷ events) =
    let (s', calls) = write_step s e.frame (some path) e.lineno e.column in
    let rest = write_steps s' path events in (rest.0, calls ++ rest.1)

-- `read_line_lengths`: the loop over the bytes. Lengths saturate at 32 bits.
abbrev pub u32_max : ℕ
u32_max = 4294967295

abbrev pub saturating_add_one : ℕ → ℕ
saturating_add_one n = if ltb n u32_max then n + 1 else u32_max

unfoldable pub length_loop : List ℕ → ℕ → List ℕ × ℕ
length_loop [] current_len = ([], current_len)
length_loop (byte ∷ bytes) current_len =
    let rest = length_loop bytes (if byte == b'\n' then 0 else saturating_add_one current_len) in
    if byte == b'\n' then (current_len ∷ rest.0, rest.1) else rest

unfoldable pub line_lengths : List ℕ → List ℕ
unfolding length_loop
line_lengths bytes =
    let (lines, current_len) = length_loop bytes 0 in
    if ltb 0 current_len || not (ends_with b'\n' bytes) then lines ++ current_len ∷ [] else lines

-- `read` is what the file system answers for the path.
unfoldable pub read_line_lengths : (Text → Option (List ℕ)) → Text → Option (List ℕ)
unfolding line_lengths
read_line_lengths read path =
    if starts_with (b'<' ∷ []) path && ends_with b'>' path
    then none
    else elim (read path) [ none ↦ none | some bytes ↦ some (line_lengths bytes) ]
