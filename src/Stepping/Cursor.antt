-- ===== src/Stepping/Cursor.antt =====
-- Where the reader of a trace stands behind the steps that runtime/tracer/events.rs writes.
use codetracer_python_record.Prelude.{
  ℕ, ◌≤◌, ℤ, pos, true, false, Option, none, some, List, [], ◌∷◌, ◌++◌, ◌∙◌, ◌≡◌, ◌≢◌, inl, inr,
  refl, Text, lookup, lookup-insert, ◌==◌, ltb, ◌+ℤ◌, arith, map, ap, sym, Bool-cases, unwrap_or,
  subst, append-nil,
}
use codetracer_python_record.Stepping.{
  StepState, StepCall, register_step, write_delta_column, absolute_step, column_step, write_step,
  write_steps, LineEvent, is_line,
}

pub record Position : Type 0 where
  pub path : Text
  pub line : ℕ
  pub column : ℤ

-- How the reader takes a call.
unfoldable pub read_call : Position → StepCall → Position
read_call p (register_step path line) = record { path = path; line = line; column = pos 1 }
read_call p (write_delta_column delta) = record p { column = p.column +ℤ delta }

unfoldable pub read_calls : Position → List StepCall → Position
unfolding read_call
read_calls p [] = p
read_calls p (call ∷ calls) = read_calls (read_call p call) calls

read_calls-append :
    (p : Position) (xs ys : List StepCall)
    → read_calls p (xs ++ ys) ≡ read_calls (read_calls p xs) ys
unfolding read_calls
read_calls-append p [] ys = refl
read_calls-append p (x ∷ xs) ys = read_calls-append (read_call p x) xs ys

-- What a step is meant to say.
abbrev pub meant : Text → ℕ → Option ℕ → Position
meant path lineno column = record { path = path; line = lineno; column = pos (unwrap_or column 1) }

abbrev IsPositive : Option ℕ → Type 0
IsPositive none = Unit
IsPositive (some c) = 1 ≤ c

absolute_lem :
    (p : Position) (path : Text) (lineno c : ℕ)
    → 1 ≤ c
    → read_calls p (absolute_step path lineno c) ≡ meant path lineno (some c)
unfolding absolute_step read_calls ◌+ℤ◌
absolute_lem p path lineno c h = elim (Bool-cases (ltb 1 c)) [
  | inl e ↦ rw e (ground arith)
  | inr e ↦ rw e (ground arith)
]

-- An event that is not on the line that the frame was seen on.
moved_lem :
    (s : StepState) (frame : ℕ) (path : Text) (lineno : ℕ) (column : Option ℕ) (p : Position)
    → s.column_aware ≡ true
    → IsPositive column
    → is_line (lookup frame s.last_line_per_frame) lineno ≡ false
    → read_calls p (write_step s frame (some path) lineno column).1 ≡ meant path lineno column
unfolding write_step column_step read_calls
moved_lem s frame path lineno none p aware h moved = rw aware refl
moved_lem s frame path lineno (some c) p aware h moved =
    rw (aware, moved) (absolute_lem p path lineno c h)

-- What the maps know of a frame: the last line, and its column if it has one.
module _ (frame : ℕ) (column_of : ℕ → Option ℕ) where
  abbrev KnowsColumn : StepState → Option ℕ → Type 0
  KnowsColumn s none = Unit
  KnowsColumn s (some c) = lookup frame s.last_column_per_frame ≡ some c

  abbrev Knows : StepState → ℕ → Type 0
  Knows s line =
      (s.column_aware ≡ true)
      × (lookup frame s.last_line_per_frame ≡ some line)
      × KnowsColumn s (column_of line)

  write_step-Knows :
      (s : StepState) (path : Text) (lineno : ℕ) (column : Option ℕ)
      → column_of lineno ≡ column
      → s.column_aware ≡ true
      → Knows (write_step s frame (some path) lineno column).0 lineno
  unfolding write_step
  write_step-Knows s path lineno none e aware =
      rw (aware, e)
        (refl, lookup-insert frame frame lineno s.last_line_per_frame ∙ ground arith, tt)
  write_step-Knows s path lineno (some c) e aware =
      rw (aware, e)
        (
          refl,
          lookup-insert frame frame lineno s.last_line_per_frame ∙ ground arith,
          lookup-insert frame frame c s.last_column_per_frame ∙ ground arith,
        )

  -- Again on the line: nothing is written if the line has a column.
  same_line_silent :
      (s : StepState) (path : Text) (lineno c : ℕ)
      → column_of lineno ≡ some c
      → Knows s lineno
      → (write_step s frame (some path) lineno (some c)).1 ≡ []
  unfolding write_step column_step
  same_line_silent s path lineno c e k =
      let known : lookup frame s.last_column_per_frame ≡ some c = subst (KnowsColumn s) e k.2 in
      rw (k.0, k.1, known) (ground arith)

  -- The lines of a frame, as events.
  abbrev pub events_of : List ℕ → List LineEvent
  events_of lines =
      map (λ (l : ℕ). record { frame = frame; lineno = l; column = column_of l }) lines

  abbrev pub last_from : ℕ → List ℕ → ℕ
  last_from line [] = line
  last_from line (l ∷ lines) = last_from l lines

  again_lem :
      (s : StepState) (path : Text) (lineno : ℕ) (column : Option ℕ)
      → column_of lineno ≡ column
      → Knows s lineno
      → read_calls
          (meant path lineno (column_of lineno))
          (write_step s frame (some path) lineno column).1
        ≡ meant path lineno column
  unfolding read_calls write_step
  again_lem s path lineno none e k = rw (e, k.0) refl
  again_lem s path lineno (some c) e k = rw (same_line_silent s path lineno c e k) (rw e refl)

  next_lem :
      (s : StepState) (path : Text) (line lineno : ℕ) (column : Option ℕ)
      → column_of lineno ≡ column
      → IsPositive column
      → Knows s line
      → read_calls
          (meant path line (column_of line))
          (write_step s frame (some path) lineno column).1
        ≡ meant path lineno column
  next_lem s path line lineno column e h k = elim (Bool-cases (line == lineno)) [
    | inr other ↦
        moved_lem s frame path lineno column (meant path line (column_of line)) k.0 h
          (rw (k.1) other)
    | inl same ↦
        let equal : line ≡ lineno = ground (arith, same) in
        subst
          (λ l.
            read_calls (meant path l (column_of l)) (write_step s frame (some path) lineno column).1
            ≡ meant path lineno column)
          (sym equal) (again_lem s path lineno column e (subst (Knows s) equal k))
  ]

  module _ (positive : (l : ℕ) → IsPositive (column_of l)) where
    follow_lem :
        (s : StepState) (path : Text) (line : ℕ) (lines : List ℕ)
        → Knows s line
        → read_calls (meant path line (column_of line)) (write_steps s path (events_of lines)).1
          ≡ meant path (last_from line lines) (column_of (last_from line lines))
    unfolding write_steps read_calls
    follow_lem s path line [] k = refl
    follow_lem s path line (l ∷ lines) k =
        let (s', calls) = write_step s frame (some path) l (column_of l) in
        read_calls-append (meant path line (column_of line)) calls
          (write_steps s' path (events_of lines)).1
        ∙ ap (λ p. read_calls p (write_steps s' path (events_of lines)).1)
            (next_lem s path line l (column_of l) refl (positive l) k)
        ∙ follow_lem s' path l lines (write_step-Knows s path l (column_of l) refl k.0)

    -- With columns on, from any position of the reader, if the columns of lines are fixed and
    -- from 1 on, then behind the steps of the lines of one frame that was not seen before the
    -- reader stands on the last line, at its column, or at 1 if it has none.
    pub write_steps_follows :
        (s : StepState) (path : Text) (p : Position) (line : ℕ) (lines : List ℕ)
        → s.column_aware ≡ true
        → lookup frame s.last_line_per_frame ≡ none
        → read_calls p (write_steps s path (events_of (line ∷ lines))).1
          ≡ meant path (last_from line lines) (column_of (last_from line lines))
    unfolding write_steps
    write_steps_follows s path p line lines aware fresh =
        let (s', calls) = write_step s frame (some path) line (column_of line) in
        read_calls-append p calls (write_steps s' path (events_of lines)).1
        ∙ ap (λ q. read_calls q (write_steps s' path (events_of lines)).1)
            (moved_lem s frame path line (column_of line) p aware (positive line) (rw fresh refl))
        ∙ follow_lem s' path line lines (write_step-Knows s path line (column_of line) refl aware)

  -- With columns on, a second step onto the same line of a frame makes no call on the writer.
  write_steps_again :
      (s : StepState) (path : Text) (line c : ℕ)
      → s.column_aware ≡ true
      → column_of line ≡ some c
      → (write_steps s path (events_of (line ∷ line ∷ []))).1
        ≡ (write_steps s path (events_of (line ∷ []))).1
  unfolding write_steps
  write_steps_again s path line c aware e =
      let s' = (write_step s frame (some path) line (column_of line)).0 in
      let knows = write_step-Knows s path line (column_of line) refl aware in
      let silent : (write_step s' frame (some path) line (column_of line)).1 ≡ [] =
        subst (λ o. (write_step s' frame (some path) line o).1 ≡ []) (sym e)
          (same_line_silent s' path line c e knows) in
      rw silent refl

-- The maps of another frame.
write_step-other :
    (s : StepState) (frame other : ℕ) (path : Text) (lineno : ℕ) (column : Option ℕ)
    → s.column_aware ≡ true
    → frame ≢ other
    → let s' = (write_step s other (some path) lineno column).0 in
      (lookup frame s'.last_line_per_frame ≡ lookup frame s.last_line_per_frame)
      × (lookup frame s'.last_column_per_frame ≡ lookup frame s.last_column_per_frame)
      × (s'.column_aware ≡ true)
unfolding write_step
write_step-other s frame other path lineno none aware differ =
    rw aware
      (ground (arith, lookup-insert other frame lineno s.last_line_per_frame, differ), refl, refl)
write_step-other s frame other path lineno (some c) aware differ = rw aware (
  ground (arith, lookup-insert other frame lineno s.last_line_per_frame, differ),
  ground (arith, lookup-insert other frame c s.last_column_per_frame, differ),
  refl,
)

-- With columns on, where a frame comes to a line with a column, then another frame steps to a
-- line that it was not on, and then the first frame comes to its line again, the reader still
-- stands where the other frame stepped to.
pub write_steps_interleaved :
    (s : StepState) (path : Text) (p : Position) (frame other line c m : ℕ) (d : Option ℕ)
    → s.column_aware ≡ true
    → frame ≢ other
    → IsPositive d
    → is_line (lookup other s.last_line_per_frame) m ≡ false
    → read_calls p
        (write_steps s path (
          record { frame = frame; lineno = line; column = some c }
          ∷ record { frame = other; lineno = m; column = d }
          ∷ record { frame = frame; lineno = line; column = some c }
          ∷ [])).1
      ≡ meant path m d
unfolding write_steps read_calls
write_steps_interleaved s path p frame other line c m d aware differ positive elsewhere =
    let (s1, first) = write_step s frame (some path) line (some c) in
    let (s2, second) = write_step s1 other (some path) m d in
    let known = write_step-Knows frame (λ l. some c) s path line (some c) refl aware in
    let before = write_step-other s other frame path line (some c) aware (λ e. differ (sym e)) in
    let after = write_step-other s1 frame other path m d known.0 differ in
    let silent : (write_step s2 frame (some path) line (some c)).1 ≡ [] =
      same_line_silent frame (λ l. some c) s2 path line c refl
        (after.2, after.0 ∙ known.1, after.1 ∙ known.2) in
    let moved : is_line (lookup other s1.last_line_per_frame) m ≡ false =
      subst (λ o. is_line o m ≡ false) (sym before.0) elsewhere in
    rw silent (
      read_calls-append p first (second ++ [])
      ∙ ap (λ l. read_calls (read_calls p first) l) (append-nil second)
      ∙ moved_lem s1 other path m d (read_calls p first) known.0 positive moved)
