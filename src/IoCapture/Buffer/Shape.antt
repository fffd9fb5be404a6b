-- ===== src/IoCapture/Buffer/Shape.antt =====
-- The shape of what a buffer of io_capture/sink/batcher.rs holds, and of the chunks that it emits.
use codetracer_python_record.Prelude.{
  ℕ, zero, suc, ◌≡◌, refl, true, false, List, [], ◌∷◌, ◌++◌, Option, none, some, String, ℤ, arith,
  Option-cases, Bool-cases, is_empty, is_some, inl, inr, All, take, drop,
}
use codetracer_python_record.IoCapture.Events.{
  IoStream, IoChunk, IoChunkFlags, newline_terminated, input_chunk,
}
use codetracer_python_record.IoCapture.Buffer.{
  StreamBuffer, new, append, emit, flush_line, flush_lines, flush_complete_lines, position_newline,
}
use codetracer_python_record.IoCapture.Buffer.Lines.{split_lines, flush_complete_lines_lem}

-- No newline waits; an empty buffer forgets where its bytes came from; bytes that wait are dated.
pub record IsSettled (b : StreamBuffer) : Type 0 where
  pub partial : position_newline b.payload ≡ none
  pub forgotten :
      is_empty b.payload ≡ true
      → (b.frame_id ≡ none) × (b.path_id ≡ none) × (b.line ≡ none) × (b.path ≡ none)
  pub dated : is_empty b.payload ≡ false → is_some b.last_timestamp ≡ true

-- A line chunk is one line with its newline; input is not empty; any other chunk is a part of a
-- line, not empty and without a newline.
abbrev pub Formed : IoChunkFlags → List ℕ → Type 0
Formed newline_terminated p = split_lines p ≡ (p ∷ [], [])
Formed input_chunk p = is_empty p ≡ false
Formed _ p = (is_empty p ≡ false) × (position_newline p ≡ none)

abbrev pub IsFormed : IoChunk → Type 0
IsFormed c = Formed c.flags c.payload

pub new-IsSettled : IsSettled new
unfolding new position_newline
new-IsSettled = record {
  partial = refl;
  forgotten = λ h. (refl, refl, refl, refl);
  dated = λ h. cc;
}

-- A flag that is given to whole buffers.
abbrev pub IsFlush : IoChunkFlags → Type 0
IsFlush f = (p : List ℕ) → is_empty p ≡ false → position_newline p ≡ none → Formed f p

emit_nothing :
    (t : ℕ) (s : IoStream) (now : ℕ) (f : IoChunkFlags) (b : StreamBuffer)
    → is_empty b.payload ≡ true
    → emit t s now f b ≡ (b, [])
unfolding emit
emit_nothing t s now f b h = ground arith

pub emit-IsSettled :
    (t : ℕ) (s : IoStream) (now : ℕ) (f : IoChunkFlags) (b : StreamBuffer)
    → IsFlush f
    → IsSettled b
    → let (b', cs) = emit t s now f b in IsSettled b' × All IsFormed cs
unfolding emit position_newline
emit-IsSettled t s now f b w v = elim (Bool-cases (is_empty b.payload)) [
  | inl e ↦ rw (emit_nothing t s now f b e) (v, tt)
  | inr e ↦
      rw (e, emit)
        (
          record { partial = refl; forgotten = λ h. (refl, refl, refl, refl); dated = λ h. refl },
          (w b.payload e v.partial, tt),
        )
]

-- The parts of `IsSettled` that do not look at newlines.
record IsTracked (b : StreamBuffer) : Type 0 where
  forgotten :
      is_empty b.payload ≡ true
      → (b.frame_id ≡ none) × (b.path_id ≡ none) × (b.line ≡ none) × (b.path ≡ none)
  dated : is_empty b.payload ≡ false → is_some b.last_timestamp ≡ true

is_empty-append : (p q : List ℕ) → is_empty q ≡ false → is_empty (p ++ q) ≡ false
is_empty-append [] q h = h
is_empty-append (c ∷ p) q h = refl

append-IsTracked :
    (b : StreamBuffer) (p : List ℕ) (f i : Option ℕ) (l : Option ℤ) (path : Option String) (now : ℕ)
    → is_empty p ≡ false
    → IsTracked (append b p f i l path now)
unfolding append
append-IsTracked b p f i l path now h = record {
  forgotten = λ e. absurd (cc (is_empty-append b.payload p h));
  dated = λ e. refl;
}

split_lines-take :
    (s : List ℕ) (i : ℕ)
    → position_newline s ≡ some i
    → split_lines (take (suc i) s) ≡ (take (suc i) s ∷ [], [])
unfolding split_lines position_newline
split_lines-take [] i h = ground arith
split_lines-take (c ∷ s) zero h = ground arith
split_lines-take (c ∷ s) (suc i) h = ground (arith, split_lines-take s i)

flush_line-IsTracked :
    (t : ℕ) (s : IoStream) (now i : ℕ) (b : StreamBuffer)
    → position_newline b.payload ≡ some i
    → let (b', c) = flush_line t s now i b in IsTracked b' × IsFormed c
unfolding flush_line
flush_line-IsTracked t s now i b h = elim (Bool-cases (is_empty (drop (suc i) b.payload))) [
  | inl e ↦
      rw (e, flush_line)
        (
          record { forgotten = λ x. (refl, refl, refl, refl); dated = λ x. refl },
          split_lines-take b.payload i h,
        )
  | inr e ↦
      rw (e, flush_line)
        (record { forgotten = λ x. absurd (cc); dated = λ x. refl }, split_lines-take b.payload i h)
]

flush_lines-IsTracked :
    (fuel t : ℕ) (s : IoStream) (now : ℕ) (b : StreamBuffer)
    → IsTracked b
    → let (b', cs) = flush_lines fuel t s now b in IsTracked b' × All IsFormed cs
unfolding flush_lines
flush_lines-IsTracked zero t s now b v = (v, tt)
flush_lines-IsTracked (suc fuel) t s now b v = elim (Option-cases (position_newline b.payload)) [
  | inl e ↦ rw (e, flush_lines) (v, tt)
  | inr (i, e) ↦
      let first = flush_line-IsTracked t s now i b e in
      let rest = flush_lines-IsTracked fuel t s now (flush_line t s now i b).0 first.0 in
      rw (e, flush_lines) (rest.0, (first.1, rest.1))
]

pub append_lines-IsSettled :
    (t : ℕ) (s : IoStream) (now : ℕ) (b : StreamBuffer) (p : List ℕ) (f i : Option ℕ) (l : Option ℤ)
    (path : Option String)
    → is_empty p ≡ false
    → let (b', cs) = flush_complete_lines t s now (append b p f i l path now) in
      IsSettled b' × All IsFormed cs
unfolding flush_complete_lines
append_lines-IsSettled t s now b p f i l path h =
    let start = append b p f i l path now in
    let tracked = flush_lines-IsTracked _ t s now start (append-IsTracked b p f i l path now h) in
    (
      record {
        partial = (flush_complete_lines_lem t s now start).1;
        forgotten = tracked.0.forgotten;
        dated = tracked.0.dated;
      },
      tracked.1,
    )
