-- ===== src/IoCapture/Buffer/Lines.antt =====
-- The loop of `flush_complete_lines` in io_capture/sink/batcher.rs against a plain description of
-- how bytes divide into lines.
use codetracer_python_record.Prelude.{
  ℕ, zero, suc, ◌≤◌, ◌<◌, ◌≡◌, refl, ap, ◌∙◌, sym, List, [], ◌∷◌, none, some, arith, map, take,
  drop, Option-cases, inl, inr, length, ◌==◌, if◌then◌else◌,
}
use codetracer_python_record.IoCapture.Events.{IoStream}
use codetracer_python_record.IoCapture.Buffer.{
  StreamBuffer, newline, flush_line, flush_lines, flush_complete_lines, position_newline,
}

-- A byte goes before the first complete line, or before the rest where no line is complete.
abbrev pub put_before : ℕ → List (List ℕ) × List ℕ → List (List ℕ) × List ℕ
put_before c ([], rest) = ([], c ∷ rest)
put_before c (l ∷ ls, rest) = ((c ∷ l) ∷ ls, rest)

-- The complete lines of some bytes, each with its newline, and the rest after the last newline.
unfoldable pub split_lines : List ℕ → List (List ℕ) × List ℕ
split_lines [] = ([], [])
split_lines (c ∷ s) =
    let (ls, rest) = split_lines s in
    if c == newline then ((c ∷ []) ∷ ls, rest) else put_before c (ls, rest)

split_lines-none : (s : List ℕ) → position_newline s ≡ none → split_lines s ≡ ([], s)
unfolding split_lines position_newline
split_lines-none [] h = refl
split_lines-none (c ∷ s) h = ground (arith, split_lines-none s)

split_lines-some :
    (s : List ℕ) (i : ℕ)
    → position_newline s ≡ some i
    → let (ls, rest) = split_lines (drop (suc i) s) in split_lines s ≡ (take (suc i) s ∷ ls, rest)
unfolding split_lines position_newline
split_lines-some [] i h = ground arith
split_lines-some (c ∷ s) zero h = ground arith
split_lines-some (c ∷ s) (suc i) h = ground (arith, split_lines-some s i)

length-drop_lt :
    (s : List ℕ) (i : ℕ) → position_newline s ≡ some i → length (drop (suc i) s) < length s
unfolding position_newline
length-drop_lt [] i h = ground arith
length-drop_lt (c ∷ s) zero h = omega arith
length-drop_lt (c ∷ s) (suc i) h = ground (arith, length-drop_lt s i)

-- The rest of a division into lines holds no newline.
pub position-split_lines : (s : List ℕ) → position_newline (split_lines s).1 ≡ none
unfolding split_lines position_newline
position-split_lines [] = refl
position-split_lines (c ∷ s) = ground (arith, position-split_lines s)

no_newline : (s : List ℕ) → length s ≤ 0 → position_newline s ≡ none
unfolding position_newline
no_newline [] h = refl
no_newline (c ∷ s) h = absurd (omega arith)

flush_line_parts :
    (t : ℕ) (s : IoStream) (now i : ℕ) (b : StreamBuffer)
    → let (b', c) = flush_line t s now i b in
      (c.payload ≡ take (suc i) b.payload) × (b'.payload ≡ drop (suc i) b.payload)
unfolding flush_line
flush_line_parts t s now i b = ground arith

flush_lines-split_lines :
    (fuel t : ℕ) (s : IoStream) (now : ℕ) (b : StreamBuffer)
    → length b.payload ≤ fuel
    → let (b', cs) = flush_lines fuel t s now b in
      (map (λ c. c.payload) cs, b'.payload) ≡ split_lines b.payload
unfolding flush_lines
flush_lines-split_lines zero t s now b h = sym (split_lines-none b.payload (no_newline b.payload h))
flush_lines-split_lines (suc fuel) t s now b h = elim (Option-cases (position_newline b.payload)) [
  | inl e ↦ rw (e, flush_lines) (sym (split_lines-none b.payload e))
  | inr (i, e) ↦
      let (b', c) = flush_line t s now i b in
      let parts = flush_line_parts t s now i b in
      let shorter : length b'.payload ≤ fuel =
        rw parts.1 (omega (arith, length-drop_lt b.payload i e)) in
      rw (e, flush_lines)
        (ground (
          arith,
          flush_lines-split_lines fuel t s now b' shorter,
          parts,
          split_lines-some b.payload i e,
        ))
]

-- The loop that flushes complete lines hands over the complete lines of the pending bytes, one
-- chunk for each, keeps the rest after the last newline, and leaves no newline pending.
pub flush_complete_lines_lem :
    (t : ℕ) (s : IoStream) (now : ℕ) (b : StreamBuffer)
    → let (b', cs) = flush_complete_lines t s now b in
      ((map (λ c. c.payload) cs, b'.payload) ≡ split_lines b.payload)
      × (position_newline b'.payload ≡ none)
unfolding flush_complete_lines
flush_complete_lines_lem t s now b =
    let split = flush_lines-split_lines (length b.payload) t s now b (omega arith) in
    (split, ap (λ r. position_newline r.1) split ∙ position-split_lines b.payload)
