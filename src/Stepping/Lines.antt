-- ===== src/Stepping/Lines.antt =====
-- The lines whose assignments are emitted, and the lengths of lines, in runtime/tracer/events.rs.
use codetracer_python_record.Prelude.{
  ℕ, zero, suc, ◌+◌, ◌-◌, ◌≤◌, true, ◌&&◌, some, List, [], ◌∷◌, ◌++◌, ◌∙◌, ◌≡◌, refl, if◌then◌else◌,
  ◌==◌, ltb, leb, arith, map, ap, sym, Bool-cases, inl, inr, member, length,
}
use codetracer_python_record.Tracer.{ends_with}
use codetracer_python_record.ModuleNames.{split}
use codetracer_python_record.ModuleNames.Relative.{split_some}
use codetracer_python_record.Stepping.{
  lines_from, lines_to_emit, length_loop, line_lengths, saturating_add_one, u32_max,
}

member-lines_from : (line n l : ℕ) → member l (lines_from line n) ≡ (leb line l && ltb l (line + n))
unfolding member lines_from
member-lines_from line zero l = ground arith
member-lines_from line (suc n) l = ground (arith, member-lines_from (line + 1) n l)

-- Behind the first line event of a frame, the lines whose assignments a line event emits are
-- just those strictly between the line before and the new one, so never the line that was
-- executed.
pub member-lines_to_emit :
    (previous lineno l : ℕ)
    → member l (lines_to_emit (some previous) lineno) ≡ (ltb previous l && ltb l lineno)
unfolding lines_to_emit member
member-lines_to_emit previous lineno l =
    ground (arith, member-lines_from (previous + 1) (lineno - 1 + 1 - (previous + 1)) l)

-- The length of the first piece grows by what was counted before.
abbrev add_first : ℕ → List ℕ → List ℕ
add_first n [] = []
add_first n (m ∷ lengths) = (n + m) ∷ lengths

-- The pieces of the file between its newlines, as lengths.
abbrev pub piece_lengths : List ℕ → List ℕ
piece_lengths bytes = map (λ (piece : List ℕ). length piece) (split b'\n' bytes)

split_step :
    (byte : ℕ) (bytes : List ℕ)
    → piece_lengths (byte ∷ bytes)
      ≡ (if byte == b'\n' then 0 ∷ piece_lengths bytes else add_first 1 (piece_lengths bytes))
unfolding split
split_step byte bytes =
    let (p, ps, e) = split_some b'\n' bytes in
    elim (Bool-cases (byte == b'\n')) [ inl h ↦ rw (e, h) refl | inr h ↦ rw (e, h) (ground arith) ]

add_first_add :
    (a b : ℕ) (lengths : List ℕ) → add_first a (add_first b lengths) ≡ add_first (a + b) lengths
add_first_add a b [] = refl
add_first_add a b (m ∷ lengths) = ground arith

add_first_zero : (lengths : List ℕ) → add_first 0 lengths ≡ lengths
add_first_zero [] = refl
add_first_zero (m ∷ lengths) = ground arith

loop_lem :
    (bytes : List ℕ) (n : ℕ)
    → n + length bytes ≤ u32_max
    → (length_loop bytes n).0 ++ ((length_loop bytes n).1 ∷ []) ≡ add_first n (piece_lengths bytes)
unfolding length_loop split
loop_lem [] n h = ground arith
loop_lem (byte ∷ bytes) n h = elim (Bool-cases (byte == b'\n')) [
  | inl e ↦
      rw (split_step byte bytes, e)
        (ap (λ (l : List ℕ). n ∷ l) (loop_lem bytes 0 (omega arith) ∙ add_first_zero _)
          ∙ ground arith)
  | inr e ↦
      let room : ltb n u32_max ≡ true = ground arith in
      rw (split_step byte bytes, e, room)
        (loop_lem bytes (n + 1) (omega arith) ∙ sym (add_first_add n 1 (piece_lengths bytes)))
]

-- Behind a newline nothing is counted.
ends_lem : (bytes : List ℕ) (n : ℕ) → ends_with b'\n' bytes ≡ true → (length_loop bytes n).1 ≡ 0
unfolding length_loop
ends_lem [] n h = cc
ends_lem (byte ∷ []) n h = rw h refl
ends_lem (byte ∷ next ∷ bytes) n h = elim (Bool-cases (byte == b'\n')) [
  | inl e ↦ rw e (ends_lem (next ∷ bytes) 0 h)
  | inr e ↦ rw e (ends_lem (next ∷ bytes) (saturating_add_one n) h)
]

-- The lengths that the loop counts are those of the pieces between the newlines of the file,
-- less an empty piece behind a last newline.
line_lengths_lem :
    (bytes : List ℕ)
    → length bytes ≤ u32_max
    → piece_lengths bytes
      ≡ (if ends_with b'\n' bytes then line_lengths bytes ++ (0 ∷ []) else line_lengths bytes)
unfolding line_lengths
line_lengths_lem bytes h =
    let whole = loop_lem bytes 0 (omega arith) ∙ add_first_zero (piece_lengths bytes) in
    elim (Bool-cases (ends_with b'\n' bytes)) [
      | inl e ↦
          let none_left = ends_lem bytes 0 e in
          rw (e, none_left) (sym whole ∙ ap (λ n. (length_loop bytes 0).0 ++ (n ∷ [])) none_left)
      | inr e ↦ elim (Bool-cases (ltb 0 (length_loop bytes 0).1)) [
        | inl k ↦ rw (e, k) (sym whole)
        | inr k ↦ rw (e, k) (sym whole)
      ]
    ]
