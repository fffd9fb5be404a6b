-- ===== src/Tests/Stepping.antt =====
-- The theorems on steps and lines at concrete inputs.
use codetracer_python_record.Prelude.{
  ℕ, suc, zero, ◌≤◌, ◌≡◌, refl, true, ◌&&◌, Option, none, some, [], ◌∷◌, codes, arith, ltb, member,
  pos, lookup,
}
use codetracer_python_record.Stepping.{StepState, lines_to_emit, write_steps}
use codetracer_python_record.Stepping.Cursor.{
  Position, read_calls, meant, events_of, last_from, write_steps_follows, write_steps_interleaved,
}
use codetracer_python_record.Stepping.Lines.{member-lines_to_emit}

abbrev fresh : StepState
fresh = record { column_aware = true; last_line_per_frame = []; last_column_per_frame = [] }

abbrev somewhere : Position
somewhere = record { path = codes "b.py"; line = 9; column = pos 9 }

-- Line 2 has no column.
abbrev column_at : ℕ → Option ℕ
column_at (suc (suc zero)) = none
column_at l = some 5

columns_positive : (l : ℕ) → elim (column_at l) as (λ o. Type 0) [ none ↦ Unit | some c ↦ 1 ≤ c ]
columns_positive zero = omega arith
columns_positive (suc zero) = omega arith
columns_positive (suc (suc zero)) = tt
columns_positive (suc (suc (suc l))) = omega arith

write_steps_follows_example :
    read_calls somewhere
      (write_steps fresh (codes "a.py") (events_of 7 column_at (1 ∷ 2 ∷ 3 ∷ 3 ∷ []))).1
    ≡ meant
        (codes "a.py")
        (last_from 7 column_at 1 (2 ∷ 3 ∷ 3 ∷ []))
        (column_at (last_from 7 column_at 1 (2 ∷ 3 ∷ 3 ∷ [])))
unfolding lookup
write_steps_follows_example =
    write_steps_follows 7 column_at columns_positive fresh (codes "a.py") somewhere 1
      (2 ∷ 3 ∷ 3 ∷ []) refl refl

-- A loop on one line that calls a function on another.
write_steps_interleaved_example :
    read_calls somewhere
      (write_steps fresh (codes "a.py") (
        record { frame = 7; lineno = 3; column = some 5 }
        ∷ record { frame = 8; lineno = 1; column = none }
        ∷ record { frame = 7; lineno = 3; column = some 5 }
        ∷ [])).1
    ≡ meant (codes "a.py") 1 none
unfolding lookup
write_steps_interleaved_example =
    write_steps_interleaved fresh (codes "a.py") somewhere 7 8 3 5 1 none refl (λ e. omega arith) tt
      refl

member-lines_to_emit_example : member 3 (lines_to_emit (some 3) 4) ≡ (ltb 3 3 && ltb 3 4)
member-lines_to_emit_example = member-lines_to_emit 3 4 3
