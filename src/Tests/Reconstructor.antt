-- ===== src/Tests/Reconstructor.antt =====
-- The theorems on reconstructed assignments at concrete bytecode.
use codetracer_python_record.Prelude.{
  ℕ, ◌≡◌, refl, pos, some, List, [], ◌∷◌, String, insert, lookup,
}
use codetracer_python_record.Reconstructor.Window.{
  DecodedInstruction, ArgValKind, name, int, other, literal, index_access, simple, classify_window,
  is_store_op, is_load_op, is_const_op, is_call_op, is_noise, is_pop_top_or_kwnames, pop_tail,
  single_shape, field_shape, subscript_shape, call_shape, sources_of, sources_shape,
  classify_filtered,
}
use codetracer_python_record.Reconstructor.Table.{
  LineAssignmentTable, build_table, for_line, classify_rvalue, count_stores, store_target, name_of,
  push_store, push, push_stores, push_trailing, advance, window_before, build_loop,
  detect_unpack_sequence, find_receiver,
}
use codetracer_python_record.Reconstructor.Table.Stores.{stores_on, recorded}
use codetracer_python_record.Reconstructor.Table.Build.{build_table_lem}

abbrev at : String → ArgValKind → ℕ → ℕ → DecodedInstruction
at op kind line col = record {
  opname = op;
  argval_kind = kind;
  line = some line;
  col_offset = some col;
}

-- `x = 5` on line 1; `a, b = 1, 2` on line 2; `y = x` on line 3.
abbrev code : List DecodedInstruction
code =
    at "LOAD_CONST" (int (pos 5)) 1 4
    ∷ at "STORE_NAME" (name "x") 1 0
    ∷ at "LOAD_CONST" other 2 7
    ∷ at "UNPACK_SEQUENCE" (int (pos 2)) 2 7
    ∷ at "STORE_NAME" (name "a") 2 0
    ∷ at "STORE_NAME" (name "b") 2 3
    ∷ at "LOAD_NAME" (name "x") 3 4
    ∷ at "STORE_NAME" (name "y") 3 0
    ∷ []

build_table_example :
    (t : LineAssignmentTable) × (build_table code ≡ some t)
    × ((l : ℕ) → recorded t l ≡ stores_on l code)
build_table_example = build_table_lem code

abbrev two_stores : LineAssignmentTable
two_stores =
    (
      4,
      record { target = "a"; rvalue = literal; column = some 9 }
          ∷ record { target = "b"; rvalue = literal; column = some 3 }
          ∷ [],
    )
    ∷ []

-- The loop run on the code above: the parts of a constant are said to be parts of `x`.
table_of_code :
    build_table code
    ≡ some (
        (1, record { target = "x"; rvalue = literal; column = some 1 } ∷ [])
        ∷ (
          2,
          record { target = "a"; rvalue = index_access "x" (pos 0); column = some 1 }
              ∷ record { target = "b"; rvalue = index_access "x" (pos 1); column = some 4 }
              ∷ [],
        )
        ∷ (3, record { target = "y"; rvalue = simple "x"; column = some 1 } ∷ [])
        ∷ [])
unfolding build_table build_loop store_target name_of push_store push push_stores push_trailing
    advance window_before detect_unpack_sequence find_receiver count_stores classify_rvalue
    classify_window classify_filtered pop_tail is_store_op is_load_op is_const_op is_call_op
    is_noise is_pop_top_or_kwnames single_shape field_shape subscript_shape call_shape sources_of
    sources_shape for_line insert lookup
table_of_code = refl
