-- ===== src/Tests/FilterEngine.antt =====
-- The theorems on the trace filter's engine at concrete inputs.
use codetracer_python_record.Prelude.{ℕ, ◌≡◌, refl, true, none, some, [], ◌∷◌, codes, arith, lookup}
use codetracer_python_record.FilterEngine.{
  Resolution, CodeObject, TraceFilterEngine, Packages, classify, resolve_code, destroys, slot_run,
}
use codetracer_python_record.FilterEngine.Slots.{resolve_code_lasts}
use codetracer_python_record.FilterEngine.Index.{
  Shared, load, exchange, set_phase, loads, exchanges, Reach, here, next, start, answered,
  requested, Reach-same_index,
}

abbrev packages : Packages
packages = record { directories = λ path. []; stem = λ path. none }

-- An engine that decides everything alike.
abbrev engine_for : ℕ → TraceFilterEngine
engine_for decision = record {
  classifier =
      λ query. record { decision = decision; module_name = some (codes "m"); absolute_path = none };
  code_extra_index = some 0;
}

abbrev code : CodeObject
code = record { id = 4; filename = some (codes "m.py"); qualname = some (codes "f") }

abbrev first_answer : Resolution
first_answer = record { decision = 1; module_name = some (codes "m"); absolute_path = none }

resolve_code_lasts_example :
    resolve_code packages true
      (slot_run packages
        (resolve_code packages true [] (engine_for 1) code none).0
        (destroys 9 ∷ []))
      (engine_for 2)
      code
      none
    ≡ (
      slot_run packages
          (resolve_code packages true [] (engine_for 1) code none).0
          (destroys 9 ∷ []),
      some first_answer,
    )
unfolding resolve_code classify lookup
resolve_code_lasts_example =
    resolve_code_lasts packages [] (engine_for 1) (engine_for 2) 0 code none none first_answer
      (destroys 9 ∷ []) true refl refl refl ((λ e. omega arith), tt)

-- Two threads ask CPython before either has published.
abbrev raced : Shared
raced = record {
  published = some 5;
  phase = set_phase 0 (answered (some 5)) (
      set_phase 1 (answered (some 5))
        (set_phase 1 (requested 5) (set_phase 0 (requested 4) start.phase)));
}

race : Reach start raced
unfolding load exchange
race =
    next
      (next (next (next here (loads start 0 (some 4) refl)) (loads _ 1 (some 5) refl))
        (exchanges _ 1 5 refl))
      (exchanges _ 0 4 refl)

Reach-same_index_example : ◌≡◌ {A = ℕ} 5 5
Reach-same_index_example = Reach-same_index {t = raced} 0 1 5 5 race refl refl
