-- ===== src/Tests/ModuleNames.antt =====
-- The theorems on module names at concrete inputs.
use codetracer_python_record.Prelude.{◌≡◌, refl, true, none, some, List, [], ◌∷◌, ◌++◌, Text, codes}
use codetracer_python_record.ModuleNames.{
  Component, normal, root_dir, join, py_suffix, is_identifier_char, is_valid_module_name,
  module_from_relative, root_of, entry_name,
}
use codetracer_python_record.ModuleNames.Relative.{module_from_relative-join}
use codetracer_python_record.ModuleNames.Prefix.{entry_name-append}

abbrev dirs : List Text
dirs = codes "pkg" ∷ codes "sub" ∷ []

abbrev stem : Text
stem = codes "mod"

module_from_relative-join_example :
    (module_from_relative (join b'/' (dirs ++ ((stem ++ py_suffix) ∷ [])))
      ≡ some (join b'.' (dirs ++ (stem ∷ []))))
    × (is_valid_module_name (join b'.' (dirs ++ (stem ∷ []))) ≡ true)
unfolding is_identifier_char
module_from_relative-join_example = module_from_relative-join dirs stem (refl, (refl, tt)) refl refl

-- The root `/pro`, and a file in its sibling `/project`.
abbrev components : Text → List Component
components raw = root_dir ∷ normal (codes "pro") ∷ []

entry_name-append_example :
    entry_name components none (codes "/pro" ++ (b'j' ∷ codes "ect/mod.py")) (codes "/pro")
    ≡ module_from_relative (b'j' ∷ codes "ect/mod.py")
unfolding root_of
entry_name-append_example =
    entry_name-append components none (codes "/pro") (codes "/pro") (codes "ect/mod.py") b'j' refl
      refl refl refl

ject_mod : module_from_relative (b'j' ∷ codes "ect/mod.py") ≡ some (codes "ject.mod")
unfolding module_from_relative
ject_mod = refl
