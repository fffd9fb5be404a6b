-- ===== src/FdMirror/Carve.antt =====
-- A description of what the ledger subtracts, without entries or counters: the payloads are cut out
-- of the chunk in order, each at its first occurrence behind the one before it.
use codetracer_python_record.Prelude.{
  ℕ, suc, ◌+◌, ◌≡◌, refl, true, false, Option, none, some, List, [], ◌∷◌, ◌++◌, if◌then◌else◌,
  length, drop, starts_with, arith, Option-cases, inl, inr,
}

-- The bytes before the first occurrence of a payload, and those behind it.
unfoldable pub split_first : List ℕ → List ℕ → Option (List ℕ × List ℕ)
split_first payload [] = none
split_first payload (b ∷ rest) =
    if starts_with payload (b ∷ rest)
    then some ([], drop (length payload) (b ∷ rest))
    else elim (split_first payload rest) [
      | none ↦ none
      | some (before, after) ↦ some (b ∷ before, after)
    ]

-- The bytes that no payload accounts for, and how many payloads were found.
unfoldable pub carve : List (List ℕ) → List ℕ → List ℕ × ℕ
carve [] chunk = (chunk, 0)
carve (p ∷ ps) chunk = elim (split_first p chunk) [
  | none ↦ (chunk, 0)
  | some (before, after) ↦ (before ++ (carve ps after).0, suc (carve ps after).1)
]

module _ (p : List ℕ) (ps : List (List ℕ)) (b : ℕ) (rest : List ℕ) where
  pub carve_skip :
      starts_with p (b ∷ rest) ≡ false
      → carve (p ∷ ps) (b ∷ rest) ≡ (b ∷ (carve (p ∷ ps) rest).0, (carve (p ∷ ps) rest).1)
  unfolding carve split_first
  carve_skip h = elim (Option-cases (split_first p rest)) [
    | inl missing ↦ rw (h, carve, split_first) (rw (missing, carve) refl)
    | inr (parts, found) ↦ rw (h, carve, split_first) (rw (found, carve) refl)
  ]

  pub carve_match :
      starts_with p (b ∷ rest) ≡ true
      → carve (p ∷ ps) (b ∷ rest)
        ≡ ((carve ps (drop (length p) (b ∷ rest))).0, suc (carve ps (drop (length p) (b ∷ rest))).1)
  unfolding carve split_first
  carve_match h = rw (h, carve, split_first) refl

pub carve-nil : (ps : List (List ℕ)) → carve ps [] ≡ ([], 0)
unfolding carve split_first
carve-nil [] = refl
carve-nil (p ∷ ps) = refl

-- A prefix is no longer than the text, and its removal takes just its length.
pub length-drop_prefix :
    (p chunk : List ℕ)
    → starts_with p chunk ≡ true
    → length (drop (length p) chunk) + length p ≡ length chunk
length-drop_prefix [] chunk h = omega arith
length-drop_prefix (x ∷ p) [] h = ground arith
length-drop_prefix (x ∷ p) (b ∷ chunk) h = ground (arith, length-drop_prefix p chunk)
