-- ===== src/Prelude/Utf8.antt =====
-- `String::from_utf8_lossy` of Rust's standard library: the bytes of the string that it makes. A byte
-- sequence that can still become a character is kept back; where it cannot, the replacement
-- character U+FFFD stands for what was kept back.
use Prim.Native.Nat.{ℕ, zero, suc, ◌≤◌}
use mathlib.Core.Path.{◌≡◌, refl, ap, sym, ◌∙◌}
use mathlib.Core.Logic.{inl, inr}
use mathlib.Core.Bool.{Bool, ◌&&◌}
use mathlib.Core.List.{List, [], ◌∷◌, ◌++◌}
use native.Mathlib.Omega.{arith}
use codetracer_python_record.Prelude.Tests.{ltb, leb, ◌==◌, if◌then◌else◌, Bool-cases}
use codetracer_python_record.Prelude.Lists.{keep, keep-append}

-- Inside a character: the bytes kept back, the range of the next byte, and how many follow it.
pub data Utf8State : Type 0 where
  start : Utf8State
  inside : List ℕ → ℕ → ℕ → ℕ → Utf8State

abbrev pub replacement : List ℕ
replacement = 239 ∷ 191 ∷ 189 ∷ []

-- A first byte: what is written at once, and the state behind it.
unfoldable pub first_byte : ℕ → List ℕ × Utf8State
first_byte b =
    if ltb b 128
    then (b ∷ [], start)
    else if ltb b 194
    then (replacement, start)
    else if ltb b 224
    then ([], inside (b ∷ []) 128 191 0)
    else if b == 224
    then ([], inside (b ∷ []) 160 191 1)
    else if b == 237
    then ([], inside (b ∷ []) 128 159 1)
    else if ltb b 240
    then ([], inside (b ∷ []) 128 191 1)
    else if b == 240
    then ([], inside (b ∷ []) 144 191 2)
    else if ltb b 244
    then ([], inside (b ∷ []) 128 191 2)
    else if b == 244
    then ([], inside (b ∷ []) 128 143 2)
    else (replacement, start)

unfoldable pub next_byte : Utf8State → ℕ → List ℕ × Utf8State
unfolding first_byte
next_byte start b = first_byte b
next_byte (inside kept low high zero) b =
    if leb low b && leb b high
    then (kept ++ b ∷ [], start)
    else (replacement ++ (first_byte b).0, (first_byte b).1)
next_byte (inside kept low high (suc more)) b =
    if leb low b && leb b high
    then ([], inside (kept ++ b ∷ []) 128 191 more)
    else (replacement ++ (first_byte b).0, (first_byte b).1)

abbrev pub at_end : Utf8State → List ℕ
at_end start = []
at_end (inside kept low high more) = replacement

unfoldable pub lossy_from : Utf8State → List ℕ → List ℕ
unfolding next_byte
lossy_from s [] = at_end s
lossy_from s (b ∷ bytes) = let (out, s') = next_byte s b in out ++ lossy_from s' bytes

unfoldable pub from_utf8_lossy : List ℕ → List ℕ
unfolding lossy_from
from_utf8_lossy bytes = lossy_from start bytes

abbrev pub is_ascii : ℕ → Bool
is_ascii b = ltb b 128

-- What is kept back holds no ASCII character, and none comes next.
abbrev IsHigh : Utf8State → Type 0
IsHigh start = Unit
IsHigh (inside kept low high more) = (keep is_ascii kept ≡ []) × (128 ≤ low)

abbrev Keeps : ℕ → List ℕ × Utf8State → Type 0
Keeps b (out, s) = (keep is_ascii out ≡ keep is_ascii (b ∷ [])) × IsHigh s

first_byte-Keeps : (b : ℕ) → Keeps b (first_byte b)
unfolding first_byte
first_byte-Keeps b = ground arith

kept_high :
    (kept : List ℕ) (b : ℕ)
    → keep is_ascii kept ≡ []
    → 128 ≤ b
    → (keep is_ascii (kept ++ b ∷ []) ≡ []) × (keep is_ascii (b ∷ []) ≡ [])
kept_high kept b h k = ground (arith, keep-append is_ascii kept (b ∷ []))

next_byte-Keeps : (s : Utf8State) (b : ℕ) → IsHigh s → Keeps b (next_byte s b)
unfolding next_byte
next_byte-Keeps start b h = first_byte-Keeps b
next_byte-Keeps (inside kept low high zero) b h = elim (Bool-cases (leb low b && leb b high)) [
  | inl e ↦ let (whole, one) = kept_high kept b h.0 (ground arith) in rw e (whole ∙ sym one, tt)
  | inr e ↦ rw e (first_byte-Keeps b)
]
next_byte-Keeps (inside kept low high (suc more)) b h =
    elim (Bool-cases (leb low b && leb b high)) [
      | inl e ↦
          let (whole, one) = kept_high kept b h.0 (ground arith) in
          rw e (sym one, (whole, omega arith))
      | inr e ↦ rw e (first_byte-Keeps b)
    ]

lossy_from_ascii :
    (s : Utf8State) (bytes : List ℕ)
    → IsHigh s
    → keep is_ascii (lossy_from s bytes) ≡ keep is_ascii bytes
unfolding lossy_from
lossy_from_ascii start [] h = refl
lossy_from_ascii (inside kept low high more) [] h = refl
lossy_from_ascii s (b ∷ bytes) h =
    let (kept, next) = next_byte-Keeps s b h in
    keep-append is_ascii (next_byte s b).0 (lossy_from (next_byte s b).1 bytes)
    ∙ ap (λ l. l ++ keep is_ascii (lossy_from (next_byte s b).1 bytes)) kept
    ∙ ap (λ l. keep is_ascii (b ∷ []) ++ l) (lossy_from_ascii (next_byte s b).1 bytes next)
    ∙ sym (keep-append is_ascii (b ∷ []) bytes)

-- The ASCII characters are those of the bytes, whatever stands between them.
pub from_utf8_lossy_ascii :
    (bytes : List ℕ) → keep is_ascii (from_utf8_lossy bytes) ≡ keep is_ascii bytes
unfolding from_utf8_lossy
from_utf8_lossy_ascii bytes = lossy_from_ascii start bytes tt
