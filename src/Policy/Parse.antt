-- ===== src/Policy/Parse.antt =====
-- The value parsers of codetracer-python-recorder/src/policy/model.rs and env.rs.
use codetracer_python_record.Prelude.{
  ℕ, Bool, true, false, not, ◌&&◌, ◌||◌, List, [], ◌∷◌, ◌==◌, if◌then◌else◌, is_empty, Text, codes,
  text_eq, one_of, trim, to_ascii_lowercase,
}
use codetracer_python_record.Policy.{OnRecorderError, abort, disable, default_io_capture}

-- What a bad value gives; all have the code `InvalidPolicyValue`, and name the offending text.
pub data PolicyError : Type 0 where
  bad_on_recorder_error bad_boolean bad_capture_io : Text → PolicyError
  capture_io_enables_nothing : PolicyError

pub data Result {ℓ} (A : Type ℓ) : Type ℓ where
  ok : A → Result A
  err : PolicyError → Result A

infixl 5 ◌>>=◌
abbrev pub ◌>>=◌ {ℓ κ} : {A : Type ℓ} {B : Type κ} → Result A → (A → Result B) → Result B
ok a >>= f = f a
err e >>= f = err e

abbrev pub normal : Text → Text
normal s = to_ascii_lowercase (trim s)

-- `OnRecorderError::from_str`.
unfoldable pub on_recorder_error_from_str : Text → Result OnRecorderError
on_recorder_error_from_str s =
    if text_eq (normal s) (codes "abort")
    then ok abort
    else if text_eq (normal s) (codes "disable")
    then ok disable
    else err (bad_on_recorder_error (normal s))

abbrev pub true_words : List Text
true_words = codes "1" ∷ codes "true" ∷ codes "t" ∷ codes "yes" ∷ codes "y" ∷ []

abbrev pub false_words : List Text
false_words = codes "0" ∷ codes "false" ∷ codes "f" ∷ codes "no" ∷ codes "n" ∷ []

unfoldable pub parse_bool : Text → Result Bool
parse_bool s =
    if one_of (normal s) true_words
    then ok true
    else if one_of (normal s) false_words
    then ok false
    else err (bad_boolean (normal s))

-- A separator of the capture list, `,` or `+`.
abbrev pub is_separator : ℕ → Bool
is_separator c = c == b',' || c == b'+'

-- A character goes to the front of the first part.
abbrev pub put_first : ℕ → List Text → List Text
put_first c [] = (c ∷ []) ∷ []
put_first c (p ∷ ps) = (c ∷ p) ∷ ps

-- `str::split` by the separators: never without a part.
unfoldable pub split_list : Text → List Text
split_list [] = [] ∷ []
split_list (c ∷ s) =
    let parts = split_list s in if is_separator c then [] ∷ parts else put_first c parts

-- The words that name the line proxies.
unfoldable pub is_proxy_word : Text → Bool
is_proxy_word t = one_of t (codes "proxies" ∷ codes "proxy" ∷ [])

-- The words that name the mirror of the file descriptors.
unfoldable pub is_fd_word : Text → Bool
is_fd_word t = one_of t (codes "fd" ∷ codes "mirror" ∷ codes "fallback" ∷ [])

-- The loop over the parts, with its two flags.
unfoldable pub parse_tokens : List Text → Bool → Bool → Result (Bool × Bool)
parse_tokens [] line_proxies fd_fallback = ok (line_proxies, fd_fallback)
parse_tokens (part ∷ parts) line_proxies fd_fallback =
    let token = trim part in
    let as_is = parse_tokens parts line_proxies fd_fallback in
    let with_proxies = parse_tokens parts true fd_fallback in
    let with_both = parse_tokens parts true true in
    if is_empty token
    then as_is
    else if is_proxy_word token
    then with_proxies
    else if is_fd_word token
    then with_both
    else err (bad_capture_io token)

unfoldable pub is_off_word : Text → Bool
is_off_word t = one_of t (
    codes "0"
    ∷ codes "off"
    ∷ codes "false"
    ∷ codes "disable"
    ∷ codes "disabled"
    ∷ codes "none"
    ∷ [])

unfoldable pub is_on_word : Text → Bool
is_on_word t =
    one_of t (codes "1" ∷ codes "on" ∷ codes "true" ∷ codes "enable" ∷ codes "enabled" ∷ [])

-- The check behind the loop.
abbrev pub require_some : Bool × Bool → Result (Bool × Bool)
require_some (line_proxies, fd_fallback) =
    if not line_proxies && not fd_fallback
    then err capture_io_enables_nothing
    else ok (line_proxies, fd_fallback)

unfoldable pub parse_capture_io : Text → Result (Bool × Bool)
parse_capture_io s =
    let lower = to_ascii_lowercase (trim s) in
    if is_empty (trim s)
    then ok (default_io_capture.line_proxies, default_io_capture.fd_fallback)
    else if is_off_word lower
    then ok (false, false)
    else if is_on_word lower
    then ok (true, false)
    else (parse_tokens (split_list lower) false false >>= require_some)
