-- ===== src/Prelude/Strings.antt =====
-- What the sources use of Go's packages strings and strconv. Text is a list of code points; the case
-- of letters is that of ASCII.
use Prim.Native.Nat.{ℕ, ◌+◌, ◌-◌, ◌*◌, ◌^◌, compare, Ordering}
use Prim.Native.Char.{Char, char, code, IsScalar}
use Prim.Native.String.{String}
use mathlib.Core.Path.{◌≡◌}
use mathlib.Core.Bool.{Bool, true, false, ◌&&◌, ◌||◌}
use mathlib.Core.Logic.{inl, inr}
use mathlib.Core.List.{List, [], ◌∷◌}
use mathlib.Core.Option.{Option, none, some}
use native.Mathlib.Omega.{arith}
use text.Mathlib.Text.{◌==◌ as str_eq}
use clappform_sensor_things.Prelude.Tests.{leb, ◌==◌, Bool-cases, if◌then◌else◌}
use clappform_sensor_things.Prelude.Text.{upper}
use clappform_sensor_things.Prelude.Int.{ℤ, pos, sub_ℕ}

-- unicode.IsSpace
unfoldable pub is_space : Char → Bool
is_space c =
    let n = code c in
    (leb 9 n && leb n 13)
    || n == 32
    || n == 133
    || n == 160
    || n == 5760
    || (leb 8192 n && leb n 8202)
    || n == 8232
    || n == 8233
    || n == 8239
    || n == 8287
    || n == 12288

-- strings.TrimLeftFunc, TrimRightFunc and TrimFunc
unfoldable pub trim_left : (Char → Bool) → String → String
trim_left p String.[] = ""
trim_left p (String.◌∷◌ c s) = let rest = trim_left p s in if p c then rest else String.◌∷◌ c s

unfoldable pub trim_right : (Char → Bool) → String → String
trim_right p String.[] = ""
trim_right p (String.◌∷◌ c s) =
    let rest = trim_right p s in if p c && str_eq rest "" then "" else String.◌∷◌ c rest

unfoldable pub trim : (Char → Bool) → String → String
unfolding trim_left trim_right
trim p s = trim_right p (trim_left p s)

unfoldable pub trim_space : String → String
unfolding trim is_space
trim_space s = trim is_space s

unfoldable pub has_prefix : String → String → Bool
has_prefix s String.[] = true
has_prefix String.[] (String.◌∷◌ c p) = false
has_prefix (String.◌∷◌ d s) (String.◌∷◌ c p) =
    let rest = has_prefix s p in if code d == code c then rest else false

unfoldable pub has_suffix : String → String → Bool
has_suffix String.[] p = str_eq "" p
has_suffix (String.◌∷◌ c s) p = str_eq (String.◌∷◌ c s) p || has_suffix s p

-- strings.TrimPrefix
unfoldable pub trim_prefix : String → String → String
trim_prefix s p = if has_prefix s p then dropped s p else s
  where
    dropped : String → String → String
    dropped s String.[] = s
    dropped String.[] (String.◌∷◌ c p) = ""
    dropped (String.◌∷◌ d s) (String.◌∷◌ c p) = dropped s p

-- strings.Cut at one character: what stands before it and after it, if it is there.
unfoldable pub cut : ℕ → String → Option (String × String)
cut c String.[] = none
cut c (String.◌∷◌ x s) =
    let rest : Option (String × String) = elim (cut c s) [
      | none ↦ none
      | some (before, after) ↦ some (String.◌∷◌ x before, after)
    ] in
    if code x == c then some ("", s) else rest

-- strings.Split at one character; never empty.
unfoldable pub split : ℕ → String → List String
split c String.[] = "" ∷ []
split c (String.◌∷◌ x s) = if code x == c then "" ∷ split c s else on_first (split c s)
  where
    on_first : List String → List String
    on_first [] = []
    on_first (p ∷ ps) = String.◌∷◌ x p ∷ ps

-- strings.ToUpper and ToLower
unfoldable pub to_upper : String → String
unfolding upper
to_upper String.[] = ""
to_upper (String.◌∷◌ c s) = String.◌∷◌ (upper c) (to_upper s)

is_capital : Char → Bool
is_capital c = leb b'A' (code c) && leb (code c) b'Z'

below_surrogates : (n : ℕ) → compare n 55296 ≡ Ordering.lt → IsScalar n
below_surrogates n e = rw e tt

lower_scalar : (c : Char) → is_capital c ≡ true → IsScalar (code c + 32)
unfolding is_capital
lower_scalar c h = below_surrogates (code c + 32) (ground arith)

unfoldable pub lower : Char → Char
unfolding is_capital lower_scalar below_surrogates
lower c = elim (Bool-cases (is_capital c)) [
  | inl h ↦ char (code c + 32) (lower_scalar c h)
  | inr h ↦ c
]

unfoldable pub to_lower : String → String
unfolding lower
to_lower String.[] = ""
to_lower (String.◌∷◌ c s) = String.◌∷◌ (lower c) (to_lower s)

is_digit : Char → Bool
is_digit x = leb b'0' (code x) && leb (code x) b'9'

-- Digits only, to the end.
digits : ℕ → String → Option ℕ
unfolding is_digit
digits n String.[] = some n
digits n (String.◌∷◌ x s) =
    let more = digits (n * 10 + (code x - b'0')) s in if is_digit x then more else none

number : String → Option ℕ
unfolding digits
number String.[] = none
number (String.◌∷◌ x s) = digits 0 (String.◌∷◌ x s)

at_most : ℕ → (ℕ → ℤ) → Option ℕ → Option ℤ
at_most max f none = none
at_most max f (some n) = if leb n max then some (f n) else none

-- strconv.Atoi, and ParseInt with base 10 and 64 bits
unfoldable pub atoi : String → Option ℤ
unfolding number at_most
atoi String.[] = none
atoi (String.◌∷◌ x s) =
    if code x == b'-'
    then at_most (2 ^ 63) (sub_ℕ 0) (number s)
    else if code x == b'+'
    then at_most (2 ^ 63 - 1) pos (number s)
    else at_most (2 ^ 63 - 1) pos (number (String.◌∷◌ x s))
