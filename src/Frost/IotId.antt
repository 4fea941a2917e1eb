-- ===== src/Frost/IotId.antt =====
-- client.go, parseIotIDFromLocation: the number in the last parentheses of a Location header.
use clappform_sensor_things.Prelude.{
  Bool, Option, String, if◌then◌else◌, leb, none, some, ℕ, ◌&&◌, ◌*◌, ◌+◌, ◌-◌, ◌==◌, ◌^◌,
}
use clappform_sensor_things.Prelude.Int.{pos, sub_ℕ, ℤ}
use Prim.Native.Char.{code, Char}

-- The text after the last character c, where there is one.
after_last : ℕ → String → Option String
after_last c String.[] = none
after_last c (String.◌∷◌ x s) = elim (after_last c s) [
  | some r ↦ some r
  | none ↦ if code x == c then some s else none
]

-- The text before the last character c.
before_last : ℕ → String → Option String
before_last c String.[] = none
before_last c (String.◌∷◌ x s) = elim (before_last c s) [
  | some r ↦ some (String.◌∷◌ x r)
  | none ↦ if code x == c then some "" else none
]

is_digit : Char → Bool
is_digit x = leb b'0' (code x) && leb (code x) b'9'

-- The decimal digits at the front, after those that gave n; what follows them is left.
read_digits : ℕ → String → ℕ
unfolding is_digit
read_digits n String.[] = n
read_digits n (String.◌∷◌ x s) =
    let more = read_digits (n * 10 + (code x - b'0')) s in if is_digit x then more else n

-- At least one digit.
read_number : String → Option ℕ
unfolding is_digit read_digits
read_number String.[] = none
read_number (String.◌∷◌ x s) = if is_digit x then some (read_digits (code x - b'0') s) else none

max_int64 : ℕ
max_int64 = 2 ^ 63 - 1

-- A value out of int64 is an error.
positive_int64 : Option ℕ → Option ℤ
positive_int64 none = none
positive_int64 (some n) = if leb n max_int64 then some (pos n) else none

negative_int64 : Option ℕ → Option ℤ
negative_int64 none = none
negative_int64 (some n) = if leb n (max_int64 + 1) then some (sub_ℕ 0 n) else none

-- fmt.Sscanf(s, "%d", &id): leading blanks, a sign, digits
scan_int : String → Option ℤ
unfolding read_number positive_int64 negative_int64 max_int64
scan_int String.[] = none
scan_int (String.◌∷◌ x s) =
    let rest = scan_int s in
    if code x == b' '
    then rest
    else if code x == b'-'
    then negative_int64 (read_number s)
    else if code x == b'+'
    then positive_int64 (read_number s)
    else positive_int64 (read_number (String.◌∷◌ x s))

-- A ")" before the last "(" does not count.
unfoldable pub parse_iot_id : String → Option ℤ
unfolding after_last before_last scan_int
parse_iot_id loc = elim (after_last b'(' loc) [
  | none ↦ none
  | some inner ↦ elim (before_last b')' inner) [ none ↦ none | some s ↦ scan_int s ]
]
