-- ===== src/Prelude/Int.antt =====
-- Signed integers, for the int64 identifiers and HTTP values; `negsuc n` is -(n + 1).
use Prim.Native.Nat.{ℕ, suc, ◌*◌, ◌%◌, ◌^◌}
use mathlib.Core.Path.{◌≡◌, refl}
use mathlib.Core.Bool.{Bool, true, false}
use native.Mathlib.Omega.{arith}
use clappform_sensor_things.Prelude.Tests.{ltb, leb, ◌==◌}
use clappform_sensor_things.Prelude.{if◌then◌else◌, ◌-◌}

pub data ℤ : Type 0 where
  pos : ℕ → ℤ
  negsuc : ℕ → ℤ

abbrev pub ltz : ℤ → ℤ → Bool
ltz (pos a) (pos b) = ltb a b
ltz (pos a) (negsuc b) = false
ltz (negsuc a) (pos b) = true
ltz (negsuc a) (negsuc b) = ltb b a

abbrev pub lez : ℤ → ℤ → Bool
lez (pos a) (pos b) = leb a b
lez (pos a) (negsuc b) = false
lez (negsuc a) (pos b) = true
lez (negsuc a) (negsuc b) = leb b a

abbrev pub eqz : ℤ → ℤ → Bool
eqz (pos a) (pos b) = a == b
eqz (pos a) (negsuc b) = false
eqz (negsuc a) (pos b) = false
eqz (negsuc a) (negsuc b) = a == b

pub lez_refl : (a : ℤ) → lez a a ≡ true
lez_refl (pos a) = ground arith
lez_refl (negsuc a) = ground arith

pub lez_trans : (a b c : ℤ) → lez a b ≡ true → lez b c ≡ true → lez a c ≡ true
lez_trans (pos a) (pos b) (pos c) h k = ground arith
lez_trans (pos a) (pos b) (negsuc c) h k = ground arith
lez_trans (pos a) (negsuc b) c h k = ground arith
lez_trans (negsuc a) (pos b) (pos c) h k = refl
lez_trans (negsuc a) (pos b) (negsuc c) h k = ground arith
lez_trans (negsuc a) (negsuc b) (pos c) h k = refl
lez_trans (negsuc a) (negsuc b) (negsuc c) h k = ground arith

pub ltz→lez : (a b : ℤ) → ltz a b ≡ true → lez a b ≡ true
ltz→lez (pos a) (pos b) h = ground arith
ltz→lez (pos a) (negsuc b) h = ground arith
ltz→lez (negsuc a) (pos b) h = refl
ltz→lez (negsuc a) (negsuc b) h = ground arith

pub ltz_false→lez : (a b : ℤ) → ltz a b ≡ false → lez b a ≡ true
ltz_false→lez (pos a) (pos b) h = ground arith
ltz_false→lez (pos a) (negsuc b) h = refl
ltz_false→lez (negsuc a) (pos b) h = ground arith
ltz_false→lez (negsuc a) (negsuc b) h = ground arith

-- a - b, as an integer.
abbrev pub sub_ℕ : ℕ → ℕ → ℤ
sub_ℕ a b = if leb b a then pos (a - b) else negsuc (b - a - 1)

-- int64 arithmetic: the value of n modulo 2^64 in two's complement, and the product of an int64 and a
-- constant.
unfoldable pub wrap_int64 : ℕ → ℤ
wrap_int64 n = let m = n % 2 ^ 64 in if ltb m (2 ^ 63) then pos m else negsuc (2 ^ 64 - 1 - m)

unfoldable pub times_int64 : ℤ → ℕ → ℤ
unfolding wrap_int64
times_int64 (pos n) k = wrap_int64 (n * k)
times_int64 (negsuc n) k = wrap_int64 (2 ^ 64 - (suc n * k) % 2 ^ 64)
