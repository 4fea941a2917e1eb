-- ===== src/Prelude/Results.antt =====
-- Option and pairs: the small helpers that error paths need.
use mathlib.Core.Bool.{Bool, true, false}
use mathlib.Core.Option.{Option, none, some}
use mathlib.Core.Path.{◌≡◌, refl}

abbrev pub is_some {ℓ} : {A : Type ℓ} → Option A → Bool
is_some none = false
is_some (some a) = true

abbrev pub is_none {ℓ} : {A : Type ℓ} → Option A → Bool
is_none none = true
is_none (some a) = false

-- `v, ok := x; if !ok { fail }; return f(v)`
abbrev pub and_some {ℓ κ} : {A : Type ℓ} {B : Type κ} → Option A → (A → Option B) → Option B
and_some none f = none
and_some (some a) f = f a

-- A chain that ends with a result has one after its first step.
pub and_some-elim {ℓ κ μ} :
    {A : Type ℓ} {B : Type κ} (C : Type μ) (x : Option A) (f : A → Option B) {b : B}
    → and_some x f ≡ some b
    → ((a : A) → x ≡ some a → f a ≡ some b → C)
    → C
and_some-elim C none f h k = cc
and_some-elim C (some a) f h k = k a refl h
