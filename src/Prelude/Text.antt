-- ===== src/Prelude/Text.antt =====
-- Text that is put together from parts, as fmt.Sprintf does with %s, and upper-casing of ASCII.
use Prim.Native.Nat.{ℕ, ◌-◌, compare, Ordering}
use Prim.Native.Char.{Char, char, code, IsScalar}
use Prim.Native.String.{String, ◌++◌}
use mathlib.Core.Path.{◌≡◌, refl}
use mathlib.Core.Bool.{Bool, true, ◌&&◌}
use mathlib.Core.Logic.{inl, inr}
use mathlib.Core.List.{List, [], ◌∷◌}
use mathlib.Core.Option.{Option, none, some}
use native.Mathlib.Omega.{arith}
use text.Mathlib.Text.{◌==◌}
use text.Mathlib.TextEquality.{eq_iff}
use clappform_sensor_things.Prelude.Tests.{leb, Bool-cases, if◌then◌else◌}

abbrev pub sprint : List String → String
sprint [] = ""
sprint (s ∷ []) = s
sprint (s ∷ r) = s ++ sprint r

abbrev is_lower : Char → Bool
is_lower c = leb b'a' (code c) && leb (code c) b'z'

below_surrogates : (n : ℕ) → compare n 55296 ≡ Ordering.lt → IsScalar n
below_surrogates n e = rw e tt

upper_scalar : (c : Char) → is_lower c ≡ true → IsScalar (code c - 32)
upper_scalar c h = below_surrogates (code c - 32) (ground arith)

-- An ASCII letter in upper case.
unfoldable pub upper : Char → Char
unfolding upper_scalar below_surrogates
upper c = elim (Bool-cases (is_lower c)) [
  | inl h ↦ char (code c - 32) (upper_scalar c h)
  | inr h ↦ c
]

-- Maps with text keys, as association lists: m[k] = v, and v, ok := m[k].
module _ {ℓ} {V : Type ℓ} where
  unfoldable pub put : String → V → List (String × V) → List (String × V)
  put k v [] = (k, v) ∷ []
  put k v ((j, w) ∷ m) = if j == k then (k, v) ∷ m else (j, w) ∷ put k v m

  unfoldable pub look : String → List (String × V) → Option V
  look k [] = none
  look k ((j, v) ∷ m) = if j == k then some v else look k m

  pub look-put :
      (k j : String) (v : V) (m : List (String × V))
      → look j (put k v m) ≡ (if k == j then some v else look j m)
  unfolding look put
  look-put k j v [] = refl
  look-put k j v ((i, w) ∷ m) = ground (arith, eq_iff k j, eq_iff i k, eq_iff i j, look-put k j v m)
