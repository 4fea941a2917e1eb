-- ===== src/Adapters/Collaborall/Source/Interval.antt =====
-- internal/adapters/collaborall/source/mapping.go, parseSTATime, of an interval.
use Prim.Native.String.{◌++◌ as append}
use text.Mathlib.TextLemmas.{append-eq-nil_iff, cons-append, nil-append}
use Prim.Native.Char.{Char, code}
use clappform_sensor_things.Prelude.{
  Bool, String, ap, arith, false, none, not, refl, some, str_eq, sym, true, ◌∙◌, ◌&&◌, ◌==◌, ◌≡◌,
  ◌≢◌, eq_iff,
}
use clappform_sensor_things.Prelude.Strings.{cut, is_space, trim, trim_left, trim_right, trim_space}
use clappform_sensor_things.Adapters.Collaborall.Source.{Library, before_slash, parse_sta_time}

-- A text with no space and no slash.
abbrev pub is_plain : String → Bool
is_plain String.[] = true
is_plain (String.◌∷◌ c s) = not (is_space c) && not (code c == b'/') && is_plain s

trim_right_plain : (s : String) → is_plain s ≡ true → trim_right is_space s ≡ s
unfolding trim_right
trim_right_plain String.[] h = refl
trim_right_plain (String.◌∷◌ c s) h =
    let e : is_space c ≡ false = ground arith in
    let k : is_plain s ≡ true = ground arith in rw (e, trim_right_plain s k) refl

trim_left_plain :
    (c : Char) (s : String)
    → is_space c ≡ false
    → trim_left is_space (String.◌∷◌ c s) ≡ String.◌∷◌ c s
unfolding trim_left
trim_left_plain c s e = rw e refl

slash-append : (t : String) → append "/" t ≡ String.◌∷◌ "/" t
slash-append t = cons-append "/" "" t ∙ ap (λ (u : String). String.◌∷◌ "/" u) (nil-append t)

trim_right-slash :
    (t : String) → trim_right is_space (append "/" t) ≡ append "/" (trim_right is_space t)
unfolding trim_right is_space
trim_right-slash t = rw (slash-append t, slash-append (trim_right is_space t)) refl

trim_right-interval :
    (s t : String)
    → is_plain s ≡ true
    → trim_right is_space (append s (append "/" t)) ≡ append s (append "/" (trim_right is_space t))
unfolding trim_right
trim_right-interval String.[] t h =
    rw (nil-append (append "/" t), nil-append (append "/" (trim_right is_space t)))
      (trim_right-slash t)
trim_right-interval (String.◌∷◌ c s) t h =
    let e : is_space c ≡ false = ground arith in
    let k : is_plain s ≡ true = ground arith in
    rw (cons-append c s (append "/" t), e, trim_right-interval s t k)
      (sym (cons-append c s (append "/" (trim_right is_space t))))

cut-interval : (s t : String) → is_plain s ≡ true → cut b'/' (append s (append "/" t)) ≡ some (s, t)
unfolding cut
cut-interval String.[] t h = rw (nil-append (append "/" t), slash-append t) refl
cut-interval (String.◌∷◌ c s) t h =
    let e : code c == b'/' ≡ false = ground arith in
    let k : is_plain s ≡ true = ground arith in
    rw (cons-append c s (append "/" t), e, cut-interval s t k) refl

cut-plain : (s : String) → is_plain s ≡ true → cut b'/' s ≡ none
unfolding cut
cut-plain String.[] h = refl
cut-plain (String.◌∷◌ c s) h =
    let e : code c == b'/' ≡ false = ground arith in
    let k : is_plain s ≡ true = ground arith in rw (e, cut-plain s k) refl

trimmed-slash :
    (t : String)
    → trim_right is_space (trim_left is_space (append "/" t)) ≡ append "/" (trim_right is_space t)
unfolding trim_left trim_right is_space
trimmed-slash t = rw (slash-append t, slash-append (trim_right is_space t)) refl

trimmed-interval :
    (s t : String)
    → is_plain s ≡ true
    → trim_space (append s (append "/" t)) ≡ append s (append "/" (trim_right is_space t))
unfolding trim_space trim
trimmed-interval String.[] t h =
    rw (nil-append (append "/" t), nil-append (append "/" (trim_right is_space t)))
      (trimmed-slash t)
trimmed-interval (String.◌∷◌ c s) t h =
    let e : is_space c ≡ false = ground arith in
    rw (cons-append c s (append "/" t), trim_left_plain c (append s (append "/" t)) e)
      (ap (trim_right is_space) (sym (cons-append c s (append "/" t)))
        ∙ trim_right-interval (String.◌∷◌ c s) t h)

trimmed-plain : (s : String) → is_plain s ≡ true → trim_space s ≡ s
unfolding trim_space trim trim_left
trimmed-plain String.[] h = refl
trimmed-plain (String.◌∷◌ c s) h =
    let e : is_space c ≡ false = ground arith in
    rw (trim_left_plain c s e) (trim_right_plain (String.◌∷◌ c s) h)

interval-nonempty : (s t : String) → s ≢ "" → str_eq (append s (append "/" t)) "" ≡ false
interval-nonempty s t k =
    let whole : append s (append "/" t) ≢ "" = λ e. k ((append-eq-nil_iff {p = s}).0 e).0 in
    ground (arith, eq_iff (append s (append "/" t)) "", whole)

before_slash-interval :
    (s t : String) → is_plain s ≡ true → before_slash (append s (append "/" t)) ≡ s
unfolding before_slash
before_slash-interval s t h = rw (cut-interval s t h, before_slash) refl

before_slash-plain : (s : String) → is_plain s ≡ true → before_slash s ≡ s
unfolding before_slash
before_slash-plain s h = rw (cut-plain s h, before_slash) refl

-- Of an interval whose start is a text with no space and no slash, and is not empty, the time is that of
-- its start by itself, whatever the end is: the source's `start/end` is an instant for the copy.
pub parse_sta_time-interval :
    (x : Library) (s t : String)
    → is_plain s ≡ true
    → s ≢ ""
    → parse_sta_time x (append s (append "/" t)) ≡ parse_sta_time x s
unfolding parse_sta_time
parse_sta_time-interval x s t h k =
    let set : str_eq s "" ≡ false = ground (arith, eq_iff s "", k) in
    let end = trim_right is_space t in
    rw (trimmed-interval s t h, trimmed-plain s h)
      (rw (interval-nonempty s end k, set, before_slash-interval s end h, before_slash-plain s h)
        refl)
