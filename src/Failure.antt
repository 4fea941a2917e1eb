-- ===== src/Failure.antt =====
-- The error values that cross the program's packages (internal/adapters/adapter.go,
-- internal/frost/errors.go, internal/state/store.go), and how calls return them. Message texts are
-- left out: `text` is an error that has nothing else, `wrapped e` is fmt.Errorf("...: %w", e).
use clappform_sensor_things.Prelude.{ℕ, String, Bool, Option}

pub data Error : Type 0 where
  text : Error
  wrapped : Error → Error
  transient : Error → ℕ → Error  -- adapters.TransientError, with RetryAfter
  permanent : Error → Error  -- adapters.PermanentError
  http_error : ℕ → Error → Bool → Error  -- frost.HTTPError: Status, Err, Transient
  conflict : ℕ → Error  -- frost.ConflictError
  duplicate : String → String → ℕ → Error  -- frost.DuplicateError
  not_found : Error  -- state.ErrNotFound
  already_exists : Error  -- state.ErrAlreadyExists

-- A call that returns (value, nil) or (zero, err).
pub data Result {ℓ} (A : Type ℓ) : Type ℓ where
  ok : A → Result A
  err : Error → Result A

-- A call that acts on the world: the databases, servers, caches and counters that it can reach.
abbrev pub Action : Type 0 → Type 0 → Type 0
Action W A = W → Result A × W

-- A call that returns only an error, nil or not.
abbrev pub Effect : Type 0 → Type 0
Effect W = W → Option Error × W

abbrev pub continue : {W A B : Type 0} → Result A × W → (A → Action W B) → Result B × W
continue (ok a, w) f = f a w
continue (err e, w) f = (err e, w)

-- `x, err := m; if err != nil { return err }; ...`
infixl 5 ◌>>=◌ ◌>>◌
abbrev pub ◌>>=◌ : {W A B : Type 0} → Action W A → (A → Action W B) → Action W B
◌>>=◌ m f w = continue (m w) f

abbrev pub ◌>>◌ : {W A B : Type 0} → Action W A → Action W B → Action W B
m >> k = m >>= λ _. k

abbrev pub pure : {W A : Type 0} → A → Action W A
pure a w = (ok a, w)

abbrev pub raise_error : {W A : Type 0} → Error → Action W A
raise_error e w = (err e, w)
