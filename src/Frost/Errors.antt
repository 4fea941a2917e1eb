-- ===== src/Frost/Errors.antt =====
-- internal/frost/errors.go: which errors of the client are hard. Both tests look at the error itself
-- (a type assertion) and never into what it wraps.
use clappform_sensor_things.Failure.{
  Error, conflict, duplicate, http_error, permanent, transient, wrapped,
}
use clappform_sensor_things.Canonical.{after}
use clappform_sensor_things.Prelude.{Bool, false, not, true}

unfoldable pub is_transient : Error → Bool
is_transient (http_error status e t) = t
is_transient _ = false

unfoldable pub is_permanent : Error → Bool
is_permanent (http_error status e t) = not t
is_permanent _ = false

-- errors.As(err, &dup) and errors.As(err, &ce), which do look into what an error wraps
unfoldable pub as_duplicate : Error → Bool
as_duplicate (duplicate entity name count) = true
as_duplicate (wrapped e) = as_duplicate e
as_duplicate (transient e after) = as_duplicate e
as_duplicate (permanent e) = as_duplicate e
as_duplicate (http_error status e t) = as_duplicate e
as_duplicate _ = false

unfoldable pub as_conflict : Error → Bool
as_conflict (conflict status) = true
as_conflict (wrapped e) = as_conflict e
as_conflict (transient e after) = as_conflict e
as_conflict (permanent e) = as_conflict e
as_conflict (http_error status e t) = as_conflict e
as_conflict _ = false
