-- ===== src/Reader/Files.antt =====
-- cmd/collaborall-reader/cursor.go: the cursor file. `marshal` and `unmarshal` are the JSON of a map of
-- cursors; a Files is what a directory holds.
use clappform_sensor_things.Prelude.{
  Bool, Option, String, [], false, if◌then◌else◌, none, some, str_eq, true, sprint, ◌∷◌, ◌≡◌, ◌≢◌,
  ◌⊎◌, arith, eq_iff, sym, ◌∙◌,
}
use package.text.Mathlib.TextLemmas.{append_cancel_left, append-nil, cons≢nil}
use clappform_sensor_things.Failure.{Error, Result, err, ok, text}
use clappform_sensor_things.Reader.{Cursors}

abbrev pub Files : Type 0
Files = String → Option String

-- os.ReadFile
pub data FileRead : Type 0 where
  file_missing file_unreadable : FileRead
  contents : String → FileRead

unmarshalled : Option Cursors → Result Cursors
unmarshalled none = err text
unmarshalled (some m) = ok m

unfoldable pub load_cursor_store : (String → Option Cursors) → FileRead → Result Cursors
unfolding unmarshalled
load_cursor_store unmarshal file_missing = ok []
load_cursor_store unmarshal file_unreadable = err text
load_cursor_store unmarshal (contents b) = if str_eq b "" then ok [] else unmarshalled (unmarshal b)

-- os.WriteFile: all of it, a first part and an error, or an error.
pub data WriteOutcome : Type 0 where
  written : WriteOutcome
  cut_short : String → WriteOutcome
  not_written : WriteOutcome

abbrev pub set_file : String → Option String → Files → Files
set_file path v fs p = if str_eq p path then v else fs p

abbrev pub temporary : String → String
temporary path = sprint (path ∷ ".tmp" ∷ [])

unfoldable pub write_file : WriteOutcome → String → String → Files → Option Error × Files
write_file written path b fs = (none, set_file path (some b) fs)
write_file (cut_short part) path b fs = (some text, set_file path (some part) fs)
write_file not_written path b fs = (some text, fs)

-- os.Rename, which fails or moves the file.
unfoldable pub rename : Bool → String → String → Files → Option Error × Files
rename false old new fs = (some text, fs)
rename true old new fs = (none, set_file old none (set_file new (fs old) fs))

renamed : Bool → String → Option Error × Files → Option Error × Files
unfolding rename
renamed moves path (some e, fs) = (some e, fs)
renamed moves path (none, fs) = rename moves (temporary path) path fs

-- The end of advance: the map as JSON, into the temporary file, and that over the cursor file.
unfoldable pub persisted :
    WriteOutcome → Bool → String → Option String → Files → Option Error × Files
unfolding write_file renamed
persisted write moves path none fs = (some text, fs)
persisted write moves path (some b) fs = renamed moves path (write_file write (temporary path) b fs)

temporary-other : (path : String) → temporary path ≢ path
temporary-other path e = cons≢nil (append_cancel_left path ".tmp" "" (e ∙ sym (append-nil path)))

-- A crash or an error at any point of a save leaves the cursor file as it was or whole: before the rename it
-- is as it was, whatever became of the temporary file, and after the save it holds the new JSON if there was
-- no error, and what it held if there was one. No other file but the temporary one is touched.
pub persisted_atomic :
    (write : WriteOutcome) (moves : Bool) (path b : String) (fs : Files)
    → ((write_file write (temporary path) b fs).1 path ≡ fs path)
      × (((persisted write moves path (some b) fs).0 ≡ none)
            × ((persisted write moves path (some b) fs).1 path ≡ some b)
          ⊎ ((persisted write moves path (some b) fs).0 ≡ some text)
            × ((persisted write moves path (some b) fs).1 path ≡ fs path))
      × ((p : String)
          → p ≢ path
          → p ≢ temporary path
          → (persisted write moves path (some b) fs).1 p ≡ fs p)
unfolding persisted write_file rename renamed
persisted_atomic write moves path b fs =
    let other = temporary-other path in
    (
      ground (arith, eq_iff path (temporary path), other, eq_iff (temporary path) path),
      ground (
        arith,
        eq_iff path (temporary path),
        other,
        eq_iff path path,
        eq_iff (temporary path) (temporary path),
      ),
      λ p h k. ground (arith, h, k, eq_iff p path, eq_iff p (temporary path)),
    )
