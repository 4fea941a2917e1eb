-- ===== src/Witnesses/Laws.antt =====
-- The laws of the collaborators, at the world of the witnesses.
use clappform_sensor_things.State.Postgres.Progress.{
  observation_exists, record_observation_write, get_poll_cursor,
}
use clappform_sensor_things.Prelude.{
  false, none, Bool, String, arith, some, true, ℕ, ◌≡◌, refl, ap, ◌∙◌,
}
use clappform_sensor_things.Ingest.Write.{is_already_exists}
use clappform_sensor_things.Frost.Entities.{Entity, Payload}
use clappform_sensor_things.Failure.{Error, ok}
use clappform_sensor_things.Frost.Client.{
  PostPath, find_by_name, found_ids, get_ids, get_status, post, post_status,
}
use clappform_sensor_things.Frost.Writer.{
  get_or_create, post_observation, resolve_uncached, created, looked_up,
}
use clappform_sensor_things.State.Postgres.Tables.{Db}
use clappform_sensor_things.Canonical.{Float64, Time}
use clappform_sensor_things.Witnesses.World.{target, core, poller, vendor_sulo}
use clappform_sensor_things.Prelude.Int.{ℤ, pos}
use clappform_sensor_things.State.Postgres.Log.{
  is_same_key, logged, logged-record_observation_write,
}
use clappform_sensor_things.Ingest.Once.{LogLaws, PostKeeps}
use clappform_sensor_things.Frost.IotId.{parse_iot_id}
use clappform_sensor_things.State.Postgres.Service.{postgres_store}
use clappform_sensor_things.Scheduler.Cursor.{CursorLaws, SameCursors}
use clappform_sensor_things.State.Postgres.Steady.{
  cursor_at, record_observation_write-steady, set_last_polled_at-steady,
  set_sta_datastream_id-steady,
}
use clappform_sensor_things.State.Postgres.Entities.{affected, set_sta_thing_id}
use clappform_sensor_things.Ingest.Frame.{Frame, TargetKeeps}
use clappform_sensor_things.Ingest.{ResolvedTarget}
use clappform_sensor_things.State.Postgres.Cursors.{
  get_poll_cursor-eq-stored, stored_cursor-advance_poll_cursor,
}

post_observation-idle :
    (ds : ℤ) (t : Time) (body : Payload) (db : Db) → (post_observation target ds t body db).1 ≡ db
unfolding post_observation clappform_sensor_things.Frost.Client.observation_exists post get_ids
    get_status post_status parse_iot_id
post_observation-idle ds t body db = ground arith

get_or_create-idle :
    (e : Entity) (name : String) (path : PostPath) (body : Db → Payload) (db : Db)
    → (get_or_create target e name path body db).1 ≡ db
unfolding get_or_create resolve_uncached looked_up created find_by_name found_ids post get_ids
    get_status post_status parse_iot_id
get_or_create-idle e name path body db = ground arith

observation_exists-tells :
    (ds : ℕ) (t : Time) (db : Db) (b : Bool)
    → (observation_exists ds t db).0 ≡ ok b
    → logged db ds t ≡ b
unfolding observation_exists
observation_exists-tells ds t db b h = ground arith

observation_exists-keeps :
    (ds : ℕ) (t : Time) (db : Db) (j : ℕ) (u : Time)
    → logged (observation_exists ds t db).1 j u ≡ logged db j u
unfolding observation_exists
observation_exists-keeps ds t db j u = ground arith

record_observation_write-raced :
    (ds : ℕ) (t : Time) (x : Float64) (raw : String) (sta : ℤ) (db : Db) (e : Error)
    → (record_observation_write ds t x raw sta db).0 ≡ some e
    → is_already_exists e ≡ true
    → logged db ds t ≡ true
unfolding record_observation_write is_already_exists
record_observation_write-raced ds t x raw sta db e h k = ground arith

record_observation_write-others :
    (ds : ℕ) (t : Time) (x : Float64) (raw : String) (sta : ℤ) (db : Db) (j : ℕ) (u : Time)
    → is_same_key ds t j u ≡ false
    → logged (record_observation_write ds t x raw sta db).1 j u ≡ logged db j u
record_observation_write-others ds t x raw sta db j u h =
    ground (arith, h, logged-record_observation_write ds j t u x raw sta db)

record_observation_write-keeps :
    (ds : ℕ) (t : Time) (x : Float64) (raw : String) (sta : ℤ) (db : Db) (j : ℕ) (u : Time)
    → logged db j u ≡ true
    → logged (record_observation_write ds t x raw sta db).1 j u ≡ true
record_observation_write-keeps ds t x raw sta db j u h =
    ground (arith, h, logged-record_observation_write ds j t u x raw sta db)

record_observation_write-adds :
    (ds : ℕ) (t : Time) (x : Float64) (raw : String) (sta : ℤ) (db : Db)
    → (record_observation_write ds t x raw sta db).0 ≡ none
    → logged (record_observation_write ds t x raw sta db).1 ds t ≡ true
unfolding record_observation_write
record_observation_write-adds ds t x raw sta db h = ground arith

pub log_laws : LogLaws core logged
unfolding core postgres_store
log_laws = record {
  emit_keeps = λ m db j u. refl;
  exists_keeps = observation_exists-keeps;
  exists_tells = observation_exists-tells;
  record_others = record_observation_write-others;
  record_keeps = record_observation_write-keeps;
  record_adds = record_observation_write-adds;
  record_raced = record_observation_write-raced;
}

abbrev pub resolved : ResolvedTarget Db
resolved = record { writer = target; thing_id = pos 7; ds_id = pos 7; foi_id = pos 7 }

pub resolved-PostKeeps : PostKeeps logged resolved
resolved-PostKeeps t body db j u =
    ap (λ (x : Db). logged x j u) (post_observation-idle (pos 7) t body db)

observation_exists-steady :
    (ds : ℕ) (t : Time) (db : Db) → SameCursors cursor_at db (observation_exists ds t db).1
unfolding observation_exists
observation_exists-steady ds t db j = ground arith

set_sta_thing_id-steady :
    (id : ℕ) (sta : ℤ) (db : Db) → SameCursors cursor_at db (set_sta_thing_id id sta db).1
unfolding set_sta_thing_id affected
set_sta_thing_id-steady id sta db j = ground arith

target-TargetKeeps : TargetKeeps (SameCursors cursor_at) target
target-TargetKeeps = record {
  resolves = λ e name path body db j.
      ap (λ (x : Db). cursor_at x j) (get_or_create-idle e name path body db);
  posts = λ ds t body db j. ap (λ (x : Db). cursor_at x j) (post_observation-idle ds t body db);
}

pub core-Frame : Frame core (SameCursors cursor_at)
unfolding core postgres_store
core-Frame = record {
  stays = λ w j. refl;
  chain = λ h k j. k j ∙ h j;
  emits = λ m w j. refl;
  reads_clock = λ w j. refl;
  targets = (target-TargetKeeps, tt);
  sets_thing = set_sta_thing_id-steady;
  sets_datastream = set_sta_datastream_id-steady;
  exists = observation_exists-steady;
  records = record_observation_write-steady;
}

get_poll_cursor-steady : (ds : ℕ) (db : Db) → SameCursors cursor_at db (get_poll_cursor ds db).1
unfolding get_poll_cursor
get_poll_cursor-steady ds db j = ground arith

pub cursor_laws : CursorLaws poller vendor_sulo cursor_at
unfolding poller postgres_store
cursor_laws = record {
  frame = core-Frame;
  emits = λ m w j. refl;
  reads_clock = λ w j. refl;
  fetches = λ native op since limit w j. refl;
  gets = get_poll_cursor-steady;
  tells = λ ds w h. (get_poll_cursor-eq-stored ds w h).0;
  sets_polled = set_last_polled_at-steady;
  advances = λ ds t w j. stored_cursor-advance_poll_cursor ds j t w;
}
