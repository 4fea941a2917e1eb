-- ===== src/State/Postgres/Service.antt =====
-- pgstore.go as the interface `Store` of store.go: `var _ state.Store = (*PGStore)(nil)`.
use clappform_sensor_things.State.Postgres.Progress.{
  observation_exists, advance_poll_cursor, get_poll_cursor, purge_old_write_log,
  record_observation_write, set_last_polled_at,
}
use clappform_sensor_things.State.Postgres.Alerts.{
  get_staleness_snapshot, get_watchdog_state, ping, set_watchdog_state,
}
use clappform_sensor_things.State.Postgres.Entities.{
  get_datastream, get_thing, list_datastreams, set_sta_datastream_id, set_sta_thing_id,
  upsert_datastream, upsert_thing,
}
use clappform_sensor_things.State.Postgres.Tables.{Db}
use clappform_sensor_things.State.{Store}

unfoldable pub postgres_store : Store Db
postgres_store = record {
  upsert_thing = upsert_thing;
  set_sta_thing_id = set_sta_thing_id;
  get_thing = get_thing;
  upsert_datastream = upsert_datastream;
  set_sta_datastream_id = set_sta_datastream_id;
  get_datastream = get_datastream;
  list_datastreams = list_datastreams;
  get_poll_cursor = get_poll_cursor;
  advance_poll_cursor = advance_poll_cursor;
  set_last_polled_at = set_last_polled_at;
  observation_exists = observation_exists;
  record_observation_write = record_observation_write;
  get_staleness_snapshot = get_staleness_snapshot;
  get_watchdog_state = get_watchdog_state;
  set_watchdog_state = set_watchdog_state;
  purge_old_write_log = purge_old_write_log;
  ping = ping;
}
