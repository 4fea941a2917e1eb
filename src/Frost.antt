-- ===== src/Frost.antt =====
-- internal/frost: the client of a FROST-Server, the writer on top of it, and the entity bodies.
pub mod Entities
pub mod Errors
pub mod IotId
pub mod Client
pub mod Lookup
pub mod Writer
pub mod Upsert
pub mod Duplicates
pub mod Collections
pub mod Capped
pub mod Mqtt
