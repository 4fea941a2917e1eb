-- ===== src/Oms.antt =====
-- internal/oms/mapper.go: entity names and entity bodies of the canonical types. The texts of a time
-- are parameters: `date` is Format("2006-01-02"), `rfc3339` is Format(time.RFC3339), both in UTC.
pub mod Names
pub mod Bodies
pub mod Identity
