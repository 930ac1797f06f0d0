-- ===== src/Dict.antt =====
-- The incrementally rehashed dictionary of src/core/atm_dict.c.
pub mod Key
pub mod Table
pub mod Ops
pub mod Valid
pub mod Move
pub mod Drain
pub mod Round
pub mod Rehash
pub mod Update
pub mod Unlink
pub mod Delete
pub mod Stale
pub mod Clear
pub mod Fill
pub mod Queries
