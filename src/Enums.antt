-- ===== src/Enums.antt =====
-- components/cn105/cn105_types.h: the enumerations of the protocol and their tables.
pub mod Kinds
pub mod Table
pub mod Tables
pub mod Wrappers
pub mod RoundTrip
