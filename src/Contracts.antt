-- ===== src/Contracts.antt =====
-- libs/sentinel/contracts: the enumerations and value objects that all planes share.
pub mod Enums
pub mod Values
pub mod Events
