-- ===== src/Model.antt =====
-- The database model: the enums and rows that more than one service reads or writes.
pub mod Enums
pub mod Tables
pub mod Proposals
