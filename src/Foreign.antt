-- ===== src/Foreign.antt =====
-- What the program calls and does not implement, as interfaces: operations and documented laws.
pub mod Mercury
pub mod LibUuid
pub mod UtHash
pub mod JsonC
pub mod Margo
pub mod Names
