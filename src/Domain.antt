-- ===== src/Domain.antt =====
-- internal/domain: the rows and enumerations that the repositories share.
pub mod Gpu
pub mod Job
pub mod User
pub mod Rows
pub mod Training
pub mod Invite
pub mod Miner
