-- ===== src/Persistence.antt =====
-- scheduler/internal/persistence: the stores over Redis.
pub mod Context
pub mod Redis
pub mod Store
pub mod PoolStore
pub mod Claim
pub mod Idempotence
pub mod Setup
pub mod Separate
