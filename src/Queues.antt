-- ===== src/Queues.antt =====
-- The queues in shared memory of exchange_core/include/exchange-core.
pub mod Blocks
pub mod Spsc
pub mod Spmc
pub mod Shm
