-- ===== src/Core.antt =====
-- exchange_core/include/exchange-core: the vocabulary that the services share.
pub mod Enums
pub mod Records
pub mod Messages
pub mod Instruments
pub mod Printing
