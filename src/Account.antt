-- ===== src/Account.antt =====
-- The account package: the transaction processor, which sends signed Ethereum transactions to Near
-- in the order of their nonces, and the read calls.
pub mod Status
pub mod Value
pub mod Failure
pub mod Queue
pub mod Mapper
pub mod Request
pub mod Nonce
pub mod Processor
pub mod Reads
pub mod Opening
pub mod Examples
mod Tests
