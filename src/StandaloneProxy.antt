-- ===== src/StandaloneProxy.antt =====
-- standaloneproxy/proxy.go: the processor that hands two methods over to the refiner.
pub mod Client
pub mod Framing
pub mod Calls
pub mod Hook
pub mod Opening
mod Tests
