-- ===== src/Middleware.antt =====
-- The middleware package: Middleware.Filter is middleware/filterIP.go, Middleware.Proxy
-- middleware/proxy.go.
pub mod Filter
pub mod Proxy
mod Tests
