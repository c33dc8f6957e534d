-- ===== src/Endpoint.antt =====
-- The endpoint package: Endpoint.EngineEth is endpoint/engineEth.go and Endpoint.EventsEth
-- endpoint/eventsEth.go.
pub mod EngineEth
pub mod EventsEth
