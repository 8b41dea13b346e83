-- ===== src/Service.antt =====
-- service: the ids of services, their discovery and registration in etcd, the event queue, and the start.
pub mod Discovery
pub mod Registration
pub mod EventQueue
pub mod ServiceId
pub mod Start
