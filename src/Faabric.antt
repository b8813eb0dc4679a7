-- ===== src/Faabric.antt =====
-- faasm/faabric, the runtime that the functions share state and are scheduled through.
pub mod Bytes
pub mod Delta
pub mod Executor
pub mod Maps
pub mod Scheduler
pub mod Memory
pub mod State
pub mod TokenPool
