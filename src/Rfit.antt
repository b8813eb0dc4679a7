-- ===== src/Rfit.antt =====
-- The RFIT model of include/RFIT and src/RFIT: functions (F), their instances (I), the threads that
-- run them (T) and the resources that they share (R).
pub mod Function
pub mod Task
pub mod Resource
pub mod World
pub mod System
