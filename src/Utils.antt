-- ===== src/Utils.antt =====
-- include/utils and src/utils.
pub mod Queue
pub mod Timing
pub mod Config
pub mod Logging
