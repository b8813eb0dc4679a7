-- ===== src/Faasm.antt =====
-- faasm: the storage that the functions see as their file system.
pub mod Bits
pub mod Host
pub mod SharedFiles
pub mod FileDescriptor
pub mod FileSystem
