-- ===== src/Aarch64.antt =====
-- What aarch64 has in assembly: aarch64/pal.s in Daif, aarch64/exceptions.s in Exceptions.
pub mod Daif
pub mod Exceptions
pub mod Vectors
mod Examples
