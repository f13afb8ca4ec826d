-- ===== src/Amd64.antt =====
-- amd64/: the segment descriptors, the interrupt gates, and the exception handlers.
pub mod Gdt
pub mod Idt
pub mod Exceptions
pub mod Gates
pub mod Delivery
mod Examples
