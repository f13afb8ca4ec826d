-- ===== src/Mmu.antt =====
-- aarch64/mm/mmu.c: four-level translation tables with a granule of 4K. `State` has the table
-- entries' bits, `Walk` the step from one table to the next, `Pages` the operations on pages,
-- `Registers` the set-up of the translation registers, `Architecture` the processor's walk.
pub mod State
pub mod Walk
pub mod Pages
pub mod Entries
pub mod Tables
pub mod Roundtrip
pub mod Missing
pub mod Link
pub mod Fresh
pub mod Supply
pub mod Architecture
pub mod View
pub mod Processor
pub mod WrongRoot
pub mod Refinement
pub mod Reuse
pub mod History
pub mod Registers
pub mod Examples
