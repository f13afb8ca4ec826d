-- ===== src/Pmm.antt =====
-- mm/pmm.c: the allocator of page frames. It stands in children: `State` has its variables and the
-- memory map, `Size` the sizing of the bitmap, `Setup` its construction at boot, `Frames` the
-- search for free frames and their release.
pub mod State
pub mod Size
pub mod Setup
pub mod Frames
pub mod FirstFit
pub mod Release
pub mod Same
pub mod Cover
pub mod Marks
pub mod Init
pub mod Highest
pub mod Stable
pub mod Safety
pub mod Reach
pub mod Examples
