-- ===== src/Lib.antt =====
-- VegaOS: the kernel under sys/kernel, modelled from its C sources.
--
-- The kernel boots from Limine, whose answers (memory map, framebuffer, offset of the higher
-- half) it reads through pointers that may be NULL. `_start` sets up the frame allocator, then
-- the processor: on amd64 the descriptor tables and the exception handlers, on aarch64 the
-- translation registers. Everything reports through printk, which draws on the framebuffer; the
-- page tables of aarch64 take their frames from the allocator and clear them with memset.
--
-- The files and the code that they model (paths from sys/kernel):
--   Posix                   posix/memset.c, posix/memcpy.c
--   Bitmap                  utils/bitmap.c
--   Math                    include/sys/math.h (ALIGN_UP, ALIGN_DOWN)
--   Log                     include/sys/printk.h (kinfo, kwarn): a call of printk or panic as a value
--   Pmm                     mm/pmm.c. State has its variables, Size the size of the bitmap, Setup
--                           init_bitmap and pmm_init, Frames pmm_alloc and pmm_free; Cover, Marks,
--                           Init, Highest, Stable, FirstFit, Release, Same, Safety and Reach
--                           (histories of the allocator) have the proofs.
--   Amd64                   amd64/gdt.c, amd64/idt.c, amd64/exceptions.c. Delivery describes how the
--                           processor goes from a vector to an address, and Gates and it what
--                           becomes of that with the kernel's tables.
--   Mmu                     aarch64/mm/mmu.c. State, Walk (next_level), Pages (translate, map and
--                           unmap) and Registers (get_pagemap, mmu_init) have the code; Entries,
--                           Tables, Roundtrip, Missing, History (sequences of operations), Link,
--                           Fresh, Reuse and Supply (walks that allocate) have the proofs.
--                           Architecture describes the walk that the processor makes, after Arm's
--                           manual; View, Processor, Refinement and WrongRoot relate the tables
--                           to it.
--   Fb                      dev/video/fb.c; Laws and Clear have the proofs.
--   Pty                     pty/core.c, with pty/font.c in Font; Glyphs and Text have the proofs for
--                           glyphs whose coordinates do not wrap, Pixels and Total those for any.
--   Printk                  core/printk.c. Digits, Numbers, Decimal, Texts and Readback are about its
--                           numbers; Render describes what a format prints, without buffers or a
--                           cursor, and Refine, Plans, Copy, Total, Ends and Plain have the proofs.
--   Pal                     include/sys/pal.h: masking interrupts and halting, which panic uses as an
--                           interface; Amd64 and Aarch64 fill it with the instructions of the two
--                           processors.
--   Aarch64                 aarch64/pal.s in Daif, aarch64/exceptions.s in Exceptions and Vectors
--   Start                   core/init.c and core/panic.c. Lines, Levels, Board and Console run the
--                           log of a start on the console; Boot joins them with the allocator's
--                           histories; Panic, Blind, Handlers (amd64) and Vectors (aarch64) are about
--                           the last lines, Faults about an exception of amd64, Exceptions about one
--                           of aarch64 and Paging about mapping on aarch64, each after a start.
--   Base, Memory, Outcome, Word64
--                           numbers and bits, bytes of memory, how a run ends, 64-bit accesses.
-- The Examples of each part run the code on a small machine.
--
-- How C is read. Numbers are natural numbers, and each width wraps where it is written (u8, u32,
-- u64). Memory is a function from physical addresses to bytes, and the kernel's accesses go
-- through a translation of virtual addresses, a parameter, since the boot loader's page tables
-- are not the kernel's. A variable of a file is a field of a state that operations take and give
-- back. A NULL answer of the boot loader that is read through and an element behind an array are the
-- outcome `fault`; panic and a halt are outcomes too. The bitmap's pointer and the tables' are
-- addresses like any other, 0 included.
--
-- Loops with a counter recurse on the rounds that are left. The others have fuel and end in
-- `out_of_fuel` without it, and theorems show the fuel to be enough: alloc_loop has one round for
-- each bit of the bitmap and one to stop; unset_loop one for each frame of its entry and two more;
-- fb_clear one for each pixel of a row, and each row, and one to stop; hex_loop 17 and dec_loop 21
-- for 64-bit numbers of at most 16 and 20 digits; swap_loop 80, the size of its buffer. The
-- description of a number's text counts its digits with fuel for 16 and for 20 of them.
--
-- Code that is not the kernel's is a parameter: the boot loader's answers and page tables, the
-- addresses that the linker chooses, and what the instructions that mask interrupts and halt do to
-- the processor (a record of a state, operations and their laws). How a processor delivers an
-- exception and walks translation tables is described after the manuals, not from the source.
--
-- Not modelled: the instructions that load tables (a descriptor register is its operand, a system
-- register a field), the switch of the stack pointer in el1_sp0_sync, the effect of a cache or a
-- TLB, the kernel's endless loop, the build, and the boot loader. The log of the allocator and of
-- the start stands for their calls of printk, which Start runs on the console afterwards; `panicked`
-- stands for a call of panic.
pub mod Base
pub mod Memory
pub mod Posix
pub mod Bitmap
pub mod Log
pub mod Outcome
pub mod Math
pub mod Pmm
pub mod Amd64
pub mod Word64
pub mod Mmu
pub mod Fb
pub mod Pty
pub mod Printk
pub mod Pal
pub mod Aarch64
pub mod Start
