-- ===== src/Pmm/State.antt =====
-- The variables of mm/pmm.c, and the boot loader's memory map (include/sys/limine.h).
use vega_os.Base.{ℕ, Option, List}
use vega_os.Memory.{Mem, Translation}
use vega_os.Log.{Call}

abbrev pub usable : ℕ
usable = 0

pub record Entry : Type 0 where
  pub base : ℕ
  pub length : ℕ
  pub type : ℕ

-- What the kernel knows of its address space: how the boot loader's tables translate, and the
-- offset of its window on all of physical memory (VMM_HIGHER_HALF).
pub record Window : Type 0 where
  pub phys : Translation
  pub higher_half : ℕ

-- `mmap_resp` is `none` for NULL; its entries belong to the boot loader and are changed in place.
pub record Pmm : Type 0 where
  pub mmap_resp : Option (List Entry)
  pub bitmap : ℕ
  pub bitmap_start_bit : ℕ
  pub mem : Mem
  pub log : List Call
