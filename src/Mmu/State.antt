-- ===== src/Mmu/State.antt =====
-- include/aarch64/mm/mmu.h and include/mm/vmm.h: the bits of a table entry, the flags of a mapping.
use vega_os.Base.{ℕ, ◌+◌, ◌^◌, List}
use vega_os.Pmm.State.{Pmm}

abbrev pub pte_p : ℕ
pte_p = 1

abbrev pub pte_tbl : ℕ
pte_tbl = 2

abbrev pub pte_u : ℕ
pte_u = 2 ^ 6

abbrev pub pte_ro : ℕ
pte_ro = 2 ^ 7

abbrev pub pte_af : ℕ
pte_af = 2 ^ 10

abbrev pub pte_nx : ℕ
pte_nx = 2 ^ 53 + 2 ^ 54

abbrev pub pte_addr_mask : ℕ
pte_addr_mask = 0x0000_ffff_ffff_f000

abbrev pub vmm_writable : ℕ
vmm_writable = 2

abbrev pub vmm_user : ℕ
vmm_user = 4

abbrev pub vmm_exec : ℕ
vmm_exec = 8

-- `ttbr` is an array of two.
pub record Pagemap : Type 0 where
  pub ttbr : ℕ → ℕ
  pub asid : ℕ

-- The frame allocator, whose memory holds the tables, and the page numbers that invalidate_page
-- has handed to the processor, the last one first.
pub record Mmu : Type 0 where
  pub pmm : Pmm
  pub invalidated : List ℕ
