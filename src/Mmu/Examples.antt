-- ===== src/Mmu/Examples.antt =====
-- Three tables in a window on memory, with one address mapped.
pub mod Growing
mod Sequence
pub mod Supplied
pub mod Seen
use vega_os.Base.{
  ℕ, ◌+◌, ◌-◌, ◌*◌, ◌%◌, ◌^◌, ◌<◌, ◌≡◌, ◌≢◌, refl, arith, ◌==◌, if◌then◌else◌, ltb, bit_and, ◌>>◌,
  inr, [], ◌∷◌, none, some, List, false,
}
use vega_os.Base.Bits.{bit_at}
use vega_os.Memory.{Mem}
use vega_os.Word64.{load64}
use vega_os.Outcome.{ok}
use vega_os.Pmm.State.{Entry, Window, usable}
use vega_os.Pmm.Frames.{pmm_alloc}
use vega_os.Mmu.State.{pte_addr_mask, vmm_writable, vmm_user, vmm_exec, Pagemap, Mmu}
use vega_os.Mmu.Walk.{ttbr_index, level_index, is_table, entry_at}
use vega_os.Mmu.Pages.{leaf, aarch64_translate_vaddr, aarch64_map_page, aarch64_unmap_page}
use vega_os.Mmu.Entries.{leaf_attributes}
use vega_os.Mmu.Roundtrip.{Route, IsShown, translate-map, translate-map_other}
use vega_os.Mmu.Missing.{Gap, at_first, lookups-Gap, ttbr_index-level_index}
use vega_os.Mmu.Link.{IsFresh}
use vega_os.Pmm.Size.{get_bitmap_size}
use vega_os.Mmu.Reuse.{HasBitmap, translate-map_reuse}
use vega_os.Mmu.Fresh.{HasTwo, translate-map_fresh}
use vega_os.Mmu.Registers.{Control, aarch64_mmu_init, mmu_init-tcr}

abbrev pub higher_half : ℕ
higher_half = 0xffff_0000_0000_0000

abbrev pub window : Window
window = record {
  phys = λ a. if ltb a higher_half then a else a - higher_half;
  higher_half = higher_half;
}

abbrev pagemap : Pagemap
pagemap = record { ttbr = λ i. if i == 0 then 0x1000 else 0x8000; asid = 0 }

-- Entry 1 of the root at 0x1000 leads to 0x2000, its entry 2 to 0x3000, whose entry 3 leads to
-- 0x4000.
abbrev pub tables : Mem
tables q =
    if q == 0x1008
    then 3
    else if q == 0x1009
    then 0x20
    else if q == 0x2010
    then 3
    else if q == 0x2011
    then 0x30
    else if q == 0x3018
    then 3
    else if q == 0x3019
    then 0x40
    else 0

abbrev pub machine : Mmu
machine = record {
  pmm = record { mmap_resp = none; bitmap = 0; bitmap_start_bit = 0; mem = tables; log = [] };
  invalidated = [];
}

-- 0x80_8060_4000, with the indices 1, 2, 3 and 4; bits 37 and up choose TTBR1.
abbrev pub address : ℕ
address = 2 ^ 39 + 2 * 2 ^ 30 + 3 * 2 ^ 21 + 4 * 4096

-- A root for the addresses with a bit from 37 on.
abbrev pub upper : Pagemap
upper = record { ttbr = λ i. if i == 0 then 0x8000 else 0x1000; asid = 0 }

indices :
    (ttbr_index address ≡ 1)
    × (level_index 39 address ≡ 1)
    × (level_index 30 address ≡ 2)
    × (level_index 21 address ≡ 3)
    × (level_index 12 address ≡ 4)
unfolding ttbr_index level_index
indices = (refl, refl, refl, refl, refl)

pub shown : (f : ℕ) → f < 0x10_0000 → IsShown window f
shown f h = record { at = λ i lt. ground arith }

pub route : Route window tables 0x1000 address 0x2000 0x3000 0x4000
unfolding level_index is_table entry_at load64
route = record {
  walk = record {
    first = record { table = refl; frame = refl; nonzero = omega arith };
    second = record { table = refl; frame = refl; nonzero = omega arith };
    third = record { table = refl; frame = refl; nonzero = omega arith };
  };
  root_shown = shown 0x1000 (omega arith);
  l1_shown = shown 0x2000 (omega arith);
  l2_shown = shown 0x3000 (omega arith);
  l3_shown = shown 0x4000 (omega arith);
}

translate-map_example :
    (s' : Mmu) × (aarch64_map_page window upper address (0x1234 * 4096) vmm_exec machine ≡ ok s')
    × (aarch64_translate_vaddr window upper address s' ≡ ok (0x1234 * 4096, s'))
    × (s'.invalidated ≡ (address >> 12) ∷ [])
unfolding ttbr_index
translate-map_example =
    translate-map window upper address 0x2000 0x3000 0x4000 machine route (inr (omega arith))
      (inr (omega arith)) (inr (omega arith)) refl 0x1234 vmm_exec (omega arith)

-- The next page, in the same tables.
abbrev pub next_page : ℕ
next_page = address + 4096

next-Route : Route window tables 0x1000 next_page 0x2000 0x3000 0x4000
unfolding level_index is_table entry_at load64
next-Route = record {
  walk = record {
    first = record { table = refl; frame = refl; nonzero = omega arith };
    second = record { table = refl; frame = refl; nonzero = omega arith };
    third = record { table = refl; frame = refl; nonzero = omega arith };
  };
  root_shown = shown 0x1000 (omega arith);
  l1_shown = shown 0x2000 (omega arith);
  l2_shown = shown 0x3000 (omega arith);
  l3_shown = shown 0x4000 (omega arith);
}

next_index : level_index 12 next_page ≢ level_index 12 address
unfolding level_index
next_index = omega arith

translate-map_other_example :
    (s' : Mmu) × (a : ℕ) × (aarch64_map_page window upper address 0x123_4000 0 machine ≡ ok s')
    × (aarch64_translate_vaddr window upper next_page machine ≡ ok (a, machine))
    × (aarch64_translate_vaddr window upper next_page s' ≡ ok (a, s'))
unfolding ttbr_index
translate-map_other_example =
    translate-map_other window upper address 0x2000 0x3000 0x4000 machine next_page 0x2000 0x3000
      0x4000 0x123_4000 0 refl route next-Route (inr (omega arith)) (inr (omega arith))
      (inr (omega arith)) (inr (refl, next_index))

-- Nothing is mapped under the other root's frame.
gap : Gap window tables 0x8000 0x1000
unfolding level_index is_table entry_at load64
gap = at_first refl

lookups-Gap_example :
    (s' : Mmu) × (aarch64_translate_vaddr window upper 0x1000 machine ≡ ok (0, s'))
    × (s'.pmm.mem ≡ tables)
    × (s'.invalidated ≡ [])
    × (aarch64_unmap_page window upper 0x1000 machine ≡ ok machine)
unfolding ttbr_index
lookups-Gap_example = lookups-Gap window upper 0x1000 machine refl gap

abbrev control : Control
control = record {
  sysregs = record {
    ttbr0_el1 = 0x1_0000_1000;
    ttbr1_el1 = 0x1_0000_2000;
    contextidr_el1 = 7;
    mair_el1 = 0xff00;
    tcr_el1 = 0;
    id_aa64mmfr0_el1 = 0x1122;
  };
  pagemap = pagemap;
  log = [];
}

mmu_init-tcr_example :
    ((aarch64_mmu_init control).sysregs.tcr_el1 ≡ 0xffff_ffff_a510_2510)
    × ((aarch64_mmu_init control).sysregs.mair_el1 ≡ 0x400_0cff)
    × ((i : ℕ) → (aarch64_mmu_init control).pagemap.ttbr i % 4096 ≡ 0)
    × ((i : ℕ) → (aarch64_mmu_init control).pagemap.ttbr i < 2 ^ 48)
    × ((aarch64_mmu_init control).pagemap.asid < 2 ^ 16)
mmu_init-tcr_example = mmu_init-tcr control
