-- ===== src/Mmu/Examples/Growing.antt =====
-- The same tables with one missing, and an allocator with a free frame.
use vega_os.Base.{
  ℕ, ◌+◌, ◌*◌, ◌^◌, ◌≡◌, ◌≢◌, refl, arith, ◌==◌, if◌then◌else◌, inr, [], ◌∷◌, some, List, false,
}
use vega_os.Memory.{Mem}
use vega_os.Word64.{load64}
use vega_os.Outcome.{ok}
use vega_os.Pmm.State.{Entry, usable}
use vega_os.Pmm.Frames.{pmm_alloc}
use vega_os.Mmu.State.{vmm_exec, Mmu}
use vega_os.Mmu.Walk.{ttbr_index, level_index, is_table, entry_at}
use vega_os.Mmu.Pages.{aarch64_translate_vaddr, aarch64_map_page}
use vega_os.Mmu.Link.{IsFresh}
use vega_os.Pmm.Size.{get_bitmap_size}
use vega_os.Mmu.Tables.{Leads}
use vega_os.Mmu.Reuse.{HasBitmap, translate-map_reuse}
use vega_os.Mmu.Fresh.{HasTwo, translate-map_fresh}
use vega_os.Mmu.Examples.{higher_half, window, tables, address, upper, shown}

-- Frame 8 is the first one free in the bitmap at 0x2_0000, and the entry that should lead to the
-- last table is 0.
abbrev pub unlinked : Mem
unlinked q =
    if q == 0x3018
    then 0
    else if q == 0x3019
    then 0
    else if q == 0x2_0001
    then 0xfe
    else if q == 0x8000
    then 7
    else tables q

abbrev growing_map : List Entry
growing_map = record { base = 0x8000; length = 0x1000; type = usable } ∷ []

abbrev growing : Mmu
growing = record {
  pmm = record {
    mmap_resp = some growing_map;
    bitmap = 0x2_0000 + higher_half;
    bitmap_start_bit = 8;
    mem = unlinked;
    log = [];
  };
  invalidated = [];
}

fresh : IsFresh window growing 8
unfolding pmm_alloc
fresh = record {
  answer = refl;
  nonzero = omega arith;
  small = omega arith;
  direct = record { at = λ i lt. ground arith };
  shown = shown 0x8000 (omega arith);
}

two : HasTwo window unlinked 0x1000 address 0x2000 0x3000
unfolding level_index is_table entry_at load64
two = record {
  first = record { table = refl; frame = refl; nonzero = omega arith };
  second = record { table = refl; frame = refl; nonzero = omega arith };
  third = refl;
  root_shown = shown 0x1000 (omega arith);
  l1_shown = shown 0x2000 (omega arith);
  l2_shown = shown 0x3000 (omega arith);
  l2_root = inr (omega arith);
  l2_l1 = inr (omega arith);
}

translate-map_fresh_example :
    (s' : Mmu) × (aarch64_map_page window upper address (0x1234 * 4096) vmm_exec growing ≡ ok s')
    × (aarch64_translate_vaddr window upper address s' ≡ ok (0x1234 * 4096, s'))
    × ((other : ℕ)
        → ttbr_index other ≡ ttbr_index address
        → level_index 39 other ≡ level_index 39 address
        → level_index 30 other ≡ level_index 30 address
        → level_index 21 other ≡ level_index 21 address
        → level_index 12 other ≢ level_index 12 address
        → aarch64_translate_vaddr window upper other s' ≡ ok (0, s'))
unfolding ttbr_index
translate-map_fresh_example =
    translate-map_fresh window growing upper address 0x2000 0x3000 8 0x1234 vmm_exec fresh two
      (inr (omega arith)) (inr (omega arith)) (inr (omega arith)) refl (omega arith)

-- With the indices 5, 2, 3 and 4, under an entry of the root that is 0.
abbrev far : ℕ
far = 5 * 2 ^ 39 + 2 * 2 ^ 30 + 3 * 2 ^ 21 + 4 * 4096

has : HasBitmap window growing.pmm growing_map 0x1000 0x2_0000
unfolding get_bitmap_size
has = record { in_map = refl; sized = refl; mapped = record { at = λ i lt. ground arith } }

far_is_missing :
    is_table (load64 window.phys (entry_at window 0x1000 (level_index 39 far)) unlinked) ≡ false
unfolding level_index is_table entry_at load64
far_is_missing = refl

far_indices : (level_index 30 far ≢ level_index 21 far) × (level_index 30 far ≢ level_index 12 far)
unfolding level_index
far_indices = (omega arith, omega arith)

translate-map_reuse_example :
    (s' : Mmu) × (t : Mmu) × (aarch64_map_page window upper far 0x123_4000 vmm_exec growing ≡ ok s')
    × (aarch64_translate_vaddr window upper far s' ≡ ok (0, t))
    × (pmm_alloc window 1 s'.pmm ≡ ok (0x8000, s'.pmm))
    × Leads window s'.pmm.mem 0x1000 (level_index 39 far) 0x8000
unfolding ttbr_index
translate-map_reuse_example =
    translate-map_reuse window growing upper far growing_map 0x1000 0x2_0000 8 0x123_4000 vmm_exec
      fresh has (inr (omega arith)) (inr (omega arith)) (shown 0x1000 (omega arith))
      (inr (omega arith)) refl far_is_missing far_indices.0 far_indices.1
