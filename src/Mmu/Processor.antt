-- ===== src/Mmu/Processor.antt =====
-- What the processor sees of an entry that the kernel has stored.
use vega_os.Base.{
  ℕ, ◌+◌, ◌-◌, ◌*◌, ◌%◌, ◌^◌, ◌<◌, ◌≤◌, ◌≡◌, ◌⊎◌, sym, ap, ◌∙◌, arith, ◌==◌, if◌then◌else◌, some,
  none,
}
use vega_os.Word64.{load64-store64}
use vega_os.Pmm.State.{Window}
use vega_os.Mmu.State.{Pagemap, Mmu}
use vega_os.Mmu.Walk.{ttbr_index, level_index, entry_at}
use vega_os.Mmu.Pages.{leaf, store_pte, invalidate_page}
use vega_os.Mmu.Registers.{Registers, aarch64_get_pagemap}
use vega_os.Mmu.Entries.{leaf-lt}
use vega_os.Mmu.Roundtrip.{Apart, Route, stored-Walk, level_index-lt, entry_at-IsMapped}
use vega_os.Mmu.Architecture.{view, processor_view}
use vega_os.Mmu.View.{
  descriptor-entry_at, table_walk-Route, table_walk-page, page_view, leaf-is_page, view-leaf,
  processor_view-root, root_is_aligned,
}

module _ (w : Window) (r : Registers) (vaddr l1 l2 l3 : ℕ) where
  abbrev p : Pagemap
  p = aarch64_get_pagemap r

  abbrev root : ℕ
  root = p.ttbr (ttbr_index vaddr)

  module _ (h : vaddr < 2 ^ 64) (range : (vaddr < 2 ^ 37) ⊎ (2 ^ 64 - 2 ^ 48 ≤ vaddr))
      (a0 : Apart l3 root) (a1 : Apart l3 l1) (a2 : Apart l3 l2) where
    stored-Route :
        (s : Mmu) (value : ℕ)
        → Route w s.pmm.mem root vaddr l1 l2 l3
        → Route w (store_pte w l3 vaddr value s).pmm.mem root vaddr l1 l2 l3
    unfolding store_pte invalidate_page
    stored-Route s value route = record {
      walk =
          stored-Walk w p vaddr l1 l2 l3 s route a0 a1 a2 (root_is_aligned r (ttbr_index vaddr))
            value;
      root_shown = route.root_shown;
      l1_shown = route.l1_shown;
      l2_shown = route.l2_shown;
      l3_shown = route.l3_shown;
    }

    -- The processor walks to the entry that was stored.
    processor_view-store_pte :
        (s : Mmu) (value : ℕ)
        → value < 2 ^ 64
        → Route w s.pmm.mem root vaddr l1 l2 l3
        → processor_view r (store_pte w l3 vaddr value s).pmm.mem vaddr
          ≡ (if value % 4 == 3 then view value 12 vaddr else none)
    unfolding store_pte invalidate_page
    processor_view-store_pte s value fits route =
        let mem = (store_pte w l3 vaddr value s).pmm.mem in
        let k = level_index 12 vaddr in
        let found =
          load64-store64 w.phys (entry_at w l3 k) (l3 + 8 * k) s.pmm.mem
            (entry_at-IsMapped w l3 k route.l3_shown (level_index-lt 12 vaddr)) value fits in
        processor_view-root r mem vaddr h range
        ∙ table_walk-Route w mem root vaddr l1 l2 l3 (stored-Route s value route)
        ∙ table_walk-page mem vaddr l3 value
            (descriptor-entry_at w mem l3 12 vaddr route.l3_shown ∙ found)

    processor_view-leaf :
        (s : Mmu) (page flags : ℕ)
        → page < 2 ^ 36
        → Route w s.pmm.mem root vaddr l1 l2 l3
        → processor_view r (store_pte w l3 vaddr (leaf (page * 4096) flags) s).pmm.mem vaddr
          ≡ some (page_view page flags vaddr)
    processor_view-leaf s page flags fits route =
        processor_view-store_pte s (leaf (page * 4096) flags)
          (leaf-lt flags (page * 4096) (omega arith)) route
        ∙ rw (leaf-is_page page flags fits) (view-leaf page flags vaddr fits)

module _ (w : Window) where
  -- The entry of `vaddr` was the last one stored, in a table that is linked below `l2`.
  pub record IsStored (root vaddr l1 l2 phys flags : ℕ) (s' : Mmu) : Type 0 where
    pub last_table : ℕ
    pub earlier : Mmu
    pub stored : store_pte w last_table vaddr (leaf phys flags) earlier ≡ s'
    pub route : Route w earlier.pmm.mem root vaddr l1 l2 last_table
    pub root_apart : Apart last_table root
    pub l1_apart : Apart last_table l1
    pub l2_apart : Apart last_table l2

  pub processor_view-IsStored :
      (r : Registers) (vaddr l1 l2 page flags : ℕ) (s' : Mmu)
      → vaddr < 2 ^ 64
      → (vaddr < 2 ^ 37) ⊎ (2 ^ 64 - 2 ^ 48 ≤ vaddr)
      → page < 2 ^ 36
      → IsStored
          ((aarch64_get_pagemap r).ttbr (ttbr_index vaddr))
          vaddr
          l1
          l2
          (page * 4096)
          flags
          s'
      → processor_view r s'.pmm.mem vaddr ≡ some (page_view page flags vaddr)
  processor_view-IsStored r vaddr l1 l2 page flags s' h range fits is =
      ap (λ (t : Mmu). processor_view r t.pmm.mem vaddr) (sym is.stored)
      ∙ processor_view-leaf w r vaddr l1 l2 is.last_table h range is.root_apart is.l1_apart
          is.l2_apart is.earlier page flags fits is.route
