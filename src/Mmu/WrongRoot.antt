-- ===== src/Mmu/WrongRoot.antt =====
-- Addresses of the lower range from 2 ^ 37 on, for which the kernel writes tables under the root of
-- the upper one.
use mathlib.Core.Path.{subst}
use vega_os.Base.{
  ℕ, ◌*◌, ◌/◌, ◌%◌, ◌^◌, ◌<◌, ◌≤◌, ◌≡◌, inl, sym, ap, ◌∙◌, arith, true, false, ◌==◌, ◌&&◌, ltb,
  none,
}
use vega_os.Memory.{Mem}
use vega_os.Word64.{load64}
use vega_os.Outcome.{ok, ok-injective}
use vega_os.Pmm.State.{Window}
use vega_os.Mmu.State.{Mmu}
use vega_os.Mmu.Walk.{ttbr_index, level_index, is_table, entry_at}
use vega_os.Mmu.Pages.{leaf, store_pte, invalidate_page, aarch64_translate_vaddr, aarch64_map_page}
use vega_os.Mmu.Registers.{Registers, aarch64_get_pagemap}
use vega_os.Mmu.Entries.{and-addr_mask}
use vega_os.Mmu.Tables.{map-Walk}
use vega_os.Mmu.Missing.{ttbr_index-level_index}
use vega_os.Mmu.Roundtrip.{Apart, IsShown, Route, load64-stored, translate-map, level_index-lt}
use vega_os.Mmu.Architecture.{descriptor, table_walk, levels, processor_view}
use vega_os.Mmu.View.{root_is_aligned, is_table-eq, descriptor-entry_at}

module _ (w : Window) (r : Registers) (vaddr l1 l2 l3 : ℕ) where
  abbrev lower_root : ℕ
  lower_root = (aarch64_get_pagemap r).ttbr 0

  table_walk-missing :
      (mem : Mem)
      → IsShown w lower_root
      → is_table (load64 w.phys (entry_at w lower_root (level_index 39 vaddr)) mem) ≡ false
      → table_walk mem vaddr lower_root levels ≡ none
  unfolding table_walk
  table_walk-missing mem shown missing =
      let d = descriptor mem lower_root (vaddr / 2 ^ 39 % 512) in
      let same = descriptor-entry_at w mem lower_root 39 vaddr shown in
      let no_table : (d % 4 == 3) ≡ false = sym (is_table-eq d) ∙ ap is_table same ∙ missing in
      let no_block : ((d % 4 == 1) && false) ≡ false = ground arith in rw (no_table, no_block)

  processor_view-lower :
      (mem : Mem)
      → vaddr < 2 ^ 48
      → processor_view r mem vaddr ≡ table_walk mem vaddr lower_root levels
  unfolding processor_view aarch64_get_pagemap
  processor_view-lower mem h =
      let below : ltb vaddr (2 ^ 48) ≡ true = ground arith in rw (below, and-addr_mask r.ttbr0_el1)

  nothing_stored :
      (s : Mmu) (value : ℕ)
      → vaddr < 2 ^ 48
      → IsShown w l3
      → Apart l3 lower_root
      → IsShown w lower_root
      → is_table (load64 w.phys (entry_at w lower_root (level_index 39 vaddr)) s.pmm.mem) ≡ false
      → processor_view r (store_pte w l3 vaddr value s).pmm.mem vaddr ≡ none
  unfolding store_pte invalidate_page
  nothing_stored s value below l3_shown away shown missing =
      let mem = (store_pte w l3 vaddr value s).pmm.mem in
      let same =
        load64-stored w s.pmm.mem l3 (level_index 12 vaddr) value l3_shown (level_index-lt 12 vaddr)
          lower_root (level_index 39 vaddr) shown (level_index-lt 39 vaddr) (inl away) in
      processor_view-lower mem below ∙ table_walk-missing mem shown (ap is_table same ∙ missing)

  -- The page map is that of the processor's registers, and `vaddr` lies from 2 ^ 37 to below
  -- 2 ^ 48. Its three tables exist under the root of TTBR1_EL1 and are shown by the kernel's window
  -- with it, the last is apart from the others and from both roots, and the root of TTBR0_EL1,
  -- which is shown too, has no table for `vaddr`. Then mapping `vaddr` to a page below 2 ^ 48
  -- succeeds, and aarch64_translate_vaddr answers that page, but the processor finds nothing.
  pub processor_view-map_lower :
      (s : Mmu) (page flags : ℕ)
      → let p = aarch64_get_pagemap r in
        2 ^ 37 ≤ vaddr
        → vaddr < 2 ^ 48
        → Route w s.pmm.mem (p.ttbr 1) vaddr l1 l2 l3
        → Apart l3 (p.ttbr 1)
        → Apart l3 l1
        → Apart l3 l2
        → Apart l3 (p.ttbr 0)
        → IsShown w (p.ttbr 0)
        → is_table (load64 w.phys (entry_at w (p.ttbr 0) (level_index 39 vaddr)) s.pmm.mem) ≡ false
        → page < 2 ^ 36
        → (s' : Mmu) × (aarch64_map_page w p vaddr (page * 4096) flags s ≡ ok s')
          × (aarch64_translate_vaddr w p vaddr s' ≡ ok (page * 4096, s'))
          × (processor_view r s'.pmm.mem vaddr ≡ none)
  processor_view-map_lower s page flags above below route a0 a1 a2 away shown missing fits =
      let p = aarch64_get_pagemap r in
      let half : ttbr_index vaddr ≡ 1 =
        ground (arith, (ttbr_index-level_index vaddr (omega arith)).0) in
      let root_eq : p.ttbr (ttbr_index vaddr) ≡ p.ttbr 1 = ap p.ttbr half in
      let route' : Route w s.pmm.mem (p.ttbr (ttbr_index vaddr)) vaddr l1 l2 l3 =
        rw root_eq route in
      let (s', run, found, flushed) =
        translate-map w p vaddr l1 l2 l3 s route' (rw root_eq a0) a1 a2
          (root_is_aligned r (ttbr_index vaddr)) page flags fits in
      let state : store_pte w l3 vaddr (leaf (page * 4096) flags) s ≡ s' =
        ok-injective (sym (map-Walk w p vaddr l1 l2 l3 s (page * 4096) flags route'.walk) ∙ run) in
      (
        s',
        run,
        found,
        subst (λ (t : Mmu). processor_view r t.pmm.mem vaddr ≡ none) state
            (nothing_stored s (leaf (page * 4096) flags) below route.l3_shown away shown missing),
      )
