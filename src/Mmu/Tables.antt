-- ===== src/Mmu/Tables.antt =====
-- The four-level walk where the tables exist, and where one is missing.
use vega_os.Base.{ℕ, ◌-◌, ◌^◌, ◌≡◌, ◌≢◌, arith, ◌==◌, bit_and, Bool, true, false}
use vega_os.Memory.{Mem}
use vega_os.Word64.{load64}
use vega_os.Outcome.{ok}
use vega_os.Pmm.State.{Window}
use vega_os.Mmu.State.{pte_addr_mask, Pagemap, Mmu}
use vega_os.Mmu.Walk.{ttbr_index, level_index, is_table, entry_at, next_level}
use vega_os.Mmu.Pages.{
  leaf, store_pte, aarch64_translate_vaddr, aarch64_map_page, aarch64_unmap_page,
}

module _ (w : Window) where
  -- The entry of `level` at `index` leads to the table at `next`.
  pub record Leads (mem : Mem) (level index next : ℕ) : Type 0 where
    pub table : is_table (load64 w.phys (entry_at w level index) mem) ≡ true
    pub frame : bit_and (load64 w.phys (entry_at w level index) mem) pte_addr_mask ≡ next
    pub nonzero : next ≢ 0

  -- The three tables under a root on the way to `vaddr`.
  pub record Walk (mem : Mem) (root vaddr l1 l2 l3 : ℕ) : Type 0 where
    pub first : Leads mem root (level_index 39 vaddr) l1
    pub second : Leads mem l1 (level_index 30 vaddr) l2
    pub third : Leads mem l2 (level_index 21 vaddr) l3

  pub next_level-Leads :
      (level index next : ℕ) (alloc : Bool) (s : Mmu)
      → Leads s.pmm.mem level index next
      → next_level w level index alloc s ≡ ok (next, s)
  unfolding next_level
  next_level-Leads level index next alloc s leads = rw (leads.table, leads.frame)

  pub nonzero_test : (x : ℕ) → x ≢ 0 → (x == 0) ≡ false
  nonzero_test x h = ground arith

  module _ (p : Pagemap) (vaddr l1 l2 l3 : ℕ) (s : Mmu) where
    abbrev root : ℕ
    root = p.ttbr (ttbr_index vaddr)

    pub translate-Walk :
        bit_and root (2 ^ 64 - 0x200) ≡ root
        → Walk s.pmm.mem root vaddr l1 l2 l3
        → aarch64_translate_vaddr w p vaddr s
          ≡ ok (
            bit_and (load64 w.phys (entry_at w l3 (level_index 12 vaddr)) s.pmm.mem) pte_addr_mask,
            s,
          )
    unfolding aarch64_translate_vaddr
    translate-Walk aligned walk = rw (
      aligned,
      next_level-Leads root (level_index 39 vaddr) l1 false s walk.first,
      nonzero_test l1 walk.first.nonzero,
      next_level-Leads l1 (level_index 30 vaddr) l2 false s walk.second,
      nonzero_test l2 walk.second.nonzero,
      next_level-Leads l2 (level_index 21 vaddr) l3 false s walk.third,
      nonzero_test l3 walk.third.nonzero,
    )

    pub map-Walk :
        (phys flags : ℕ)
        → Walk s.pmm.mem root vaddr l1 l2 l3
        → aarch64_map_page w p vaddr phys flags s ≡ ok (store_pte w l3 vaddr (leaf phys flags) s)
    unfolding aarch64_map_page
    map-Walk phys flags walk = rw (
      next_level-Leads root (level_index 39 vaddr) l1 true s walk.first,
      next_level-Leads l1 (level_index 30 vaddr) l2 true s walk.second,
      next_level-Leads l2 (level_index 21 vaddr) l3 true s walk.third,
    )

    pub unmap-Walk :
        Walk s.pmm.mem root vaddr l1 l2 l3
        → aarch64_unmap_page w p vaddr s ≡ ok (store_pte w l3 vaddr 0 s)
    unfolding aarch64_unmap_page
    unmap-Walk walk = rw (
      next_level-Leads root (level_index 39 vaddr) l1 false s walk.first,
      nonzero_test l1 walk.first.nonzero,
      next_level-Leads l1 (level_index 30 vaddr) l2 false s walk.second,
      nonzero_test l2 walk.second.nonzero,
      next_level-Leads l2 (level_index 21 vaddr) l3 false s walk.third,
      nonzero_test l3 walk.third.nonzero,
    )
