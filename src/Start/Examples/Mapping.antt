-- ===== src/Start/Examples/Mapping.antt =====
-- A page mapped after a start on aarch64, with a table from the allocator.
use vega_os.Base.{◌*◌, ◌≡◌, ◌⊎◌, inr, arith, refl, ap, if◌then◌else◌, some, [], ◌∷◌, ◌++◌}
use vega_os.Memory.{Mem, within}
use vega_os.Word64.{load64}
use vega_os.Outcome.{Outcome, ok, ◌>>=◌}
use vega_os.Log.{codes}
use vega_os.Pmm.State.{Pmm}
use vega_os.Pmm.Setup.{pmm_init}
use vega_os.Pmm.Frames.{pmm_alloc}
use vega_os.Pmm.Init.{init_bitmap-Initialised}
use vega_os.Pmm.Reach.{Reach, here, next, use_memory}
use vega_os.Mmu.State.{vmm_writable, Mmu}
use vega_os.Mmu.Walk.{ttbr_index, level_index, is_table, entry_at}
use vega_os.Mmu.Pages.{aarch64_translate_vaddr, aarch64_map_page}
use vega_os.Mmu.Registers.{aarch64_get_pagemap, aarch64_mmu_init}
use vega_os.Mmu.Architecture.{processor_view}
use vega_os.Mmu.View.{page_view}
use vega_os.Mmu.Fresh.{HasTwo}
use vega_os.Mmu.Examples.{window, shown}
use vega_os.Mmu.Examples.Growing.{unlinked}
use vega_os.Mmu.Examples.Supplied.{ram, boot, supplied, table-IsReserved, frame_17}
use vega_os.Mmu.Examples.Seen.{registers, high}
use vega_os.Start.{Machine, aarch64, announce, arch_init, start}
use vega_os.Start.Paging.{start-map_page}
use vega_os.Start.Examples.{off, addresses}

abbrev before : Machine
before = record off { control = record off.control { sysregs = registers } }

abbrev first : Pmm
first =
    (init_bitmap-Initialised window (announce (codes "0.1") before.pmm) 0x1000 [] [] ram boot.mapped
      boot.no_room boot.room boot.sized boot.in_bitmap).0

abbrev booted : Machine
booted = arch_init aarch64 addresses (record before { pmm = first })

starts : start window aarch64 addresses (codes "0.1") (some ([] ++ ram ∷ [])) before ≡ ok booted
unfolding start pmm_init
starts =
    ap
      (λ (o : Outcome Pmm).
        o >>= (λ p. ok (arch_init aarch64 addresses (record before { pmm = p }))))
      (init_bitmap-Initialised window (announce (codes "0.1") before.pmm) 0x1000 [] [] ram
        boot.mapped boot.no_room boot.room boot.sized boot.in_bitmap).1

-- The tables are written after the start.
abbrev written : Mem
written q = if within 0x1_0000 0x1000 q then booted.pmm.mem q else unlinked q

abbrev mapping : Mmu
mapping = record { pmm = record booted.pmm { mem = written }; invalidated = [] }

reached : Reach window 0x1000 [] [] ram booted.pmm mapping.pmm
reached = next here (use_memory written (λ q hit. ground arith))

two : HasTwo window written 0x1000 high 0x2000 0x3000
unfolding level_index is_table entry_at load64
two = record {
  first = record { table = refl; frame = refl; nonzero = omega arith };
  second = record { table = refl; frame = refl; nonzero = omega arith };
  third = refl;
  root_shown = shown 0x1000 (omega arith);
  l1_shown = shown 0x2000 (omega arith);
  l2_shown = shown 0x3000 (omega arith);
  l2_root = inr (omega arith);
  l2_l1 = inr (omega arith);
}

start-map_page_example :
    let p = booted.control.pagemap in
    (pmm_alloc window 1 mapping.pmm ≡ ok (0, mapping.pmm))
    ⊎ ((s' : Mmu) × (aarch64_map_page window p high (0x1234 * 4096) vmm_writable mapping ≡ ok s')
        × (aarch64_translate_vaddr window p high s' ≡ ok (0x1234 * 4096, s'))
        × (processor_view booted.control.sysregs s'.pmm.mem high
            ≡ some (page_view 0x1234 vmm_writable high))
        × Reach window 0x1000 [] [] ram booted.pmm s'.pmm)
unfolding ttbr_index arch_init aarch64_mmu_init aarch64_get_pagemap
start-map_page_example =
    start-map_page window 0x1000 [] [] ram boot supplied addresses (codes "0.1") before booted 17
      mapping high 0x2000 0x3000 0x1234 vmm_writable (omega arith) frame_17 starts reached two
      (table-IsReserved 1 (omega arith)) (table-IsReserved 2 (omega arith))
      (table-IsReserved 3 (omega arith)) (omega arith) (inr (omega arith)) (omega arith)
