-- ===== src/Mmu/Examples/Seen.antt =====
-- What a processor with the root 0x1000 in TTBR1_EL1 sees of two addresses that the kernel maps.
use vega_os.Base.{
  ℕ, ◌+◌, ◌-◌, ◌*◌, ◌^◌, ◌≡◌, refl, arith, bit_and, List, [], ◌∷◌, inl, inr, false, some, none,
}
use vega_os.Outcome.{ok}
use vega_os.Word64.{load64}
use vega_os.Mmu.State.{pte_addr_mask, vmm_writable, Mmu}
use vega_os.Mmu.Walk.{ttbr_index, level_index, is_table, entry_at}
use vega_os.Mmu.Pages.{aarch64_translate_vaddr, aarch64_map_page}
use vega_os.Mmu.Registers.{Registers, aarch64_get_pagemap}
use vega_os.Mmu.Architecture.{processor_view}
use vega_os.Mmu.View.{page_view}
use vega_os.Mmu.WrongRoot.{processor_view-map_lower}
use vega_os.Mmu.History.{Operation, map_page, unmap_page, run_all, IsUnder, IsLaidOut, Represents}
use vega_os.Mmu.Refinement.{seen_after, IsSeen, run_all-seen_after}
use vega_os.Mmu.Examples.{window, address, tables, machine, shown, route}

abbrev pub registers : Registers
registers = record {
  ttbr0_el1 = 0x8000;
  ttbr1_el1 = 0x1000;
  contextidr_el1 = 0;
  mair_el1 = 0;
  tcr_el1 = 0;
  id_aa64mmfr0_el1 = 0;
}

-- The indices of `address`, in the upper range.
abbrev pub high : ℕ
high = 2 ^ 64 - 2 ^ 48 + address

abbrev higher : ℕ
higher = high + 4096

abbrev operations : List Operation
operations = map_page high 0x1234 vmm_writable ∷ map_page higher 0x55 0 ∷ unmap_page high ∷ []

laid : IsLaidOut window (aarch64_get_pagemap registers) 1 1 2 3 0x2000 0x3000 0x4000
unfolding aarch64_get_pagemap
laid = record {
  aligned = refl;
  first_lt = omega arith;
  second_lt = omega arith;
  third_lt = omega arith;
  root_shown = shown 0x1000 (omega arith);
  l1_shown = shown 0x2000 (omega arith);
  l2_shown = shown 0x3000 (omega arith);
  l3_shown = shown 0x4000 (omega arith);
  root_apart = inr (omega arith);
  l1_apart = inr (omega arith);
  l2_apart = inr (omega arith);
}

abbrev pages : ℕ → ℕ
pages k = bit_and (load64 window.phys (entry_at window 0x4000 k) tables) pte_addr_mask

linked :
    Represents window (aarch64_get_pagemap registers) 1 1 2 3 0x2000 0x3000 0x4000 machine pages
unfolding aarch64_get_pagemap is_table entry_at load64
linked = record {
  first = record { table = refl; frame = refl; nonzero = omega arith };
  second = record { table = refl; frame = refl; nonzero = omega arith };
  third = record { table = refl; frame = refl; nonzero = omega arith };
  pages = λ k h. refl;
}

high-IsUnder : IsUnder 1 1 2 3 high
unfolding ttbr_index level_index
high-IsUnder = record { half_is = refl; first_is = refl; second_is = refl; third_is = refl }

higher-IsUnder : IsUnder 1 1 2 3 higher
unfolding ttbr_index level_index
higher-IsUnder = record { half_is = refl; first_is = refl; second_is = refl; third_is = refl }

-- The second operation decides on its address, the third on the other.
decided :
    (seen_after operations higher none ≡ some (page_view 0x55 0 higher))
    × (seen_after operations high none ≡ none)
unfolding level_index
decided = (refl, refl)

run_all-seen_after_example :
    (t : Mmu) × (run_all window (aarch64_get_pagemap registers) operations machine ≡ ok t)
    × ((vaddr : ℕ)
        → IsSeen window registers 1 1 2 3 0x2000 0x3000 0x4000 vaddr
        → processor_view registers t.pmm.mem vaddr
          ≡ seen_after operations vaddr (processor_view registers tables vaddr))
run_all-seen_after_example =
    run_all-seen_after window registers 1 1 2 3 0x2000 0x3000 0x4000 laid operations machine pages
      (high-IsUnder, omega arith, (higher-IsUnder, omega arith, (high-IsUnder, tt))) linked

lower_is_missing :
    is_table (load64 window.phys (entry_at window 0x8000 (level_index 39 address)) tables) ≡ false
unfolding level_index is_table entry_at load64
lower_is_missing = refl

processor_view-map_lower_example :
    let p = aarch64_get_pagemap registers in
    (s' : Mmu) × (aarch64_map_page window p address (0x1234 * 4096) vmm_writable machine ≡ ok s')
    × (aarch64_translate_vaddr window p address s' ≡ ok (0x1234 * 4096, s'))
    × (processor_view registers s'.pmm.mem address ≡ none)
unfolding aarch64_get_pagemap
processor_view-map_lower_example =
    processor_view-map_lower window registers address 0x2000 0x3000 0x4000 machine 0x1234
      vmm_writable (omega arith) (omega arith) route (inr (omega arith)) (inr (omega arith))
      (inr (omega arith)) (inl (omega arith)) (shown 0x8000 (omega arith)) lower_is_missing
      (omega arith)
