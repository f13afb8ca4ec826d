-- ===== src/Mmu/Examples/Sequence.antt =====
-- Three operations on two addresses of one table.
use vega_os.Base.{ℕ, ◌+◌, ◌*◌, ◌<◌, ◌≡◌, ap, refl, arith, bit_and, inr, List, [], ◌∷◌}
use vega_os.Word64.{load_bytes, load64, load64_cong}
use vega_os.Outcome.{ok}
use vega_os.Mmu.State.{pte_addr_mask, vmm_exec, Mmu}
use vega_os.Mmu.Walk.{ttbr_index, level_index, is_table, entry_at}
use vega_os.Mmu.Pages.{aarch64_translate_vaddr}
use vega_os.Mmu.Roundtrip.{entry_at-IsMapped}
use vega_os.Mmu.History.{
  Operation, map_page, unmap_page, run_all, meaning, IsUnder, IsLaidOut, Represents,
  run_all-meaning,
}
use vega_os.Mmu.Examples.{window, tables, address, next_page, machine, upper, shown}

abbrev operations : List Operation
operations = map_page address 0x1234 vmm_exec ∷ map_page next_page 0x55 0 ∷ unmap_page address ∷ []

laid : IsLaidOut window upper 1 1 2 3 0x2000 0x3000 0x4000
laid = record {
  aligned = refl;
  first_lt = omega arith;
  second_lt = omega arith;
  third_lt = omega arith;
  root_shown = shown 0x1000 (omega arith);
  l1_shown = shown 0x2000 (omega arith);
  l2_shown = shown 0x3000 (omega arith);
  l3_shown = shown 0x4000 (omega arith);
  root_apart = inr (omega arith);
  l1_apart = inr (omega arith);
  l2_apart = inr (omega arith);
}

unused : (k : ℕ) → k < 512 → load64 window.phys (entry_at window 0x4000 k) tables ≡ 0
unfolding load64 load_bytes
unused k h =
    load64_cong window.phys (entry_at window 0x4000 k) (0x4000 + 8 * k) tables
      (entry_at-IsMapped window 0x4000 k (shown 0x4000 (omega arith)) h) (λ q. 0)
      (λ q hit. ground arith)

empty : Represents window upper 1 1 2 3 0x2000 0x3000 0x4000 machine (λ _. 0)
unfolding is_table entry_at load64
empty = record {
  first = record { table = refl; frame = refl; nonzero = omega arith };
  second = record { table = refl; frame = refl; nonzero = omega arith };
  third = record { table = refl; frame = refl; nonzero = omega arith };
  pages = λ k h. ap (λ (v : ℕ). bit_and v pte_addr_mask) (unused k h);
}

address-IsUnder : IsUnder 1 1 2 3 address
unfolding ttbr_index level_index
address-IsUnder = record { half_is = refl; first_is = refl; second_is = refl; third_is = refl }

next_page-IsUnder : IsUnder 1 1 2 3 next_page
unfolding ttbr_index level_index
next_page-IsUnder = record { half_is = refl; first_is = refl; second_is = refl; third_is = refl }

meanings : (meaning operations (λ _. 0) 4 ≡ 0) × (meaning operations (λ _. 0) 5 ≡ 0x5_5000)
unfolding level_index
meanings = (refl, refl)

run_all-meaning_example :
    (t : Mmu) × (run_all window upper operations machine ≡ ok t)
    × ((vaddr : ℕ)
        → IsUnder 1 1 2 3 vaddr
        → (aarch64_translate_vaddr window upper vaddr machine ≡ ok (0, machine))
          × (aarch64_translate_vaddr window upper vaddr t
              ≡ ok (meaning operations (λ _. 0) (level_index 12 vaddr), t)))
run_all-meaning_example =
    run_all-meaning window upper 1 1 2 3 0x2000 0x3000 0x4000 laid operations machine (λ _. 0)
      (address-IsUnder, omega arith, (next_page-IsUnder, omega arith, (address-IsUnder, tt))) empty
