-- ===== src/Mmu/Pages.antt =====
-- aarch64_translate_vaddr, aarch64_map_page and aarch64_unmap_page.
use vega_os.Base.{
  ℕ, ◌-◌, ◌^◌, true, false, ◌==◌, if◌then◌else◌, bit_and, bit_or, ◌>>◌, [], ◌∷◌, ◌++◌,
}
use vega_os.Log.{codes}
use vega_os.Outcome.{Outcome, ok, ◌>>=◌}
use vega_os.Word64.{load64, store64}
use vega_os.Pmm.State.{Window}
use vega_os.Mmu.State.{
  pte_p, pte_tbl, pte_u, pte_ro, pte_af, pte_nx, pte_addr_mask, vmm_writable, vmm_user, vmm_exec,
  Pagemap, Mmu,
}
use vega_os.Mmu.Walk.{ttbr_index, level_index, entry_at, next_level}

-- The instructions of invalidate_page get the page's number.
unfoldable pub invalidate_page : ℕ → Mmu → Mmu
invalidate_page vaddr s = record s { invalidated = (vaddr >> 12) ∷ s.invalidated }

-- The line that aarch64_translate_vaddr prints when the first step finds no table.
unfoldable pub complain : Mmu → Mmu
complain s = record s {
  pmm = record s.pmm { log = s.pmm.log ++ record { fmt = codes "AAA!\n"; args = [] } ∷ [] };
}

-- The bits that the flags of a mapping ask for.
unfoldable pub pte_flags : ℕ → ℕ
pte_flags flags =
    let base = bit_or (bit_or pte_p pte_af) pte_tbl in
    let with_ro = if bit_and flags vmm_writable == 0 then bit_or base pte_ro else base in
    let with_nx = if bit_and flags vmm_exec == 0 then bit_or with_ro pte_nx else with_ro in
    if bit_and flags vmm_user == 0 then with_nx else bit_or with_nx pte_u

-- The entry that aarch64_map_page stores.
unfoldable pub leaf : ℕ → ℕ → ℕ
leaf phys flags = bit_or (bit_or (bit_or (bit_or pte_p pte_af) pte_tbl) phys) (pte_flags flags)

module _ (w : Window) where
  unfoldable pub aarch64_translate_vaddr : Pagemap → ℕ → Mmu → Outcome (ℕ × Mmu)
  aarch64_translate_vaddr p vaddr s = do
    let l0 = bit_and (p.ttbr (ttbr_index vaddr)) (2 ^ 64 - 0x200)
    (l1, s) ← next_level w l0 (level_index 39 vaddr) false s
    if l1 == 0 then ok (0, complain s) else do
      (l2, s) ← next_level w l1 (level_index 30 vaddr) false s
      if l2 == 0 then ok (0, s) else do
        (l3, s) ← next_level w l2 (level_index 21 vaddr) false s
        if l3 == 0
            then ok (0, s)
            else ok (
              bit_and (load64 w.phys (entry_at w l3 (level_index 12 vaddr)) s.pmm.mem)
                  pte_addr_mask,
              s,
            )

  -- `pte[level3_index] = value`, then invalidate_page.
  unfoldable pub store_pte : ℕ → ℕ → ℕ → Mmu → Mmu
  store_pte l3 vaddr value s =
      let mem = store64 w.phys (entry_at w l3 (level_index 12 vaddr)) value s.pmm.mem in
      invalidate_page vaddr (record s { pmm = record s.pmm { mem = mem } })

  -- The page size, an enumeration of one value that the code does not read, is no argument.
  unfoldable pub aarch64_map_page : Pagemap → ℕ → ℕ → ℕ → Mmu → Outcome Mmu
  aarch64_map_page p vaddr phys flags s = do
    (l1, s) ← next_level w (p.ttbr (ttbr_index vaddr)) (level_index 39 vaddr) true s
    (l2, s) ← next_level w l1 (level_index 30 vaddr) true s
    (l3, s) ← next_level w l2 (level_index 21 vaddr) true s
    ok (store_pte l3 vaddr (leaf phys flags) s)

  unfoldable pub aarch64_unmap_page : Pagemap → ℕ → Mmu → Outcome Mmu
  aarch64_unmap_page p vaddr s = do
    (l1, s) ← next_level w (p.ttbr (ttbr_index vaddr)) (level_index 39 vaddr) false s
    if l1 == 0 then ok s else do
      (l2, s) ← next_level w l1 (level_index 30 vaddr) false s
      if l2 == 0 then ok s else do
        (l3, s) ← next_level w l2 (level_index 21 vaddr) false s
        if l3 == 0 then ok s else ok (store_pte l3 vaddr 0 s)
