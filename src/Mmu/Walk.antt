-- ===== src/Mmu/Walk.antt =====
-- The indices of an address, and next_level.
use vega_os.Base.{ℕ, ◌+◌, ◌*◌, Bool, not, ◌==◌, if◌then◌else◌, u64, bit_and, bit_or, ◌<<◌, ◌>>◌, []}
use vega_os.Posix.{memset}
use vega_os.Log.{codes}
use vega_os.Outcome.{Outcome, ok, panicked, ◌>>=◌}
use vega_os.Word64.{load64, store64}
use vega_os.Pmm.State.{Window}
use vega_os.Pmm.Frames.{pmm_alloc}
use vega_os.Mmu.State.{pte_p, pte_tbl, pte_addr_mask, Mmu}

-- `(vaddr & (0x7FFFFFFULL << 37)) != 0`
unfoldable pub ttbr_index : ℕ → ℕ
ttbr_index vaddr = if bit_and vaddr (0x7ffffff << 37) == 0 then 0 else 1

-- `(vaddr >> shift) & 0x1FF`
unfoldable pub level_index : ℕ → ℕ → ℕ
level_index shift vaddr = bit_and (vaddr >> shift) 0x1ff

-- The test that next_level makes of an entry.
unfoldable pub is_table : ℕ → Bool
is_table e = bit_and e (pte_p + pte_tbl) == pte_p + pte_tbl

module _ (w : Window) where
  -- `&level_virt[index]`
  unfoldable pub entry_at : ℕ → ℕ → ℕ
  entry_at level_phys index = u64 (level_phys + w.higher_half) + 8 * index

  -- The branch that allocates: memset takes the frame's physical address for a pointer.
  unfoldable pub allocate_level : ℕ → Mmu → Outcome (ℕ × Mmu)
  allocate_level entry s = do
    (next, pmm) ← pmm_alloc w 1 s.pmm
    let cleared = (memset w.phys next 0 4096 pmm.mem).1
    let mem = store64 w.phys entry (bit_or (bit_or next pte_p) pte_tbl) cleared
    let stored = load64 w.phys entry mem
    let fail : Outcome (ℕ × Mmu) =
        panicked (record { fmt = codes "Could not allocate next level\n"; args = [] })
    let done : Outcome (ℕ × Mmu) =
        ok (bit_and stored pte_addr_mask, record s { pmm = record pmm { mem = mem } })
    if stored == 0 then fail else done

  unfoldable pub next_level : ℕ → ℕ → Bool → Mmu → Outcome (ℕ × Mmu)
  next_level level_phys index alloc s =
      let entry = entry_at level_phys index in
      let e = load64 w.phys entry s.pmm.mem in
      if not (is_table e)
      then if alloc then allocate_level entry s else ok (0, s)
      else ok (bit_and e pte_addr_mask, s)
