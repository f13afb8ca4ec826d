-- ===== src/Mmu/Missing.antt =====
-- Where a table is missing: the lookups that allocate nothing give up.
use vega_os.Base.{
  ℕ, ◌+◌, ◌-◌, ◌*◌, ◌%◌, ◌^◌, ◌<◌, ◌≡◌, refl, arith, false, bit_and, ◌>>◌, ◌/◌, ◌∙◌, ap, ltb,
  if◌then◌else◌,
}
use vega_os.Base.Bits.{bit_and-low, bit_and-shift}
use vega_os.Memory.{Mem}
use vega_os.Word64.{load64}
use vega_os.Outcome.{ok}
use vega_os.Pmm.State.{Window}
use vega_os.Mmu.State.{Pagemap, Mmu}
use vega_os.Mmu.Walk.{ttbr_index, level_index, is_table, entry_at, next_level}
use vega_os.Mmu.Pages.{complain, aarch64_translate_vaddr, aarch64_unmap_page}
use vega_os.Mmu.Tables.{Leads, next_level-Leads, nonzero_test}

module _ (w : Window) where
  abbrev IsMissing : Mem → ℕ → ℕ → Type 0
  IsMissing mem level index = is_table (load64 w.phys (entry_at w level index) mem) ≡ false

  -- The first, the second or the third entry on the way to `vaddr` is no table.
  pub data Gap (mem : Mem) (root vaddr : ℕ) : Type 0 where
    at_first : IsMissing mem root (level_index 39 vaddr) → Gap mem root vaddr
    at_second :
        (l1 : ℕ)
        → Leads w mem root (level_index 39 vaddr) l1
        → IsMissing mem l1 (level_index 30 vaddr)
        → Gap mem root vaddr
    at_third :
        (l1 l2 : ℕ)
        → Leads w mem root (level_index 39 vaddr) l1
        → Leads w mem l1 (level_index 30 vaddr) l2
        → IsMissing mem l2 (level_index 21 vaddr)
        → Gap mem root vaddr

  next_level-IsMissing :
      (level index : ℕ) (s : Mmu)
      → IsMissing s.pmm.mem level index
      → next_level w level index false s ≡ ok (0, s)
  unfolding next_level
  next_level-IsMissing level index s gap = rw (gap)

  unmap-Gap :
      (p : Pagemap) (vaddr : ℕ) (s : Mmu)
      → Gap s.pmm.mem (p.ttbr (ttbr_index vaddr)) vaddr
      → aarch64_unmap_page w p vaddr s ≡ ok s
  unfolding aarch64_unmap_page
  unmap-Gap p vaddr s (at_first gap) =
      rw (next_level-IsMissing (p.ttbr (ttbr_index vaddr)) (level_index 39 vaddr) s gap)
  unmap-Gap p vaddr s (at_second l1 leads gap) = rw (
    next_level-Leads w (p.ttbr (ttbr_index vaddr)) (level_index 39 vaddr) l1 false s leads,
    nonzero_test w l1 leads.nonzero,
    next_level-IsMissing l1 (level_index 30 vaddr) s gap,
  )
  unmap-Gap p vaddr s (at_third l1 l2 leads leads' gap) = rw (
    next_level-Leads w (p.ttbr (ttbr_index vaddr)) (level_index 39 vaddr) l1 false s leads,
    nonzero_test w l1 leads.nonzero,
    next_level-Leads w l1 (level_index 30 vaddr) l2 false s leads',
    nonzero_test w l2 leads'.nonzero,
    next_level-IsMissing l2 (level_index 21 vaddr) s gap,
  )

  pub translate-Gap :
      (p : Pagemap) (vaddr : ℕ) (s : Mmu)
      → bit_and (p.ttbr (ttbr_index vaddr)) (2 ^ 64 - 0x200) ≡ p.ttbr (ttbr_index vaddr)
      → Gap s.pmm.mem (p.ttbr (ttbr_index vaddr)) vaddr
      → (s' : Mmu) × (aarch64_translate_vaddr w p vaddr s ≡ ok (0, s'))
        × (s'.pmm.mem ≡ s.pmm.mem)
        × (s'.invalidated ≡ s.invalidated)
  unfolding aarch64_translate_vaddr complain
  translate-Gap p vaddr s aligned (at_first gap) = (
    complain s,
    rw (aligned, next_level-IsMissing (p.ttbr (ttbr_index vaddr)) (level_index 39 vaddr) s gap),
    refl,
    refl,
  )
  translate-Gap p vaddr s aligned (at_second l1 leads gap) = (
    s,
    rw (
      aligned,
      next_level-Leads w (p.ttbr (ttbr_index vaddr)) (level_index 39 vaddr) l1 false s leads,
      nonzero_test w l1 leads.nonzero,
      next_level-IsMissing l1 (level_index 30 vaddr) s gap,
    ),
    refl,
    refl,
  )
  translate-Gap p vaddr s aligned (at_third l1 l2 leads leads' gap) = (
    s,
    rw (
      aligned,
      next_level-Leads w (p.ttbr (ttbr_index vaddr)) (level_index 39 vaddr) l1 false s leads,
      nonzero_test w l1 leads.nonzero,
      next_level-Leads w l1 (level_index 30 vaddr) l2 false s leads',
      nonzero_test w l2 leads'.nonzero,
      next_level-IsMissing l2 (level_index 21 vaddr) s gap,
    ),
    refl,
    refl,
  )

  -- Where a table on the way to `vaddr` is missing, and the root is aligned, `vaddr` translates
  -- to 0, and neither the translation nor unmapping `vaddr` changes memory or invalidates a page:
  -- no table is allocated.
  pub lookups-Gap :
      (p : Pagemap) (vaddr : ℕ) (s : Mmu)
      → bit_and (p.ttbr (ttbr_index vaddr)) (2 ^ 64 - 0x200) ≡ p.ttbr (ttbr_index vaddr)
      → Gap s.pmm.mem (p.ttbr (ttbr_index vaddr)) vaddr
      → (s' : Mmu) × (aarch64_translate_vaddr w p vaddr s ≡ ok (0, s'))
        × (s'.pmm.mem ≡ s.pmm.mem)
        × (s'.invalidated ≡ s.invalidated)
        × (aarch64_unmap_page w p vaddr s ≡ ok s)
  lookups-Gap p vaddr s aligned gap =
      let (s', nothing, same, flushed) = translate-Gap p vaddr s aligned gap in
      (s', nothing, same, flushed, unmap-Gap p vaddr s gap)

-- A 64-bit address is walked from TTBR1 exactly when it is 2 ^ 37 or more, and its four indices and
-- its offset in the page make up its low 48 bits.
pub ttbr_index-level_index :
    (vaddr : ℕ)
    → vaddr < 2 ^ 64
    → (ttbr_index vaddr ≡ (if ltb vaddr (2 ^ 37) then 0 else 1))
      × (level_index 39 vaddr * 2 ^ 39
            + level_index 30 vaddr * 2 ^ 30
            + level_index 21 vaddr * 2 ^ 21
            + level_index 12 vaddr * 2 ^ 12
            + vaddr % 4096
          ≡ vaddr % 2 ^ 48)
unfolding ttbr_index level_index
ttbr_index-level_index vaddr h =
    let upper : bit_and vaddr ((2 ^ 27 - 1) * 2 ^ 37) ≡ vaddr / 2 ^ 37 % 2 ^ 27 * 2 ^ 37 =
      bit_and-shift 37 vaddr (2 ^ 27 - 1)
      ∙ ap (λ (t : ℕ). t * 2 ^ 37) (bit_and-low 27 (vaddr / 2 ^ 37)) in
    (
      rw (upper) (ground arith),
      omega (
        arith,
        bit_and-low 9 (vaddr >> 39),
        bit_and-low 9 (vaddr >> 30),
        bit_and-low 9 (vaddr >> 21),
        bit_and-low 9 (vaddr >> 12),
      ),
    )
