-- ===== src/Start/Paging.antt =====
-- Mapping pages on aarch64 after the start: the start, the allocator, the page tables and the
-- processor's walk.
use mathlib.Core.Path.{subst}
use vega_os.Base.{
  ℕ, ◌-◌, ◌*◌, ◌^◌, ◌<◌, ◌≤◌, ◌≡◌, ◌⊎◌, inl, inr, refl, sym, ◌∙◌, true, some, List, ◌∷◌, ◌++◌,
  bit_and,
}
use vega_os.Outcome.{ok, ok-injective, >>=-parts}
use vega_os.Pmm.State.{Entry, Window, Pmm}
use vega_os.Pmm.Setup.{pmm_init}
use vega_os.Pmm.Frames.{pmm_alloc}
use vega_os.Pmm.Cover.{is_covered}
use vega_os.Pmm.Init.{placed_entries}
use vega_os.Pmm.Safety.{IsBootable}
use vega_os.Pmm.Reach.{Reach, Inv}
use vega_os.Mmu.State.{Pagemap, Mmu}
use vega_os.Mmu.Walk.{ttbr_index}
use vega_os.Mmu.Pages.{aarch64_translate_vaddr, aarch64_map_page}
use vega_os.Mmu.Registers.{aarch64_get_pagemap, aarch64_mmu_init}
use vega_os.Mmu.Architecture.{processor_view}
use vega_os.Mmu.View.{page_view, root_is_aligned}
use vega_os.Mmu.Fresh.{HasTwo}
use vega_os.Mmu.Processor.{IsStored, processor_view-IsStored}
use vega_os.Mmu.Supply.{IsSupplied, IsReserved, map_page-Inv}
use vega_os.Start.{Machine, Addresses, aarch64, announce, arch_init, start}
use vega_os.Start.Boot.{start-booted}

-- The page map that a start keeps is that of the registers as it leaves them.
start-pagemap :
    (w : Window) (addresses : Addresses) (version : List ℕ) (entries : List Entry) (m m' : Machine)
    → start w aarch64 addresses version (some entries) m ≡ ok m'
    → m'.control.pagemap ≡ aarch64_get_pagemap m'.control.sysregs
unfolding start arch_init aarch64_mmu_init
start-pagemap w addresses version entries m m' run =
    let (p, rest, booted) =
      >>=-parts (λ (p : Pmm). ok (arch_init aarch64 addresses (record m { pmm = p })))
        (pmm_init w (some entries) (announce version m.pmm)) run in
    subst (λ (x : Machine). x.control.pagemap ≡ aarch64_get_pagemap x.control.sysregs)
      (ok-injective rest) refl

module _ (w : Window) (size : ℕ) (before after : List Entry) (target : Entry)
    (boot : IsBootable w size before after target)
    (supplied : IsSupplied w size before after target) where
  -- When the kernel has started on aarch64, on a bootable map with a usable frame other than 0, and
  -- the allocator has come to the state of `s` by allocations, releases of usable frames and writes
  -- outside the bitmap, mapping `vaddr` in the kernel's page map to a page below 2 ^ 48 succeeds, or
  -- the allocator has no frame left. Afterwards aarch64_translate_vaddr answers that page, the
  -- processor finds it, with the permissions that the flags ask for, and the allocator's state is one
  -- that it reaches by such steps. Conditions: the frames it may hand out are below 2 ^ 48, shown by
  -- the kernel's window and mapped at their own addresses, and its bitmap starts at a page; mapping
  -- `vaddr` needs a last table only, under a root and two tables that are shown and lie in reserved
  -- pages, the second apart from the others; `vaddr` has 64 bits and is below 2 ^ 37 or in the upper
  -- 2 ^ 48 addresses.
  pub start-map_page :
      (addresses : Addresses) (version : List ℕ) (m m' : Machine) (b : ℕ) (s : Mmu)
      (vaddr l1 l2 page flags : ℕ)
      → let p = m'.control.pagemap in
        let root = p.ttbr (ttbr_index vaddr) in
        0 < b
        → is_covered size (placed_entries size before target after) b ≡ true
        → start w aarch64 addresses version (some (before ++ target ∷ after)) m ≡ ok m'
        → Reach w size before after target m'.pmm s.pmm
        → HasTwo w s.pmm.mem root vaddr l1 l2
        → IsReserved w size before after target root
        → IsReserved w size before after target l1
        → IsReserved w size before after target l2
        → vaddr < 2 ^ 64
        → (vaddr < 2 ^ 37) ⊎ (2 ^ 64 - 2 ^ 48 ≤ vaddr)
        → page < 2 ^ 36
        → (pmm_alloc w 1 s.pmm ≡ ok (0, s.pmm))
          ⊎ ((s' : Mmu) × (aarch64_map_page w p vaddr (page * 4096) flags s ≡ ok s')
              × (aarch64_translate_vaddr w p vaddr s' ≡ ok (page * 4096, s'))
              × (processor_view m'.control.sysregs s'.pmm.mem vaddr
                  ≡ some (page_view page flags vaddr))
              × Reach w size before after target m'.pmm s'.pmm)
  start-map_page addresses version m m' b s vaddr l1 l2 page flags positive covered run r two
        root_kept l1_kept l2_kept h range fits =
      let p = m'.control.pagemap in
      let half = ttbr_index vaddr in
      let kept = start-pagemap w addresses version (before ++ target ∷ after) m m' run in
      let (m1, run1, inv1) =
        start-booted w size before after target boot aarch64 addresses version m b positive
          covered in
      let inv : Inv w size before after target m'.pmm =
        subst (λ (x : Machine). Inv w size before after target x.pmm)
          (ok-injective (sym run1 ∙ run)) inv1 in
      let aligned : bit_and (p.ttbr half) (2 ^ 64 - 0x200) ≡ p.ttbr half =
        subst (λ (q : Pagemap). bit_and (q.ttbr half) (2 ^ 64 - 0x200) ≡ q.ttbr half) (sym kept)
          (root_is_aligned m'.control.sysregs half) in
      elim (map_page-Inv w size before after target boot supplied m'.pmm s p vaddr l1 l2 page flags
        inv r two root_kept l1_kept l2_kept aligned fits) [
          | inl none_left ↦ inl none_left
          | inr (s', mapped, found, reached, stored) ↦ inr (
            s',
            mapped,
            found,
            processor_view-IsStored w m'.control.sysregs vaddr l1 l2 page flags s' h range fits (
                subst (λ (q : Pagemap). IsStored w (q.ttbr half) vaddr l1 l2 (page * 4096) flags s')
                  kept stored),
            reached,
          )
        ]
