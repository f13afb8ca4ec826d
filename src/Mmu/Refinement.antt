-- ===== src/Mmu/Refinement.antt =====
-- Any sequence of mappings and unmappings under one last table, against what the processor sees.
use vega_os.Base.{
  ℕ, ◌-◌, ◌*◌, ◌+◌, ◌%◌, ◌^◌, ◌<◌, ◌≤◌, ◌≡◌, ◌≢◌, ◌⊎◌, refl, sym, ap, ◌∙◌, arith, bit_and, inl, inr,
  Bool-cases, ◌==◌, if◌then◌else◌, List, [], ◌∷◌, Option, some, none,
}
use vega_os.Memory.{Mem}
use vega_os.Word64.{load64, load64-store64}
use vega_os.Outcome.{Outcome, ok, ◌>>=◌}
use vega_os.Pmm.State.{Window}
use vega_os.Mmu.State.{pte_addr_mask, Pagemap, Mmu}
use vega_os.Mmu.Walk.{ttbr_index, level_index, entry_at}
use vega_os.Mmu.Pages.{leaf, store_pte, invalidate_page}
use vega_os.Mmu.Registers.{Registers, aarch64_get_pagemap}
use vega_os.Mmu.Entries.{leaf-lt, leaf-address}
use vega_os.Mmu.Tables.{map-Walk, unmap-Walk}
use vega_os.Mmu.Roundtrip.{Route, level_index-lt, entry_at-IsMapped, load64-stored}
use vega_os.Mmu.History.{
  Operation, map_page, unmap_page, run_all, IsUnder, AreUnder, IsLaidOut, Represents, under-Walk,
  store_pte-Represents,
}
use vega_os.Mmu.Architecture.{View, view, processor_view}
use vega_os.Mmu.View.{
  descriptor-entry_at, table_walk-Route, table_walk-page, page_view, leaf-is_page, view-leaf,
  processor_view-root,
}

-- What an address is seen as after some operations, from what it was seen as before: the last
-- operation on its index decides.
abbrev pub seen_after : List Operation → ℕ → Option View → Option View
seen_after [] vaddr before = before
seen_after (map_page v page flags ∷ rest) vaddr before =
    seen_after rest vaddr (
      if level_index 12 vaddr == level_index 12 v
      then some (page_view page flags vaddr)
      else before)
seen_after (unmap_page v ∷ rest) vaddr before =
    seen_after rest vaddr (if level_index 12 vaddr == level_index 12 v then none else before)

-- An entry of the last table.
abbrev entry_view : ℕ → ℕ → Option View
entry_view e vaddr = if e % 4 == 3 then view e 12 vaddr else none

entry_view-leaf :
    (page flags vaddr : ℕ)
    → page < 2 ^ 36
    → entry_view (leaf (page * 4096) flags) vaddr ≡ some (page_view page flags vaddr)
entry_view-leaf page flags vaddr h = rw (leaf-is_page page flags h) (view-leaf page flags vaddr h)

module _ (w : Window) (r : Registers) (half i1 i2 i3 l1 l2 l3 : ℕ) where
  abbrev p : Pagemap
  p = aarch64_get_pagemap r

  -- Under the tables, and walked by the kernel and the processor from one root.
  pub record IsSeen (vaddr : ℕ) : Type 0 where
    pub under : IsUnder half i1 i2 i3 vaddr
    pub fits : vaddr < 2 ^ 64
    pub range : (vaddr < 2 ^ 37) ⊎ (2 ^ 64 - 2 ^ 48 ≤ vaddr)

  module _ (laid : IsLaidOut w p half i1 i2 i3 l1 l2 l3) where
    under-Route :
        (s : Mmu) (f : ℕ → ℕ) (vaddr : ℕ)
        → Represents w p half i1 i2 i3 l1 l2 l3 s f
        → IsUnder half i1 i2 i3 vaddr
        → Route w s.pmm.mem (p.ttbr (ttbr_index vaddr)) vaddr l1 l2 l3
    under-Route s f vaddr rep under = record {
      walk = under-Walk w p half i1 i2 i3 l1 l2 l3 s f vaddr rep under;
      root_shown = rw (under.half_is) laid.root_shown;
      l1_shown = laid.l1_shown;
      l2_shown = laid.l2_shown;
      l3_shown = laid.l3_shown;
    }

    processor_view-entry :
        (mem : Mem) (vaddr : ℕ)
        → IsSeen vaddr
        → Route w mem (p.ttbr (ttbr_index vaddr)) vaddr l1 l2 l3
        → processor_view r mem vaddr
          ≡ entry_view (load64 w.phys (entry_at w l3 (level_index 12 vaddr)) mem) vaddr
    processor_view-entry mem vaddr seen route =
        processor_view-root r mem vaddr seen.fits seen.range
        ∙ table_walk-Route w mem (p.ttbr (ttbr_index vaddr)) vaddr l1 l2 l3 route
        ∙ table_walk-page mem vaddr l3 (load64 w.phys (entry_at w l3 (level_index 12 vaddr)) mem)
            (descriptor-entry_at w mem l3 12 vaddr laid.l3_shown)

    -- One store changes what is seen of its own index, and of no other.
    processor_view-step :
        (s : Mmu) (f : ℕ → ℕ) (v value page vaddr : ℕ)
        → Represents w p half i1 i2 i3 l1 l2 l3 s f
        → IsUnder half i1 i2 i3 v
        → value < 2 ^ 64
        → bit_and value pte_addr_mask ≡ page
        → IsSeen vaddr
        → processor_view r (store_pte w l3 v value s).pmm.mem vaddr ≡ (
            if level_index 12 vaddr == level_index 12 v
            then entry_view value vaddr
            else processor_view r s.pmm.mem vaddr)
    unfolding store_pte invalidate_page
    processor_view-step s f v value page vaddr rep under small masked seen =
        let next =
          store_pte-Represents w p half i1 i2 i3 l1 l2 l3 s f v rep under value page laid small
            masked in
        let t = store_pte w l3 v value s in
        let after =
          processor_view-entry t.pmm.mem vaddr seen (under-Route t _ vaddr next seen.under) in
        elim (Bool-cases (level_index 12 vaddr == level_index 12 v)) [
          | inl e ↦
              let here : level_index 12 vaddr ≡ level_index 12 v = ground (arith, e) in
              let stored =
                load64-store64 w.phys (entry_at w l3 (level_index 12 v)) (l3 + 8 * level_index 12 v)
                  s.pmm.mem
                  (entry_at-IsMapped w l3 (level_index 12 v) laid.l3_shown (level_index-lt 12 v))
                  value small in
              rw (e) (
                after
                ∙ ap (λ (k : ℕ). entry_view (load64 w.phys (entry_at w l3 k) t.pmm.mem) vaddr) here
                ∙ ap (λ (d : ℕ). entry_view d vaddr) stored)
          | inr e ↦
              let other : level_index 12 vaddr ≢ level_index 12 v = ground (arith, e) in
              let kept =
                load64-stored w s.pmm.mem l3 (level_index 12 v) value laid.l3_shown
                  (level_index-lt 12 v) l3 (level_index 12 vaddr) laid.l3_shown
                  (level_index-lt 12 vaddr) (inr (refl, other)) in
              let before =
                processor_view-entry s.pmm.mem vaddr seen (under-Route s f vaddr rep seen.under) in
              rw (e) (after ∙ ap (λ (d : ℕ). entry_view d vaddr) kept ∙ sym before)
        ]

    -- Any sequence of mappings to pages below 2 ^ 48 and of unmappings succeeds, of addresses that
    -- share their root and their three tables, which are linked and shown by the kernel's window,
    -- the root aligned and the last table apart from the others, where the page map is that of the
    -- processor's registers. Afterwards a processor that walks the tables finds, for each such
    -- address of 64 bits that is below 2 ^ 37 or in the upper 2 ^ 48 addresses, the page and the
    -- permissions that the last operation on its index gave it, nothing if that was an unmapping,
    -- and what it found before if there was none.
    pub run_all-seen_after :
        (ops : List Operation) (s : Mmu) (f : ℕ → ℕ)
        → AreUnder half i1 i2 i3 ops
        → Represents w p half i1 i2 i3 l1 l2 l3 s f
        → (t : Mmu) × (run_all w p ops s ≡ ok t)
          × ((vaddr : ℕ)
              → IsSeen vaddr
              → processor_view r t.pmm.mem vaddr
                ≡ seen_after ops vaddr (processor_view r s.pmm.mem vaddr))
    unfolding run_all
    run_all-seen_after [] s f under rep = (s, refl, λ vaddr seen. refl)
    run_all-seen_after (map_page v page flags ∷ rest) s f under rep =
        let value = leaf (page * 4096) flags in
        let small = leaf-lt flags (page * 4096) (omega (arith, under.1)) in
        let address : bit_and value pte_addr_mask ≡ page * 4096 =
          leaf-address flags (page * 4096) ∙ omega (arith, under.1) in
        let next =
          store_pte-Represents w p half i1 i2 i3 l1 l2 l3 s f v rep under.0 value (page * 4096) laid
            small address in
        let (t, run, sees) = run_all-seen_after rest (store_pte w l3 v value s) _ under.2 next in
        let first =
          map-Walk w p v l1 l2 l3 s (page * 4096) flags
            (under-Walk w p half i1 i2 i3 l1 l2 l3 s f v rep under.0) in
        (
          t,
          ap (λ (o : Outcome Mmu). o >>= run_all w p rest) first ∙ run,
          λ vaddr seen.
              sees vaddr seen
              ∙ ap (seen_after rest vaddr) (
                  processor_view-step s f v value (page * 4096) vaddr rep under.0 small address seen
                  ∙ ap
                      (λ (o : Option View).
                        if level_index 12 vaddr == level_index 12 v
                        then o
                        else processor_view r s.pmm.mem vaddr)
                      (entry_view-leaf page flags vaddr under.1)),
        )
    run_all-seen_after (unmap_page v ∷ rest) s f under rep =
        let next =
          store_pte-Represents w p half i1 i2 i3 l1 l2 l3 s f v rep under.0 0 0 laid (omega arith)
            refl in
        let (t, run, sees) = run_all-seen_after rest (store_pte w l3 v 0 s) _ under.1 next in
        let first =
          unmap-Walk w p v l1 l2 l3 s (under-Walk w p half i1 i2 i3 l1 l2 l3 s f v rep under.0) in
        (
          t,
          ap (λ (o : Outcome Mmu). o >>= run_all w p rest) first ∙ run,
          λ vaddr seen.
              sees vaddr seen
              ∙ ap (seen_after rest vaddr)
                  (processor_view-step s f v 0 0 vaddr rep under.0 (omega arith) refl seen),
        )
