-- ===== src/Mmu/Fresh.antt =====
-- Mapping an address whose last table is missing.
use vega_os.Base.{
  ℕ, ◌+◌, ◌-◌, ◌*◌, ◌^◌, ◌<◌, ◌≡◌, ◌≢◌, refl, sym, true, false, bit_and, ap, ap₂, ◌∙◌, inl, inr,
  arith,
}
use vega_os.Memory.{Mem, within}
use vega_os.Word64.{load64, store64_outside}
use vega_os.Outcome.{ok, ok-injective}
use vega_os.Pmm.State.{Window}
use vega_os.Mmu.State.{pte_addr_mask, Pagemap, Mmu}
use vega_os.Mmu.Walk.{ttbr_index, level_index, is_table, entry_at}
use vega_os.Mmu.Pages.{leaf, store_pte, invalidate_page, aarch64_translate_vaddr, aarch64_map_page}
use vega_os.Mmu.Tables.{Leads, next_level-Leads, map-Walk, translate-Walk}
use vega_os.Mmu.Roundtrip.{
  Apart, IsShown, Route, level_index-lt, entry_at-IsMapped, translate-map, translate-map_other,
}
use vega_os.Mmu.Link.{
  IsFresh, linked_state, Leads-linked, next_level-fresh, Leads-kept, load64-linked_cleared,
  linked_outside,
}

module _ (w : Window) where
  -- The first two tables on the way to `vaddr` exist, and the third does not.
  pub record HasTwo (mem : Mem) (root vaddr l1 l2 : ℕ) : Type 0 where
    pub first : Leads w mem root (level_index 39 vaddr) l1
    pub second : Leads w mem l1 (level_index 30 vaddr) l2
    pub third : is_table (load64 w.phys (entry_at w l2 (level_index 21 vaddr)) mem) ≡ false
    pub root_shown : IsShown w root
    pub l1_shown : IsShown w l1
    pub l2_shown : IsShown w l2
    pub l2_root : Apart l2 root
    pub l2_l1 : Apart l2 l1

  module _ (s : Mmu) (page : ℕ) (fresh : IsFresh w s page) where
    abbrev frame : ℕ
    frame = page * 4096

    module _ (p : Pagemap) (vaddr l1 l2 : ℕ) where
      abbrev root : ℕ
      root = p.ttbr (ttbr_index vaddr)

      module _ (two : HasTwo s.pmm.mem root vaddr l1 l2) (a0 : Apart frame root)
          (a1 : Apart frame l1) (a2 : Apart frame l2) where
        abbrev pub linked : Mmu
        linked =
            linked_state w s page fresh l2 (level_index 21 vaddr) two.l2_shown
              (level_index-lt 21 vaddr)

        pub linked-Route : Route w linked.pmm.mem root vaddr l1 l2 frame
        linked-Route = record {
          walk = record {
            first =
                Leads-kept w s page fresh l2 (level_index 21 vaddr) two.l2_shown
                  (level_index-lt 21 vaddr) root (level_index 39 vaddr) l1 two.root_shown
                  (level_index-lt 39 vaddr) a0 two.l2_root two.first;
            second =
                Leads-kept w s page fresh l2 (level_index 21 vaddr) two.l2_shown
                  (level_index-lt 21 vaddr) l1 (level_index 30 vaddr) l2 two.l1_shown
                  (level_index-lt 30 vaddr) a1 two.l2_l1 two.second;
            third =
                Leads-linked w s page fresh l2 (level_index 21 vaddr) two.l2_shown
                  (level_index-lt 21 vaddr);
          };
          root_shown = two.root_shown;
          l1_shown = two.l1_shown;
          l2_shown = two.l2_shown;
          l3_shown = fresh.shown;
        }

        map-fresh :
            (phys flags : ℕ)
            → aarch64_map_page w p vaddr phys flags s ≡ aarch64_map_page w p vaddr phys flags linked
        unfolding aarch64_map_page
        map-fresh phys flags =
            rw
              (
                next_level-Leads w root (level_index 39 vaddr) l1 true s two.first,
                next_level-Leads w l1 (level_index 30 vaddr) l2 true s two.second,
                next_level-fresh w s page fresh l2 (level_index 21 vaddr) two.l2_shown
                    (level_index-lt 21 vaddr) two.third,
              )
              (sym (map-Walk w p vaddr l1 l2 frame linked phys flags linked-Route.walk))

        abbrev pub linked_and_mapped : ℕ → ℕ → Mmu
        linked_and_mapped phys flags = store_pte w frame vaddr (leaf phys flags) linked

        pub map-fresh_state :
            (phys flags : ℕ)
            → aarch64_map_page w p vaddr phys flags s ≡ ok (linked_and_mapped phys flags)
        map-fresh_state phys flags =
            map-fresh phys flags
            ∙ map-Walk w p vaddr l1 l2 frame linked phys flags linked-Route.walk

        -- Only the new table and the one that leads to it change.
        pub map-fresh_outside :
            (phys flags q : ℕ)
            → within frame 4096 q ≡ false
            → within l2 4096 q ≡ false
            → (linked_and_mapped phys flags).pmm.mem q ≡ s.pmm.mem q
        unfolding store_pte invalidate_page
        map-fresh_outside phys flags q out out' =
            let k = level_index 12 vaddr in
            let near : k < 512 = level_index-lt 12 vaddr in
            store64_outside w.phys (entry_at w frame k) (frame + 8 * k) linked.pmm.mem
              (entry_at-IsMapped w frame k fresh.shown near) (leaf phys flags) q (ground arith)
            ∙ linked_outside w s page fresh l2 (level_index 21 vaddr) two.l2_shown
                (level_index-lt 21 vaddr) q out out'

        module _ (other : ℕ) (half : ttbr_index other ≡ ttbr_index vaddr)
            (same0 : level_index 39 other ≡ level_index 39 vaddr)
            (same1 : level_index 30 other ≡ level_index 30 vaddr)
            (same2 : level_index 21 other ≡ level_index 21 vaddr) where
          other-Route : Route w linked.pmm.mem (p.ttbr (ttbr_index other)) other l1 l2 frame
          other-Route = record {
            walk = record {
              first = rw (half, same0) linked-Route.walk.first;
              second = rw same1 linked-Route.walk.second;
              third = rw same2 linked-Route.walk.third;
            };
            root_shown = rw half two.root_shown;
            l1_shown = two.l1_shown;
            l2_shown = two.l2_shown;
            l3_shown = fresh.shown;
          }

          translate-other :
              (phys flags : ℕ) (s' : Mmu)
              → bit_and root (2 ^ 64 - 0x200) ≡ root
              → level_index 12 other ≢ level_index 12 vaddr
              → aarch64_map_page w p vaddr phys flags linked ≡ ok s'
              → aarch64_translate_vaddr w p other s' ≡ ok (0, s')
          translate-other phys flags s' aligned differs run =
              let aligned' : bit_and (p.ttbr (ttbr_index other)) (2 ^ 64 - 0x200)
                  ≡ p.ttbr (ttbr_index other) =
                rw half aligned in
              let (s2, address, run2, before, later) =
                translate-map_other w p vaddr l1 l2 frame linked other l1 l2 frame phys flags
                  aligned' linked-Route other-Route (rw half a0) a1 a2 (inr (refl, differs)) in
              let at_first : aarch64_translate_vaddr w p other linked ≡ ok (0, linked) =
                translate-Walk w p other l1 l2 frame linked aligned' other-Route.walk
                ∙ ap (λ (e : ℕ). ok (bit_and e pte_addr_mask, linked))
                    (load64-linked_cleared w s page fresh l2 (level_index 21 vaddr) two.l2_shown
                      (level_index-lt 21 vaddr) (level_index 12 other) (level_index-lt 12 other)
                      (inl (ground arith))) in
              let same_state : s2 ≡ s' = ok-injective (sym run2 ∙ run) in
              let nothing : address ≡ 0 =
                ap (λ (r : ℕ × Mmu). r.0) (ok-injective (sym before ∙ at_first)) in
              ap (λ (t : Mmu). aarch64_translate_vaddr w p other t) (sym same_state)
              ∙ later
              ∙ ap₂ (λ (a : ℕ) (t : Mmu). ok (a, t)) nothing same_state

  module _ (s : Mmu) (p : Pagemap) (vaddr l1 l2 : ℕ) where
    -- Mapping `vaddr` to a page below 2 ^ 48 when only its last table is missing succeeds, if the
    -- allocator answers with a frame other than 0 and below 2 ^ 48 that can be cleared, is shown by
    -- the kernel's window and is apart from the root and the two tables, which are shown, and the
    -- second apart from the others, and the root is aligned. Afterwards `vaddr` translates to
    -- exactly that page, and every other address that shares the new table, with another index in
    -- it, translates to 0, whatever the frame held before.
    pub translate-map_fresh :
        (frame page flags : ℕ)
        → let root = p.ttbr (ttbr_index vaddr) in
          IsFresh w s frame
          → HasTwo s.pmm.mem root vaddr l1 l2
          → Apart (frame * 4096) root
          → Apart (frame * 4096) l1
          → Apart (frame * 4096) l2
          → bit_and root (2 ^ 64 - 0x200) ≡ root
          → page < 2 ^ 36
          → (s' : Mmu) × (aarch64_map_page w p vaddr (page * 4096) flags s ≡ ok s')
            × (aarch64_translate_vaddr w p vaddr s' ≡ ok (page * 4096, s'))
            × ((other : ℕ)
                → ttbr_index other ≡ ttbr_index vaddr
                → level_index 39 other ≡ level_index 39 vaddr
                → level_index 30 other ≡ level_index 30 vaddr
                → level_index 21 other ≡ level_index 21 vaddr
                → level_index 12 other ≢ level_index 12 vaddr
                → aarch64_translate_vaddr w p other s' ≡ ok (0, s'))
    translate-map_fresh frame page flags fresh two a0 a1 a2 aligned h =
        let phys = page * 4096 in
        let s1 = linked s frame fresh p vaddr l1 l2 two a0 a1 a2 in
        let route = linked-Route s frame fresh p vaddr l1 l2 two a0 a1 a2 in
        let (s', run, found, flushed) =
          translate-map w p vaddr l1 l2 (frame * 4096) s1 route a0 a1 a2 aligned page flags h in
        (
          s',
          map-fresh s frame fresh p vaddr l1 l2 two a0 a1 a2 phys flags ∙ run,
          found,
          λ other half same0 same1 same2 differs.
              translate-other s frame fresh p vaddr l1 l2 two a0 a1 a2 other half same0 same1 same2
                phys flags s' aligned differs run,
        )
