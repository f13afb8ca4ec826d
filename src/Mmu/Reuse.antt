-- ===== src/Mmu/Reuse.antt =====
-- Mapping an address under an entry of the root that is missing, with three requests to the
-- allocator.
use vega_os.Base.{
  ℕ, ◌+◌, ◌-◌, ◌*◌, ◌^◌, ◌<◌, ◌≤◌, ◌≡◌, ◌≢◌, ◌⊎◌, refl, sym, arith, false, bit_and, ◌∙◌, inl, inr,
  some, List,
}
use vega_os.Memory.{IsMapped}
use vega_os.Word64.{load64, store64, store64_outside}
use vega_os.Outcome.{ok}
use vega_os.Pmm.State.{Entry, Window, Pmm}
use vega_os.Pmm.Size.{get_bitmap_size}
use vega_os.Pmm.Frames.{pmm_alloc}
use vega_os.Pmm.Same.{pmm_alloc-same}
use vega_os.Mmu.State.{Pagemap, Mmu}
use vega_os.Mmu.Walk.{ttbr_index, level_index, is_table, entry_at}
use vega_os.Mmu.Pages.{leaf, store_pte, invalidate_page, aarch64_translate_vaddr, aarch64_map_page}
use vega_os.Mmu.Tables.{Leads}
use vega_os.Mmu.Roundtrip.{
  Apart, IsShown, level_index-lt, entry_at-IsMapped, load64-stored, Leads-stored,
}
use vega_os.Mmu.Missing.{at_second, translate-Gap}
use vega_os.Mmu.Link.{
  IsFresh, linked_state, Leads-linked, next_level-fresh, Leads-kept, load64-linked_cleared,
  linked_outside,
}

zero_is_missing : {e : ℕ} → e ≡ 0 → is_table e ≡ false
unfolding is_table
zero_is_missing h = rw (h) refl

module _ (w : Window) where
  -- The allocator is set up with a bitmap of `size` bytes that is mapped at `p`.
  pub record HasBitmap (s : Pmm) (entries : List Entry) (size p : ℕ) : Type 0 where
    pub in_map : s.mmap_resp ≡ some entries
    pub sized : get_bitmap_size entries ≡ ok size
    pub mapped : IsMapped w.phys s.bitmap p size

  module _ (entries : List Entry) (size p page : ℕ) where
    abbrev frame : ℕ
    frame = page * 4096

    -- The bitmap shares no byte with the frame at `f`.
    abbrev pub Spares : ℕ → Type 0
    Spares f = (p + size ≤ f) ⊎ (f + 4096 ≤ p)

    -- The frame that was handed out is handed out again.
    linked-IsFresh :
        (s : Mmu) (fresh : IsFresh w s page) (l k : ℕ) (shown : IsShown w l) (k_lt : k < 512)
        → HasBitmap s.pmm entries size p
        → Spares frame
        → Spares l
        → IsFresh w (linked_state w s page fresh l k shown k_lt) page
    linked-IsFresh s fresh l k shown k_lt has spared spared' = record {
      answer =
          pmm_alloc-same w s.pmm (linked_state w s page fresh l k shown k_lt).pmm.mem entries size p
            1 frame has.in_map has.sized has.mapped
            (λ q hit. linked_outside w s page fresh l k shown k_lt q (ground arith) (ground arith))
            fresh.answer;
      nonzero = fresh.nonzero;
      small = fresh.small;
      direct = fresh.direct;
      shown = fresh.shown;
    }

    linked-HasBitmap :
        (s : Mmu) (fresh : IsFresh w s page) (l k : ℕ) (shown : IsShown w l) (k_lt : k < 512)
        → HasBitmap s.pmm entries size p
        → HasBitmap (linked_state w s page fresh l k shown k_lt).pmm entries size p
    linked-HasBitmap s fresh l k shown k_lt has = record {
      in_map = has.in_map;
      sized = has.sized;
      mapped = has.mapped;
    }

    module _ (s : Mmu) (pm : Pagemap) (vaddr : ℕ) (fresh : IsFresh w s page)
        (has : HasBitmap s.pmm entries size p) (spared : Spares frame) where
      abbrev root : ℕ
      root = pm.ttbr (ttbr_index vaddr)

      abbrev i1 : ℕ
      i1 = level_index 39 vaddr

      abbrev i2 : ℕ
      i2 = level_index 30 vaddr

      abbrev i3 : ℕ
      i3 = level_index 21 vaddr

      module _ (root_shown : IsShown w root) (root_spared : Spares root) where
        -- After the first, the second and the third step.
        abbrev s1 : Mmu
        s1 = linked_state w s page fresh root i1 root_shown (level_index-lt 39 vaddr)

        fresh1 : IsFresh w s1 page
        fresh1 =
            linked-IsFresh s fresh root i1 root_shown (level_index-lt 39 vaddr) has spared
              root_spared

        abbrev s2 : Mmu
        s2 = linked_state w s1 page fresh1 frame i2 fresh.shown (level_index-lt 30 vaddr)

        fresh2 : IsFresh w s2 page
        fresh2 =
            linked-IsFresh s1 fresh1 frame i2 fresh.shown (level_index-lt 30 vaddr)
              (linked-HasBitmap s fresh root i1 root_shown (level_index-lt 39 vaddr) has) spared
              spared

        abbrev s3 : Mmu
        s3 = linked_state w s2 page fresh2 frame i3 fresh.shown (level_index-lt 21 vaddr)

        fresh3 : IsFresh w s3 page
        fresh3 =
            linked-IsFresh s2 fresh2 frame i3 fresh.shown (level_index-lt 21 vaddr)
              (linked-HasBitmap s1 fresh1 frame i2 fresh.shown (level_index-lt 30 vaddr)
                (linked-HasBitmap s fresh root i1 root_shown (level_index-lt 39 vaddr) has))
              spared spared

        -- An entry stored in the frame does not change the allocator's answer.
        stored-answer :
            (value : ℕ)
            → pmm_alloc w 1 (store_pte w frame vaddr value s3).pmm
              ≡ ok (frame, (store_pte w frame vaddr value s3).pmm)
        unfolding store_pte invalidate_page
        stored-answer value =
            let k = level_index 12 vaddr in
            pmm_alloc-same w s3.pmm (store_pte w frame vaddr value s3).pmm.mem entries size p 1
              frame has.in_map has.sized has.mapped
              (λ q hit.
                store64_outside w.phys (entry_at w frame k) (frame + 8 * k) s3.pmm.mem
                  (entry_at-IsMapped w frame k fresh.shown (level_index-lt 12 vaddr)) value q
                  (ground (arith, level_index-lt 12 vaddr)))
              fresh3.answer

        module _ (a0 : Apart frame root) (differ : i2 ≢ i3)
            (missing : is_table (load64 w.phys (entry_at w root i1) s.pmm.mem) ≡ false) where
          reuse-map :
              (phys flags : ℕ)
              → aarch64_map_page w pm vaddr phys flags s
                ≡ ok (store_pte w frame vaddr (leaf phys flags) s3)
          unfolding aarch64_map_page
          reuse-map phys flags =
              let second =
                load64-linked_cleared w s page fresh root i1 root_shown (level_index-lt 39 vaddr) i2
                  (level_index-lt 30 vaddr) (inl (ground arith)) in
              let third =
                load64-linked_cleared w s1 page fresh1 frame i2 fresh.shown
                  (level_index-lt 30 vaddr) i3 (level_index-lt 21 vaddr)
                  (inr (refl, λ e. differ (sym e))) in
              rw
                (
                  next_level-fresh w s page fresh root i1 root_shown (level_index-lt 39 vaddr)
                      missing,
                  next_level-fresh w s1 page fresh1 frame i2 fresh.shown (level_index-lt 30 vaddr)
                      (zero_is_missing second),
                  next_level-fresh w s2 page fresh2 frame i3 fresh.shown (level_index-lt 21 vaddr)
                      (zero_is_missing third),
                )
                refl

          root-Leads : Leads w s3.pmm.mem root i1 frame
          root-Leads =
              Leads-kept w s2 page fresh2 frame i3 fresh.shown (level_index-lt 21 vaddr) root i1
                frame root_shown (level_index-lt 39 vaddr) a0 a0
                (Leads-kept w s1 page fresh1 frame i2 fresh.shown (level_index-lt 30 vaddr) root i1
                  frame root_shown (level_index-lt 39 vaddr) a0 a0
                  (Leads-linked w s page fresh root i1 root_shown (level_index-lt 39 vaddr)))

          second_is_missing :
              (value : ℕ)
              → i2 ≢ level_index 12 vaddr
              → is_table (
                  load64 w.phys
                    (entry_at w frame i2)
                    (store64 w.phys (entry_at w frame (level_index 12 vaddr)) value s3.pmm.mem))
                ≡ false
          second_is_missing value other = zero_is_missing (
              load64-stored w s3.pmm.mem frame (level_index 12 vaddr) value fresh.shown
                (level_index-lt 12 vaddr) frame i2 fresh.shown (level_index-lt 30 vaddr)
                (inr (refl, other))
              ∙ load64-linked_cleared w s2 page fresh2 frame i3 fresh.shown
                  (level_index-lt 21 vaddr) i2 (level_index-lt 30 vaddr) (inr (refl, differ)))

  module _ (s : Mmu) (pm : Pagemap) (vaddr : ℕ) where
    -- Mapping `vaddr` when its entry in the root is no table, with its second index different from
    -- the third and the fourth: map reports success, but afterwards `vaddr` translates to 0, and the
    -- allocator answers the next request with the frame to which the root's entry now leads.
    -- Before, it answers with the frame of `page`, which is not 0, is below 2 ^ 48, can be cleared
    -- and is shown by the kernel's window; its bitmap is mapped and shares no byte with that frame
    -- and the root, which is apart from the frame, shown and aligned.
    pub translate-map_reuse :
        (entries : List Entry) (size p page phys flags : ℕ)
        → let root = pm.ttbr (ttbr_index vaddr) in
          IsFresh w s page
          → HasBitmap s.pmm entries size p
          → Spares entries size p page (page * 4096)
          → Spares entries size p page root
          → IsShown w root
          → Apart (page * 4096) root
          → bit_and root (2 ^ 64 - 0x200) ≡ root
          → is_table (load64 w.phys (entry_at w root (level_index 39 vaddr)) s.pmm.mem) ≡ false
          → level_index 30 vaddr ≢ level_index 21 vaddr
          → level_index 30 vaddr ≢ level_index 12 vaddr
          → (s' : Mmu) × (t : Mmu) × (aarch64_map_page w pm vaddr phys flags s ≡ ok s')
            × (aarch64_translate_vaddr w pm vaddr s' ≡ ok (0, t))
            × (pmm_alloc w 1 s'.pmm ≡ ok (page * 4096, s'.pmm))
            × Leads w s'.pmm.mem root (level_index 39 vaddr) (page * 4096)
    unfolding store_pte invalidate_page
    translate-map_reuse entries size p page phys flags fresh has spared root_spared root_shown a0
          aligned missing differ other =
        let value = leaf phys flags in
        let root = pm.ttbr (ttbr_index vaddr) in
        let last = s3 entries size p page s pm vaddr fresh has spared root_shown root_spared in
        let s' = store_pte w (page * 4096) vaddr value last in
        let leads =
          Leads-stored w last.pmm.mem (page * 4096) (level_index 12 vaddr) value fresh.shown
            (level_index-lt 12 vaddr) root (level_index 39 vaddr) (page * 4096) root_shown
            (level_index-lt 39 vaddr) a0
            (root-Leads entries size p page s pm vaddr fresh has spared root_shown root_spared a0
              differ missing) in
        let gap =
          second_is_missing entries size p page s pm vaddr fresh has spared root_shown root_spared
            a0 differ missing value other in
        let (t, nothing, same, flushed) =
          translate-Gap w pm vaddr s' aligned (at_second (page * 4096) leads gap) in
        (
          s',
          t,
          reuse-map entries size p page s pm vaddr fresh has spared root_shown root_spared a0 differ
              missing phys flags,
          nothing,
          stored-answer entries size p page s pm vaddr fresh has spared root_shown root_spared
              value,
          leads,
        )
