-- ===== src/Mmu/Supply.antt =====
-- New tables from the frame allocator: mapping an address is one of the allocator's histories.
use mathlib.Core.Path.{subst}
use vega_os.Base.{
  ℕ, ◌-◌, ◌*◌, ◌/◌, ◌%◌, ◌^◌, ◌<◌, ◌≤◌, ◌≡◌, ◌≢◌, ◌⊎◌, inl, inr, sym, ap, ◌∙◌, arith, true, false,
  List, ◌∷◌, ◌++◌, bit_and,
}
use vega_os.Memory.{IsMapped, within}
use vega_os.Outcome.{ok, ok-injective}
use vega_os.Pmm.State.{Entry, Window, Pmm}
use vega_os.Pmm.Size.{get_bitmap_size-bounds}
use vega_os.Pmm.Frames.{pmm_alloc}
use vega_os.Pmm.Cover.{is_covered}
use vega_os.Pmm.Init.{placed_entries}
use vega_os.Pmm.Safety.{IsBootable, pmm_alloc-IsPage}
use vega_os.Pmm.Reach.{alloc, use_memory, next, Reach, Inv, Reach-Inv}
use vega_os.Mmu.State.{Pagemap, Mmu}
use vega_os.Mmu.Walk.{ttbr_index}
use vega_os.Mmu.Pages.{store_pte, invalidate_page, aarch64_translate_vaddr, aarch64_map_page}
use vega_os.Mmu.Roundtrip.{Apart, IsShown}
use vega_os.Mmu.Link.{IsFresh}
use vega_os.Mmu.Processor.{IsStored}
use vega_os.Mmu.Fresh.{
  HasTwo, linked, linked-Route, linked_and_mapped, map-fresh_state, map-fresh_outside,
  translate-map_fresh,
}

module _ (w : Window) (size : ℕ) (before after : List Entry) (target : Entry) where
  abbrev placed : List Entry
  placed = placed_entries size before target after

  -- The frames that the allocator may hand out lie below 2 ^ 48, and the boot loader's tables show
  -- each of them twice: at its own address and in the kernel's window.
  pub record IsSupplied : Type 0 where
    pub small : size ≤ 2 ^ 33
    pub direct :
        (page : ℕ)
        → is_covered size placed page ≡ true
        → IsMapped w.phys (page * 4096) (page * 4096) 4096
    pub shown : (page : ℕ) → is_covered size placed page ≡ true → IsShown w (page * 4096)

  -- The table at `f` lies in a page that is no usable frame and holds no part of the bitmap.
  pub record IsReserved (f : ℕ) : Type 0 where
    pub whole : f % 4096 ≡ 0
    pub uncovered : is_covered size placed (f / 4096) ≡ false
    pub spared : within (target.base / 4096) (size / 4096) (f / 4096) ≡ false

  IsReserved-Apart :
      (f page : ℕ) → IsReserved f → is_covered size placed page ≡ true → Apart (page * 4096) f
  IsReserved-Apart f page is covered =
      let differ : page ≢ f / 4096 = λ e.
        let same : is_covered size placed page ≡ is_covered size placed (f / 4096) =
          ap (is_covered size placed) e in
        cc in
      ground (arith, is.whole)

  Nat-cases : (n : ℕ) → (n ≡ 0) ⊎ (0 < n)
  Nat-cases n = ground arith

  module _ (boot : IsBootable w size before after target) (supplied : IsSupplied) where
    -- The bitmap's bytes are not in a page that is apart from the bitmap's.
    outside_bitmap :
        (f q : ℕ)
        → f % 4096 ≡ 0
        → within (target.base / 4096) (size / 4096) (f / 4096) ≡ false
        → within target.base size q ≡ true
        → within f 4096 q ≡ false
    outside_bitmap f q whole spared hit =
        let pages : size % 0x1000 ≡ 0 =
          (get_bitmap_size-bounds (before ++ target ∷ after) size boot.sized).0 in
        ground (arith, boot.aligned)

    supply :
        (s : Mmu)
        → Inv w size before after target s.pmm
        → (pmm_alloc w 1 s.pmm ≡ ok (0, s.pmm))
          ⊎ ((page : ℕ) × IsFresh w s page
              × (is_covered size placed page ≡ true)
              × (within (target.base / 4096) (size / 4096) page ≡ false))
    supply s inv =
        let (page, run, cases) =
          pmm_alloc-IsPage w s.pmm size before after target boot s.pmm 1 inv.mmap_resp inv.started
            inv.free_covered (omega arith) in
        elim (Nat-cases page) [
          | inl none_left ↦ inl (run ∙ ap (λ (a : ℕ). ok (a * 0x1000, s.pmm)) none_left)
          | inr positive ↦ elim cases [
            | inl none_left ↦ absurd (omega arith)
            | inr (below, usable) ↦
                let (covered, bytes) = usable page (ground arith) in
                let pages : size % 0x1000 ≡ 0 =
                  (get_bitmap_size-bounds (before ++ target ∷ after) size boot.sized).0 in
                let first_byte = bytes (page * 0x1000) (ground arith) in
                let spared : within (target.base / 4096) (size / 4096) page ≡ false =
                  ground (arith, boot.aligned) in
                inr (
                  page,
                  record {
                    answer = run;
                    nonzero = positive;
                    small = omega (arith, supplied.small);
                    direct = supplied.direct page covered;
                    shown = supplied.shown page covered;
                  },
                  covered,
                  spared,
                )
          ]
        ]

    module _ (first : Pmm) (s : Mmu) (p : Pagemap) (vaddr l1 l2 page : ℕ) where
      abbrev root : ℕ
      root = p.ttbr (ttbr_index vaddr)

      module _ (fresh : IsFresh w s page) (two : HasTwo w s.pmm.mem root vaddr l1 l2)
          (a0 : Apart (page * 4096) root) (a1 : Apart (page * 4096) l1)
          (a2 : Apart (page * 4096) l2) where
        abbrev mapped : ℕ → ℕ → Mmu
        mapped phys flags = linked_and_mapped w s page fresh p vaddr l1 l2 two a0 a1 a2 phys flags

        mapped-Reach :
            (phys flags : ℕ)
            → ((q : ℕ) → within target.base size q ≡ true → within (page * 4096) 4096 q ≡ false)
            → ((q : ℕ) → within target.base size q ≡ true → within l2 4096 q ≡ false)
            → Reach w size before after target first s.pmm
            → Reach w size before after target first (mapped phys flags).pmm
        unfolding store_pte invalidate_page
        mapped-Reach phys flags out out' r = next (next r (alloc 1 (page * 4096) fresh.answer)) (
            use_memory (mapped phys flags).pmm.mem (λ q hit.
              map-fresh_outside w s page fresh p vaddr l1 l2 two a0 a1 a2 phys flags q (out q hit)
                (out' q hit)))

    -- Mapping from a state that is reached from one in which the allocator's invariant holds.
    pub map_page-Inv :
        (first : Pmm) (s : Mmu) (p : Pagemap) (vaddr l1 l2 page flags : ℕ)
        → let root = p.ttbr (ttbr_index vaddr) in
          Inv w size before after target first
          → Reach w size before after target first s.pmm
          → HasTwo w s.pmm.mem root vaddr l1 l2
          → IsReserved root
          → IsReserved l1
          → IsReserved l2
          → bit_and root (2 ^ 64 - 0x200) ≡ root
          → page < 2 ^ 36
          → (pmm_alloc w 1 s.pmm ≡ ok (0, s.pmm))
            ⊎ ((s' : Mmu) × (aarch64_map_page w p vaddr (page * 4096) flags s ≡ ok s')
                × (aarch64_translate_vaddr w p vaddr s' ≡ ok (page * 4096, s'))
                × Reach w size before after target first s'.pmm
                × IsStored w root vaddr l1 l2 (page * 4096) flags s')
    map_page-Inv first s p vaddr l1 l2 page flags inv r two root_kept l1_kept l2_kept aligned h =
        elim (supply s (Reach-Inv w size before after target boot r inv)) [
          | inl none_left ↦ inl none_left
          | inr (frame, fresh, covered', spared) ↦
              let a0 = IsReserved-Apart (p.ttbr (ttbr_index vaddr)) frame root_kept covered' in
              let a1 = IsReserved-Apart l1 frame l1_kept covered' in
              let a2 = IsReserved-Apart l2 frame l2_kept covered' in
              let (s', run, found, others) =
                translate-map_fresh w s p vaddr l1 l2 frame page flags fresh two a0 a1 a2 aligned
                  h in
              let state : mapped first s p vaddr l1 l2 frame fresh two a0 a1 a2 (page * 4096) flags
                  ≡ s' =
                ok-injective (
                  sym
                    (map-fresh_state w s frame fresh p vaddr l1 l2 two a0 a1 a2 (page * 4096) flags)
                  ∙ run) in
              let reached =
                mapped-Reach first s p vaddr l1 l2 frame fresh two a0 a1 a2 (page * 4096) flags
                  (λ q hit. outside_bitmap (frame * 4096) q (omega arith) (ground arith) hit)
                  (λ q hit. outside_bitmap l2 q l2_kept.whole l2_kept.spared hit) r in
              inr (
                s',
                run,
                found,
                subst (λ (u : Mmu). Reach w size before after target first u.pmm) state reached,
                record {
                  last_table = frame * 4096;
                  earlier = linked w s frame fresh p vaddr l1 l2 two a0 a1 a2;
                  stored = state;
                  route = linked-Route w s frame fresh p vaddr l1 l2 two a0 a1 a2;
                  root_apart = a0;
                  l1_apart = a1;
                  l2_apart = a2;
                },
              )
        ]
