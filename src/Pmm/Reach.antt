-- ===== src/Pmm/Reach.antt =====
-- Histories of the allocator: boot, then any mix of allocations, releases and the writes of those
-- who use the frames.
use vega_os.Base.{
  ℕ, ◌+◌, ◌-◌, ◌*◌, ◌/◌, ◌%◌, ◌^◌, ◌≤◌, ◌<◌, ◌≡◌, sym, ap, ◌∙◌, arith, u64, inl, inr, Bool-cases,
  ◌⊎◌, true, some, List, [], ◌∷◌, ◌++◌,
}
use mathlib.Core.Path.{subst}
use vega_os.Memory.{Mem, IsMapped, within}
use vega_os.Bitmap.Laws.{bitmap_test_bit_lem}
use vega_os.Base.Bits.{bit_at}
use vega_os.Outcome.{ok}
use vega_os.Pmm.State.{Entry, Window, Pmm}
use vega_os.Pmm.Setup.{init_bitmap}
use vega_os.Pmm.Frames.{pmm_alloc, pmm_free}
use vega_os.Pmm.FirstFit.{bit_of}
use vega_os.Pmm.Release.{pmm_free-frees, pmm_alloc_state}
use vega_os.Pmm.Cover.{is_covered, Fits}
use vega_os.Pmm.Init.{Initialised, placed_entries, init_bitmap-Initialised}
use vega_os.Pmm.Safety.{FreeCovered, pmm_alloc-FreeCovered, AreUsable, IsBootable}

-- A covered frame has a bit.
covered-lt :
    (size : ℕ) (entries : List Entry) (b : ℕ)
    → Fits size size entries
    → is_covered size entries b ≡ true
    → b < size * 8
covered-lt size [] b fits hit = cc
covered-lt size (e ∷ rest) b fits hit = ground (arith, fits.0, covered-lt size rest b fits.1)

module _ (w : Window) (size : ℕ) (before after : List Entry) (target : Entry) where
  abbrev placed : List Entry
  placed = placed_entries size before target after

  -- One step. Those who give frames back give usable ones; those who write, write outside the
  -- bitmap.
  pub data Step (s : Pmm) : Pmm → Type 0 where
    alloc : {t : Pmm} (frames address : ℕ) → pmm_alloc w frames s ≡ ok (address, t) → Step s t
    free :
        (ptr frames : ℕ)
        → 0 < frames
        → ptr + frames * 0x1000 < 2 ^ 64
        → ((j : ℕ) → within (ptr / 0x1000) frames j ≡ true → is_covered size placed j ≡ true)
        → Step s (pmm_free w ptr frames s)
    use_memory :
        (m : Mem)
        → ((q : ℕ) → within target.base size q ≡ true → m q ≡ s.mem q)
        → Step s (record s { mem = m })

  pub data Reach (s : Pmm) : Pmm → Type 0 where
    here : Reach s s
    next : {t u : Pmm} → Reach s t → Step t u → Reach s u

  -- The allocator is set up, and only usable frames are marked free.
  pub record Inv (t : Pmm) : Type 0 where
    pub mmap_resp : t.mmap_resp ≡ some placed
    pub bitmap : t.bitmap ≡ u64 (target.base + w.higher_half)
    pub started : 0 < t.bitmap_start_bit
    pub free_covered : FreeCovered w t size before after target t

  module _ (boot : IsBootable w size before after target) where
    bit_of-outside :
        (t : Pmm) (m : Mem) (b : ℕ)
        → t.bitmap ≡ u64 (target.base + w.higher_half)
        → ((q : ℕ) → within target.base size q ≡ true → m q ≡ t.mem q)
        → b < size * 8
        → bit_of w (record t { mem = m }) b ≡ bit_of w t b
    bit_of-outside t m b at same h =
        let is : IsMapped w.phys t.bitmap target.base size = rw at boot.mapped in
        bitmap_test_bit_lem w.phys t.bitmap target.base size b m is (omega arith)
        ∙ ap (λ (v : ℕ). bit_at v (b % 8)) (same (target.base + b / 8) (ground arith))
        ∙ sym (bitmap_test_bit_lem w.phys t.bitmap target.base size b t.mem is (omega arith))

    -- Frames that are all covered have their bits in the bitmap.
    covered-below :
        (first frames : ℕ)
        → 0 < frames
        → ((j : ℕ) → within first frames j ≡ true → is_covered size placed j ≡ true)
        → first + frames ≤ size * 8
    covered-below first frames positive usable = omega (
      arith,
      covered-lt size placed (first + frames - 1) boot.in_bitmap
          (usable (first + frames - 1) (ground arith)),
    )

    pmm_free-covered :
        (t : Pmm) (ptr frames : ℕ)
        → 0 < frames
        → ptr + frames * 0x1000 < 2 ^ 64
        → ((j : ℕ) → within (ptr / 0x1000) frames j ≡ true → is_covered size placed j ≡ true)
        → Inv t
        → (b : ℕ) → b < size * 8
        → bit_of w (pmm_free w ptr frames t) b ≡ 0
        → is_covered size placed b ≡ true
    pmm_free-covered t ptr frames positive fits usable inv b h zero_bit =
        let is : IsMapped w.phys t.bitmap target.base size = rw inv.bitmap boot.mapped in
        let freed =
          (pmm_free-frees w t target.base size ptr frames is fits
              (covered-below (ptr / 0x1000) frames positive usable)).0
            b h in
        elim (Bool-cases (within (ptr / 0x1000) frames b)) [
          | inl hit ↦ usable b hit
          | inr out ↦ inv.free_covered b h (ground (arith, out, freed, zero_bit))
        ]

    Step-Inv : {t u : Pmm} → Step t u → Inv t → Inv u
    unfolding pmm_free
    Step-Inv {t} (alloc frames address run) inv =
        subst Inv (sym (pmm_alloc_state w t frames address _ run)) inv
    Step-Inv {t} (free ptr frames positive fits usable) inv = record {
      mmap_resp = inv.mmap_resp;
      bitmap = inv.bitmap;
      started = inv.started;
      free_covered = pmm_free-covered t ptr frames positive fits usable inv;
    }
    Step-Inv {t} (use_memory m same) inv = record {
      mmap_resp = inv.mmap_resp;
      bitmap = inv.bitmap;
      started = inv.started;
      free_covered = λ b h zero_bit.
          inv.free_covered b h (sym (bit_of-outside t m b inv.bitmap same h) ∙ zero_bit);
    }

    pub Reach-Inv : {s t : Pmm} → Reach s t → Inv s → Inv t
    Reach-Inv here inv = inv
    Reach-Inv (next r step) inv = Step-Inv step (Reach-Inv r inv)

    -- init_bitmap establishes the invariant.
    pub Initialised-Inv :
        (s t : Pmm) (b : ℕ)
        → 0 < b
        → is_covered size placed b ≡ true
        → Initialised w s size before after target t
        → Inv t
    Initialised-Inv s t b positive covered i = record {
      mmap_resp = i.mmap_resp;
      bitmap = i.bitmap;
      started = i.start_found b positive covered;
      free_covered = λ j h zero_bit. ground (arith, i.bits j h, zero_bit);
    }

    -- What is answered where the invariant holds.
    pub pmm_alloc-Inv :
        (s t : Pmm) (frames : ℕ)
        → Inv t
        → 0 < frames
        → (address : ℕ) × (pmm_alloc w frames t ≡ ok (address, t))
          × ((address ≡ 0) ⊎ AreUsable w s size before after target address frames)
    pmm_alloc-Inv s t frames inv =
        pmm_alloc-FreeCovered w s size before after target boot t frames inv.mmap_resp inv.started
          inv.free_covered

    -- init_bitmap on a bootable map, whose entry for the bitmap starts at a page, with a usable frame
    -- other than 0 succeeds. In every state reached from its own by allocations, releases of usable
    -- frames and writes outside the bitmap, pmm_alloc of one frame or more returns: with 0, or with
    -- frames that init_bitmap counts to the usable entries and none of which holds a byte of the
    -- bitmap.
    pub pmm_alloc-Reach :
        (s : Pmm) (b : ℕ)
        → 0 < b
        → is_covered size placed b ≡ true
        → (first : Pmm) × (init_bitmap w (before ++ target ∷ after) s ≡ ok first)
          × ((t : Pmm) (frames : ℕ)
              → Reach first t
              → 0 < frames
              → (address : ℕ) × (pmm_alloc w frames t ≡ ok (address, t))
                × ((address ≡ 0) ⊎ AreUsable w s size before after target address frames))
    pmm_alloc-Reach s b positive covered =
        let (first, done, i) =
          init_bitmap-Initialised w s size before after target boot.mapped boot.no_room boot.room
            boot.sized boot.in_bitmap in
        let start = Initialised-Inv s first b positive covered i in
        (first, done, λ t frames r. pmm_alloc-Inv s t frames (Reach-Inv r start))
