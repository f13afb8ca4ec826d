-- ===== src/Pmm/Safety.antt =====
-- Booting the allocator and then asking it for frames: what it may hand out.
use vega_os.Base.{
  ℕ, ◌+◌, ◌*◌, ◌/◌, ◌%◌, ◌^◌, ◌≤◌, ◌<◌, ◌≡◌, refl, arith, u64, ◌∙◌, ap, ◌||◌, true, false, List, [],
  ◌∷◌, ◌++◌, inl, inr, ◌⊎◌, some, ◌-◌,
}
use mathlib.Core.Path.{subst}
use vega_os.Memory.{IsMapped, within}
use vega_os.Outcome.{ok}
use vega_os.Pmm.State.{Entry, Window, Pmm, usable}
use vega_os.Pmm.Size.{get_bitmap_size, get_bitmap_size-bounds}
use vega_os.Pmm.Setup.{is_roomy, carve}
use vega_os.Pmm.Frames.{pmm_alloc}
use vega_os.Pmm.FirstFit.{Found, bit_of, pmm_alloc-FirstFit}
use vega_os.Pmm.Cover.{page_count, is_covered, Fits}
use vega_os.Pmm.Init.{NoneRoomy, placed_entries}
use vega_os.Pmm.Stable.{AllAway, get_bitmap_size-stable}

module _ (size : ℕ) (target : Entry) where
  -- No roomy entry shares a page with the `size` bytes that `target` gives away.
  abbrev pub AllApart : List Entry → Type 0
  AllApart [] = Unit {0}
  AllApart (e ∷ rest) =
      (is_roomy size e ≡ true
        → (e.base / 0x1000 + page_count e.length ≤ target.base / 0x1000)
          ⊎ (target.base / 0x1000 + size / 0x1000 ≤ e.base / 0x1000))
      × AllApart rest

  is_covered-Apart :
      (entries : List Entry) (b : ℕ)
      → AllApart entries
      → within (target.base / 0x1000) (size / 0x1000) b ≡ true
      → is_covered size entries b ≡ false
  is_covered-Apart [] b apart hit = refl
  is_covered-Apart (e ∷ rest) b apart hit =
      ground (arith, is_covered-Apart rest b apart.1 hit, apart.0)

  is_covered-append :
      (xs ys : List Entry) (b : ℕ)
      → is_covered size (xs ++ ys) b ≡ (is_covered size xs b || is_covered size ys b)
  is_covered-append [] ys b = refl
  is_covered-append (x ∷ xs) ys b = ground (arith, is_covered-append xs ys b)

  module _ (whole : size % 0x1000 ≡ 0) (fits : target.base + size < 2 ^ 64) where
    carve-apart :
        (b : ℕ)
        → within (target.base / 0x1000) (size / 0x1000) b ≡ true
        → within ((carve size target).base / 0x1000) (page_count (carve size target).length) b
          ≡ false
    unfolding carve
    carve-apart b hit = ground arith

    -- The frames of the bitmap itself are not covered.
    pub placed-apart :
        (before after : List Entry) (b : ℕ)
        → AllApart before
        → AllApart after
        → within (target.base / 0x1000) (size / 0x1000) b ≡ true
        → is_covered size (placed_entries size before target after) b ≡ false
    placed-apart before after b apart_before apart_after hit = ground (
      arith,
      is_covered-append before (carve size target ∷ after) b,
      is_covered-Apart before b apart_before hit,
      is_covered-Apart after b apart_after hit,
      carve-apart b hit,
    )

module _ (w : Window) (s : Pmm) (size : ℕ) (before after : List Entry) (target : Entry) where
  -- What may be handed out: frames that the usable entries cover, and none with a byte of the bitmap,
  -- which lies in the `size` bytes from the base of `target` on.
  abbrev pub AreUsable : ℕ → ℕ → Type 0
  AreUsable address frames =
      (j : ℕ)
      → within (address / 0x1000) frames j ≡ true
      → (is_covered size (placed_entries size before target after) j ≡ true)
        × ((q : ℕ) → within (j * 0x1000) 0x1000 q ≡ true → within target.base size q ≡ false)

  -- The bitmap of `t` marks only covered frames as free.
  abbrev pub FreeCovered : Pmm → Type 0
  FreeCovered t =
      (b : ℕ)
      → b < size * 8
      → bit_of w t b ≡ 0
      → is_covered size (placed_entries size before target after) b ≡ true

  Found-AreUsable :
      (t : Pmm) (frames address : ℕ)
      → FreeCovered t
      → size % 0x1000 ≡ 0
      → target.base % 0x1000 ≡ 0
      → target.base + size < 2 ^ 64
      → AllApart size target before
      → AllApart size target after
      → Found w t (size * 8) frames address
      → AreUsable address frames
  Found-AreUsable t frames address free_covered whole aligned fits apart_before apart_after found j
        hit =
      (covered, λ q hit'. ground (arith, apart, whole, aligned))
    where
      in_run : bit_of w t j ≡ 0
      in_run =
          let place : j ≡ found.bit + (j - found.bit) = ground (arith, found.address_eq) in
          ap (bit_of w t) place ∙ found.run (j - found.bit) (ground (arith, found.address_eq))

      covered : is_covered size (placed_entries size before target after) j ≡ true
      covered = free_covered j (ground (arith, found.below, found.address_eq)) in_run

      apart : within (target.base / 0x1000) (size / 0x1000) j ≡ false
      apart = ground (
        arith,
        covered,
        placed-apart size target whole fits before after j apart_before apart_after,
      )

pub roomy_parts :
    (size : ℕ) (e : Entry) → is_roomy size e ≡ true → (e.type ≡ usable) × (size ≤ e.length)
unfolding is_roomy
roomy_parts size e room = ground arith

-- A memory map, split at its first roomy entry, that the allocator can be booted from: this entry
-- starts at a page.
pub record IsBootable (w : Window) (size : ℕ) (before after : List Entry) (target : Entry)
    : Type 0 where
  pub no_room : NoneRoomy size before
  pub room : is_roomy size target ≡ true
  pub sized : get_bitmap_size (before ++ target ∷ after) ≡ ok size
  pub mapped : IsMapped w.phys (u64 (target.base + w.higher_half)) target.base size
  pub aligned : target.base % 0x1000 ≡ 0
  pub ends : target.base + size < 2 ^ 64
  pub in_bitmap : Fits size size (placed_entries size before target after)
  pub apart_before : AllApart size target before
  pub apart_after : AllApart size target after
  pub away_before : AllAway size target before
  pub away_after : AllAway size target after

module _ (w : Window) (s : Pmm) (size : ℕ) (before after : List Entry) (target : Entry) where
  module _ (boot : IsBootable w size before after target) where
    stable : get_bitmap_size (placed_entries size before target after) ≡ ok size
    stable =
        let (is_usable, fits) = roomy_parts size target boot.room in
        get_bitmap_size-stable size target is_usable boot.ends fits before after boot.away_before
          boot.away_after
        ∙ boot.sized

    -- What a state answers whose bitmap marks only covered frames as free: the address of a page.
    pub pmm_alloc-IsPage :
        (t : Pmm) (frames : ℕ)
        → t.mmap_resp ≡ some (placed_entries size before target after)
        → 0 < t.bitmap_start_bit
        → FreeCovered w s size before after target t
        → 0 < frames
        → (page : ℕ) × (pmm_alloc w frames t ≡ ok (page * 0x1000, t))
          × ((page ≡ 0)
              ⊎ ((page + frames ≤ size * 8)
                  × AreUsable w s size before after target (page * 0x1000) frames))
    pmm_alloc-IsPage t frames in_map started free_covered positive =
        let (address, run, cases) =
          pmm_alloc-FirstFit w t (placed_entries size before target after) size frames in_map stable
            started positive in
        elim cases [
          | inr missing ↦ (0, run ∙ ap (λ (a : ℕ). ok (a, t)) missing.address_eq, inl refl)
          | inl found ↦ (
            found.bit,
            run ∙ ap (λ (a : ℕ). ok (a, t)) found.address_eq,
            inr (
              found.below,
              subst (λ a. AreUsable w s size before after target a frames) found.address_eq
                  (Found-AreUsable w s size before after target t frames address free_covered
                    (get_bitmap_size-bounds (before ++ target ∷ after) size boot.sized).0
                    boot.aligned boot.ends boot.apart_before boot.apart_after found),
            ),
          )
        ]

    pub pmm_alloc-FreeCovered :
        (t : Pmm) (frames : ℕ)
        → t.mmap_resp ≡ some (placed_entries size before target after)
        → 0 < t.bitmap_start_bit
        → FreeCovered w s size before after target t
        → 0 < frames
        → (address : ℕ) × (pmm_alloc w frames t ≡ ok (address, t))
          × ((address ≡ 0) ⊎ AreUsable w s size before after target address frames)
    pmm_alloc-FreeCovered t frames in_map started free_covered positive =
        let (page, run, cases) = pmm_alloc-IsPage t frames in_map started free_covered positive in
        (
          page * 0x1000,
          run,
          elim cases [ inl nothing ↦ inl (omega arith) | inr usable ↦ inr usable.1 ],
        )
