-- ===== src/Mmu/Roundtrip.antt =====
-- What aarch64_translate_vaddr finds after aarch64_map_page and aarch64_unmap_page, where the
-- tables are there.
use vega_os.Base.{
  ℕ, ◌+◌, ◌-◌, ◌*◌, ◌^◌, ◌≤◌, ◌<◌, ◌≡◌, ◌≢◌, refl, arith, bit_and, ◌>>◌, u64, inl, ap, ◌∙◌, ◌⊎◌,
  ◌∷◌,
}
use vega_os.Base.Bits.{bit_and-low}
use vega_os.Memory.{Mem, IsMapped, IsMapped-slice}
use vega_os.Word64.{load64, store64, load64-store64, load64-store64_ne}
use vega_os.Outcome.{ok}
use vega_os.Pmm.State.{Window}
use vega_os.Mmu.State.{pte_addr_mask, Pagemap, Mmu}
use vega_os.Mmu.Walk.{ttbr_index, level_index, is_table, entry_at}
use vega_os.Mmu.Pages.{
  leaf, store_pte, invalidate_page, aarch64_translate_vaddr, aarch64_map_page, aarch64_unmap_page,
}
use vega_os.Mmu.Entries.{leaf-address, leaf-lt}
use vega_os.Mmu.Tables.{Leads, Walk, translate-Walk, map-Walk, unmap-Walk}

pub level_index-lt : (shift vaddr : ℕ) → level_index shift vaddr < 512
unfolding level_index
level_index-lt shift vaddr = omega (arith, bit_and-low 9 (vaddr >> shift))

-- The frames at `f` and `g` do not overlap.
abbrev pub Apart : ℕ → ℕ → Type 0
Apart f g = (f + 4096 ≤ g) ⊎ (g + 4096 ≤ f)

module _ (w : Window) where
  -- The kernel's window shows the frame at `f`.
  abbrev pub IsShown : ℕ → Type 0
  IsShown f = IsMapped w.phys (u64 (f + w.higher_half)) f 4096

  -- The tables on the way to `vaddr` exist, and they and the root are shown by the window.
  pub record Route (mem : Mem) (root vaddr l1 l2 l3 : ℕ) : Type 0 where
    pub walk : Walk w mem root vaddr l1 l2 l3
    pub root_shown : IsShown root
    pub l1_shown : IsShown l1
    pub l2_shown : IsShown l2
    pub l3_shown : IsShown l3

  pub entry_at-IsMapped :
      (f i : ℕ) → IsShown f → i < 512 → IsMapped w.phys (entry_at w f i) (f + 8 * i) 8
  unfolding entry_at
  entry_at-IsMapped f i shown h = IsMapped-slice (8 * i) 8 shown (omega arith)

  module _ (mem : Mem) (l3 k value : ℕ) (l3_shown : IsShown l3) (k_lt : k < 512) where
    abbrev stored : Mem
    stored = store64 w.phys (entry_at w l3 k) value mem

    pub load64-stored :
        (f i : ℕ)
        → IsShown f
        → i < 512
        → Apart l3 f ⊎ ((f ≡ l3) × (i ≢ k))
        → load64 w.phys (entry_at w f i) stored ≡ load64 w.phys (entry_at w f i) mem
    load64-stored f i shown h elsewhere =
        load64-store64_ne w.phys (entry_at w l3 k) (l3 + 8 * k) (entry_at w f i) (f + 8 * i) value
          mem (entry_at-IsMapped l3 k l3_shown k_lt) (entry_at-IsMapped f i shown h) (ground arith)

    pub Leads-stored :
        (f i next : ℕ)
        → IsShown f
        → i < 512
        → Apart l3 f
        → Leads w mem f i next
        → Leads w stored f i next
    Leads-stored f i next shown h apart leads =
        let same = load64-stored f i shown h (inl apart) in
        record {
          table = ap is_table same ∙ leads.table;
          frame = ap (λ (t : ℕ). bit_and t pte_addr_mask) same ∙ leads.frame;
          nonzero = leads.nonzero;
        }

    Walk-stored :
        (root vaddr l1 l2 l : ℕ)
        → Route mem root vaddr l1 l2 l
        → Apart l3 root
        → Apart l3 l1
        → Apart l3 l2
        → Walk w stored root vaddr l1 l2 l
    Walk-stored root vaddr l1 l2 l route a0 a1 a2 = record {
      first =
          Leads-stored root (level_index 39 vaddr) l1 route.root_shown (level_index-lt 39 vaddr) a0
            route.walk.first;
      second =
          Leads-stored l1 (level_index 30 vaddr) l2 route.l1_shown (level_index-lt 30 vaddr) a1
            route.walk.second;
      third =
          Leads-stored l2 (level_index 21 vaddr) l route.l2_shown (level_index-lt 21 vaddr) a2
            route.walk.third;
    }

  module _ (p : Pagemap) (vaddr l1 l2 l3 : ℕ) (s : Mmu) where
    abbrev root : ℕ
    root = p.ttbr (ttbr_index vaddr)

    module _ (route : Route s.pmm.mem root vaddr l1 l2 l3) (a0 : Apart l3 root) (a1 : Apart l3 l1)
        (a2 : Apart l3 l2) (aligned : bit_and root (2 ^ 64 - 0x200) ≡ root) where
      abbrev pub last_mem : ℕ → Mem
      last_mem value = store64 w.phys (entry_at w l3 (level_index 12 vaddr)) value s.pmm.mem

      pub stored-Walk : (value : ℕ) → Walk w (last_mem value) root vaddr l1 l2 l3
      stored-Walk value =
          Walk-stored s.pmm.mem l3 (level_index 12 vaddr) value route.l3_shown
            (level_index-lt 12 vaddr) root vaddr l1 l2 l3 route a0 a1 a2

      translate-store_pte :
          (value : ℕ)
          → value < 2 ^ 64
          → aarch64_translate_vaddr w p vaddr (store_pte w l3 vaddr value s)
            ≡ ok (bit_and value pte_addr_mask, store_pte w l3 vaddr value s)
      unfolding store_pte invalidate_page
      translate-store_pte value h =
          let s' = store_pte w l3 vaddr value s in
          let found =
            load64-store64 w.phys (entry_at w l3 (level_index 12 vaddr))
              (l3 + 8 * level_index 12 vaddr) s.pmm.mem
              (entry_at-IsMapped l3 (level_index 12 vaddr) route.l3_shown (level_index-lt 12 vaddr))
              value h in
          translate-Walk w p vaddr l1 l2 l3 s' aligned (stored-Walk value)
          ∙ ap (λ (t : ℕ). ok (bit_and t pte_addr_mask, s')) found

      -- Mapping `vaddr` to a page below 2 ^ 48 succeeds when its three tables exist, are shown by
      -- the kernel's window, and the last is apart from the others and from the root, which is
      -- aligned: afterwards `vaddr` translates to exactly that page, whatever it was mapped to
      -- before and with whatever flags, and the page's number is the last one invalidated.
      pub translate-map :
          (page flags : ℕ)
          → page < 2 ^ 36
          → (s' : Mmu) × (aarch64_map_page w p vaddr (page * 4096) flags s ≡ ok s')
            × (aarch64_translate_vaddr w p vaddr s' ≡ ok (page * 4096, s'))
            × (s'.invalidated ≡ (vaddr >> 12) ∷ s.invalidated)
      unfolding store_pte invalidate_page
      translate-map page flags h =
          let value = leaf (page * 4096) flags in
          let s' = store_pte w l3 vaddr value s in
          let address : bit_and value pte_addr_mask ≡ page * 4096 =
            leaf-address flags (page * 4096) ∙ omega arith in
          (
            s',
            map-Walk w p vaddr l1 l2 l3 s (page * 4096) flags route.walk,
            translate-store_pte value (leaf-lt flags (page * 4096) (omega arith))
                ∙ ap (λ (t : ℕ). ok (t, s')) address,
            refl,
          )

      -- Unmapping `vaddr` succeeds when its three tables exist, are shown by the kernel's window,
      -- and the last is apart from the others and from the root, which is aligned: afterwards
      -- `vaddr` translates to 0, and its page's number is the last one invalidated.
      translate-unmap :
          (s' : Mmu) × (aarch64_unmap_page w p vaddr s ≡ ok s')
          × (aarch64_translate_vaddr w p vaddr s' ≡ ok (0, s'))
          × (s'.invalidated ≡ (vaddr >> 12) ∷ s.invalidated)
      unfolding store_pte invalidate_page
      translate-unmap =
          let s' = store_pte w l3 vaddr 0 s in
          (
            s',
            unmap-Walk w p vaddr l1 l2 l3 s route.walk,
            translate-store_pte 0 (omega arith),
            refl,
          )

    -- Mapping `vaddr` succeeds and leaves the translation of another address `other` as it was,
    -- when the three tables on the way to each of the two exist and are shown, as the two roots
    -- are, by the kernel's window, and the root of `other` is aligned; the last table of `vaddr`
    -- is apart from the root and the first two tables of `other`, and apart from its last table
    -- or the same one, with another index there.
    pub translate-map_other :
        (other m1 m2 m3 phys flags : ℕ)
        → let root' = p.ttbr (ttbr_index other) in
          bit_and root' (2 ^ 64 - 0x200) ≡ root'
          → Route s.pmm.mem root vaddr l1 l2 l3
          → Route s.pmm.mem root' other m1 m2 m3
          → Apart l3 root'
          → Apart l3 m1
          → Apart l3 m2
          → Apart l3 m3 ⊎ ((m3 ≡ l3) × (level_index 12 other ≢ level_index 12 vaddr))
          → (s' : Mmu) × (address : ℕ) × (aarch64_map_page w p vaddr phys flags s ≡ ok s')
            × (aarch64_translate_vaddr w p other s ≡ ok (address, s))
            × (aarch64_translate_vaddr w p other s' ≡ ok (address, s'))
    unfolding store_pte invalidate_page
    translate-map_other other m1 m2 m3 phys flags aligned route route' a0 a1 a2 a3 =
        let k = level_index 12 vaddr in
        let value = leaf phys flags in
        let s' = store_pte w l3 vaddr value s in
        let e = load64 w.phys (entry_at w m3 (level_index 12 other)) s.pmm.mem in
        let kept =
          load64-stored s.pmm.mem l3 k value route.l3_shown (level_index-lt 12 vaddr) m3
            (level_index 12 other) route'.l3_shown (level_index-lt 12 other) a3 in
        let after =
          Walk-stored s.pmm.mem l3 k value route.l3_shown (level_index-lt 12 vaddr)
            (p.ttbr (ttbr_index other)) other m1 m2 m3 route' a0 a1 a2 in
        (
          s',
          bit_and e pte_addr_mask,
          map-Walk w p vaddr l1 l2 l3 s phys flags route.walk,
          translate-Walk w p other m1 m2 m3 s aligned route'.walk,
          translate-Walk w p other m1 m2 m3 s' aligned after
              ∙ ap (λ (t : ℕ). ok (bit_and t pte_addr_mask, s')) kept,
        )
