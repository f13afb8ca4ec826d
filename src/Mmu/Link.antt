-- ===== src/Mmu/Link.antt =====
-- The branch of next_level that allocates: a new table, cleared and linked.
use vega_os.Base.{
  ℕ, ◌+◌, ◌*◌, ◌^◌, ◌<◌, ◌≡◌, ◌≢◌, ◌⊎◌, refl, arith, true, false, bit_and, bit_or, ◌==◌, ap,
  Bool-cases, ◌∙◌, inl, inr, if◌then◌else◌,
}
use vega_os.Base.Bits.{bit_and-low}
use vega_os.Base.Fields.{or-and-distrib, or-zero, or-lt}
use vega_os.Memory.{Mem, IsMapped, within}
use vega_os.Posix.{memset}
use vega_os.Posix.Laws.{memset-fills}
use vega_os.Word64.{load_bytes, load64, store64, load64-store64, load64_cong, store64_outside}
use vega_os.Outcome.{ok}
use vega_os.Pmm.State.{Window}
use vega_os.Pmm.Frames.{pmm_alloc}
use vega_os.Mmu.State.{pte_addr_mask, Mmu}
use vega_os.Mmu.Walk.{is_table, entry_at, allocate_level, next_level}
use vega_os.Mmu.Entries.{and-addr_mask}
use vega_os.Mmu.Tables.{Leads}
use vega_os.Mmu.Roundtrip.{Apart, IsShown, entry_at-IsMapped, load64-stored, Leads-stored}

-- The entry that next_level stores for a new table.
pub table_entry : ℕ → ℕ
table_entry page = bit_or (bit_or (page * 4096) 1) 2

module _ (page : ℕ) (small : page < 2 ^ 36) where
  table_entry-and :
      (mask : ℕ)
      → bit_and (table_entry page) mask
        ≡ bit_or (bit_or (bit_and (page * 4096) mask) (bit_and 1 mask)) (bit_and 2 mask)
  unfolding table_entry
  table_entry-and mask =
      or-and-distrib (bit_or (page * 4096) 1) 2 mask
      ∙ ap (λ (t : ℕ). bit_or t (bit_and 2 mask)) (or-and-distrib (page * 4096) 1 mask)

  table_entry-is_table : is_table (table_entry page) ≡ true
  unfolding is_table
  table_entry-is_table =
      let low : bit_and (page * 4096) 3 ≡ 0 = bit_and-low 2 (page * 4096) ∙ omega arith in
      rw (table_entry-and 3, low) refl

  table_entry-frame : bit_and (table_entry page) pte_addr_mask ≡ page * 4096
  table_entry-frame =
      let frame : bit_and (page * 4096) pte_addr_mask ≡ page * 4096 =
        and-addr_mask (page * 4096) ∙ omega arith in
      table_entry-and pte_addr_mask
      ∙ rw frame (or-zero (bit_or (page * 4096) 0) ∙ or-zero (page * 4096))

  table_entry-lt : table_entry page < 2 ^ 64
  unfolding table_entry
  table_entry-lt =
      or-lt 64 (bit_or (page * 4096) 1) 2 (or-lt 64 (page * 4096) 1 (omega arith) (omega arith))
        (omega arith)

-- A table's entry is not 0.
is_table-nonzero : (e : ℕ) → is_table e ≡ true → (e == 0) ≡ false
unfolding is_table
is_table-nonzero e h = elim (Bool-cases (e == 0)) [
  | inl zero_entry ↦
      let is_zero : 0 ≡ e = ground (arith, zero_entry) in
      let none_set : false ≡ is_table e = ap is_table is_zero in cc
  | inr other ↦ other
]

module _ (w : Window) where
  -- The frame of `page` is what the allocator answers with; it can be cleared through its own
  -- address, and is shown by the kernel's window.
  pub record IsFresh (s : Mmu) (page : ℕ) : Type 0 where
    pub answer : pmm_alloc w 1 s.pmm ≡ ok (page * 4096, s.pmm)
    pub nonzero : 0 < page
    pub small : page < 2 ^ 36
    pub direct : IsMapped w.phys (page * 4096) (page * 4096) 4096
    pub shown : IsShown w (page * 4096)

  module _ (s : Mmu) (page : ℕ) (fresh : IsFresh s page) where
    abbrev frame : ℕ
    frame = page * 4096

    abbrev cleared : Mem
    cleared = (memset w.phys frame 0 4096 s.pmm.mem).1

    cleared-eq : (q : ℕ) → cleared q ≡ (if within frame 4096 q then 0 else s.pmm.mem q)
    cleared-eq q = (memset-fills w.phys frame frame 0 4096 s.pmm.mem fresh.direct).1 q

    load64-Apart :
        (f i : ℕ)
        → IsShown w f
        → i < 512
        → Apart frame f
        → load64 w.phys (entry_at w f i) cleared ≡ load64 w.phys (entry_at w f i) s.pmm.mem
    load64-Apart f i shown h apart =
        load64_cong w.phys (entry_at w f i) (f + 8 * i) cleared (entry_at-IsMapped w f i shown h)
          s.pmm.mem (λ q hit. ground (arith, cleared-eq q))

    load64-cleared : (i : ℕ) → i < 512 → load64 w.phys (entry_at w frame i) cleared ≡ 0
    unfolding load64 load_bytes
    load64-cleared i h =
        load64_cong w.phys (entry_at w frame i) (frame + 8 * i) cleared
          (entry_at-IsMapped w frame i fresh.shown h) (λ q. 0)
          (λ q hit. ground (arith, cleared-eq q))

    module _ (l2 k : ℕ) (l2_shown : IsShown w l2) (k_lt : k < 512) where
      -- Memory with the new table in entry `k` of the one at `l2`.
      abbrev linked : Mem
      linked = store64 w.phys (entry_at w l2 k) (table_entry page) cleared

      abbrev pub linked_state : Mmu
      linked_state = record s { pmm = record s.pmm { mem = linked } }

      load64-linked : load64 w.phys (entry_at w l2 k) linked ≡ table_entry page
      load64-linked =
          load64-store64 w.phys (entry_at w l2 k) (l2 + 8 * k) cleared
            (entry_at-IsMapped w l2 k l2_shown k_lt) (table_entry page)
            (table_entry-lt page fresh.small)

      pub Leads-linked : Leads w linked l2 k frame
      Leads-linked = record {
        table = ap is_table load64-linked ∙ table_entry-is_table page fresh.small;
        frame =
            ap (λ (t : ℕ). bit_and t pte_addr_mask) load64-linked
            ∙ table_entry-frame page fresh.small;
        nonzero = omega (arith, fresh.nonzero);
      }

      pub next_level-fresh :
          is_table (load64 w.phys (entry_at w l2 k) s.pmm.mem) ≡ false
          → next_level w l2 k true s ≡ ok (frame, linked_state)
      unfolding next_level allocate_level table_entry
      next_level-fresh missing = rw (
        missing,
        fresh.answer,
        load64-linked,
        is_table-nonzero (table_entry page) (table_entry-is_table page fresh.small),
        table_entry-frame page fresh.small,
      )

      -- The links of the other tables stay.
      pub Leads-kept :
          (f i next : ℕ)
          → IsShown w f
          → i < 512
          → Apart frame f
          → Apart l2 f
          → Leads w s.pmm.mem f i next
          → Leads w linked f i next
      Leads-kept f i next shown h apart apart' leads =
          let same = load64-Apart f i shown h apart in
          Leads-stored w cleared l2 k (table_entry page) l2_shown k_lt f i next shown h apart'
            (record {
              table = ap is_table same ∙ leads.table;
              frame = ap (λ (t : ℕ). bit_and t pte_addr_mask) same ∙ leads.frame;
              nonzero = leads.nonzero;
            })

      -- Its other entries are 0, also where it is linked from itself.
      pub load64-linked_cleared :
          (i : ℕ)
          → i < 512
          → Apart l2 frame ⊎ ((frame ≡ l2) × (i ≢ k))
          → load64 w.phys (entry_at w frame i) linked ≡ 0
      load64-linked_cleared i h elsewhere =
          load64-stored w cleared l2 k (table_entry page) l2_shown k_lt frame i fresh.shown h
            elsewhere
          ∙ load64-cleared i h

      pub linked_outside :
          (q : ℕ) → within frame 4096 q ≡ false → within l2 4096 q ≡ false → linked q ≡ s.pmm.mem q
      linked_outside q out out' =
          store64_outside w.phys (entry_at w l2 k) (l2 + 8 * k) cleared
            (entry_at-IsMapped w l2 k l2_shown k_lt) (table_entry page) q (ground arith)
          ∙ ground (arith, cleared-eq q)
