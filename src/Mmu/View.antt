-- ===== src/Mmu/View.antt =====
-- The processor's walk through tables that the kernel can walk.
use vega_os.Base.{
  ℕ, ◌+◌, ◌-◌, ◌*◌, ◌/◌, ◌%◌, ◌^◌, ◌<◌, ◌≤◌, ◌≡◌, ◌⊎◌, inl, inr, sym, ap, ◌∙◌, refl, arith, true,
  false, ◌==◌, ◌&&◌, ltb, if◌then◌else◌, bit_and, ◌>>◌, some, none, List, [], ◌∷◌,
}
use vega_os.Base.Bits.{bit_at, bit_and-low, bit_and-shift}
use vega_os.Memory.{Mem}
use vega_os.Word64.{load64, load64-IsMapped}
use vega_os.Pmm.State.{Window}
use vega_os.Mmu.State.{pte_addr_mask, vmm_writable, vmm_user, vmm_exec}
use vega_os.Mmu.Walk.{ttbr_index, level_index, is_table, entry_at}
use vega_os.Mmu.Pages.{leaf}
use vega_os.Mmu.Registers.{Registers, aarch64_get_pagemap}
use vega_os.Mmu.Entries.{and-addr_mask, leaf_attributes}
use vega_os.Mmu.Tables.{Leads}
use vega_os.Mmu.Missing.{ttbr_index-level_index}
use vega_os.Mmu.Roundtrip.{IsShown, Route, level_index-lt, entry_at-IsMapped}
use vega_os.Mmu.Architecture.{
  View, output_address, descriptor, view, table_walk, levels, processor_view,
}

level_index-eq : (shift vaddr : ℕ) → level_index shift vaddr ≡ vaddr / 2 ^ shift % 512
unfolding level_index
level_index-eq shift vaddr = bit_and-low 9 (vaddr >> shift)

pub is_table-eq : (e : ℕ) → is_table e ≡ (e % 4 == 3)
unfolding is_table
is_table-eq e = ap (λ (t : ℕ). t == 3) (bit_and-low 2 e)

module _ (w : Window) (mem : Mem) where
  -- The kernel and the processor read one and the same descriptor.
  pub descriptor-entry_at :
      (table shift vaddr : ℕ)
      → IsShown w table
      → descriptor mem table (vaddr / 2 ^ shift % 512)
        ≡ load64 w.phys (entry_at w table (level_index shift vaddr)) mem
  descriptor-entry_at table shift vaddr shown =
      ap (λ (i : ℕ). descriptor mem table i) (sym (level_index-eq shift vaddr))
      ∙ sym (
          load64-IsMapped w.phys (entry_at w table (level_index shift vaddr))
            (table + 8 * level_index shift vaddr) mem
            (entry_at-IsMapped w table (level_index shift vaddr) shown
              (level_index-lt shift vaddr)))

  -- Where a table's entry leads to another table, the processor goes there.
  table_walk-Leads :
      (vaddr table shift next : ℕ) (rest : List ℕ)
      → IsShown w table
      → (shift == 12) ≡ false
      → Leads w mem table (level_index shift vaddr) next
      → table_walk mem vaddr table (shift ∷ rest) ≡ table_walk mem vaddr next rest
  unfolding table_walk
  table_walk-Leads vaddr table shift next rest shown inner leads =
      let d = descriptor mem table (vaddr / 2 ^ shift % 512) in
      let same = descriptor-entry_at table shift vaddr shown in
      let is_three : (d % 4 == 3) ≡ true = sym (is_table-eq d) ∙ ap is_table same ∙ leads.table in
      let there : output_address d ≡ next =
        sym (and-addr_mask d) ∙ ap (λ (t : ℕ). bit_and t pte_addr_mask) same ∙ leads.frame in
      rw (is_three, inner, there)

  pub table_walk-Route :
      (root vaddr l1 l2 l3 : ℕ)
      → Route w mem root vaddr l1 l2 l3
      → table_walk mem vaddr root levels ≡ table_walk mem vaddr l3 (12 ∷ [])
  table_walk-Route root vaddr l1 l2 l3 route =
      table_walk-Leads vaddr root 39 l1 (30 ∷ 21 ∷ 12 ∷ []) route.root_shown refl route.walk.first
      ∙ table_walk-Leads vaddr l1 30 l2 (21 ∷ 12 ∷ []) route.l1_shown refl route.walk.second
      ∙ table_walk-Leads vaddr l2 21 l3 (12 ∷ []) route.l2_shown refl route.walk.third

-- What the processor makes of an entry that aarch64_map_page stores.
abbrev pub page_view : ℕ → ℕ → ℕ → View
page_view page flags vaddr = record {
  address = page * 4096 + vaddr % 4096;
  read_only = if bit_and flags vmm_writable == 0 then 1 else 0;
  user = if bit_and flags vmm_user == 0 then 0 else 1;
  privileged_execute_never = if bit_and flags vmm_exec == 0 then 1 else 0;
  user_execute_never = if bit_and flags vmm_exec == 0 then 1 else 0;
}

pub leaf-is_page : (page flags : ℕ) → page < 2 ^ 36 → (leaf (page * 4096) flags % 4 == 3) ≡ true
leaf-is_page page flags h =
    let bits = leaf_attributes flags page h in ground (arith, bits.0, bits.1)

-- The descriptor of a page that has been accessed.
view-page :
    (d vaddr address read_only user pxn uxn : ℕ)
    → bit_at d 10 ≡ 1
    → bit_at d 7 ≡ read_only
    → bit_at d 6 ≡ user
    → bit_at d 53 ≡ pxn
    → bit_at d 54 ≡ uxn
    → output_address d ≡ address
    → view d 12 vaddr
      ≡ some (record {
        address = address + vaddr % 4096;
        read_only = read_only;
        user = user;
        privileged_execute_never = pxn;
        user_execute_never = uxn;
      })
unfolding view
view-page d vaddr address read_only user pxn uxn accessed ro el0 privileged other there =
    let place : output_address d / 2 ^ 12 * 2 ^ 12 + vaddr % 4096 ≡ address + vaddr % 4096 =
      omega (arith, there) in
    rw (accessed, ro, el0, privileged, other, place) refl

pub view-leaf :
    (page flags vaddr : ℕ)
    → page < 2 ^ 36
    → view (leaf (page * 4096) flags) 12 vaddr ≡ some (page_view page flags vaddr)
view-leaf page flags vaddr h =
    let (present, is_page, accessed, ro, pxn, uxn, user, address) = leaf_attributes flags page h in
    let d = leaf (page * 4096) flags in
    view-page d vaddr (page * 4096) (if bit_and flags vmm_writable == 0 then 1 else 0)
      (if bit_and flags vmm_user == 0 then 0 else 1) (if bit_and flags vmm_exec == 0 then 1 else 0)
      (if bit_and flags vmm_exec == 0 then 1 else 0) accessed ro user pxn uxn
      (sym (and-addr_mask d) ∙ address)

-- The processor and the kernel choose the same root, for an address outside 2 ^ 37 to 2 ^ 48.
pub processor_view-root :
    (r : Registers) (mem : Mem) (vaddr : ℕ)
    → vaddr < 2 ^ 64
    → (vaddr < 2 ^ 37) ⊎ (2 ^ 64 - 2 ^ 48 ≤ vaddr)
    → processor_view r mem vaddr
      ≡ table_walk mem vaddr ((aarch64_get_pagemap r).ttbr (ttbr_index vaddr)) levels
unfolding processor_view aarch64_get_pagemap
processor_view-root r mem vaddr h range =
    let half = (ttbr_index-level_index vaddr h).0 in
    elim range [
      | inl low ↦
          let below : ltb vaddr (2 ^ 48) ≡ true = ground arith in
          let first : ttbr_index vaddr ≡ 0 = ground (arith, half) in
          rw (below, first, and-addr_mask r.ttbr0_el1)
      | inr high ↦
          let below : ltb vaddr (2 ^ 48) ≡ false = ground arith in
          let between : ltb vaddr (2 ^ 64 - 2 ^ 48) ≡ false = ground arith in
          let second : ttbr_index vaddr ≡ 1 = ground (arith, half) in
          rw (below, between, second, and-addr_mask r.ttbr1_el1)
    ]

-- The last step of a walk.
pub table_walk-page :
    (mem : Mem) (vaddr table d : ℕ)
    → descriptor mem table (vaddr / 2 ^ 12 % 512) ≡ d
    → table_walk mem vaddr table (12 ∷ []) ≡ (if d % 4 == 3 then view d 12 vaddr else none)
unfolding table_walk
table_walk-page mem vaddr table d found =
    let no_block : ((d % 4 == 1) && false) ≡ false = ground arith in rw (found, no_block)

-- The kernel reads the roots without their low bits.
pub root_is_aligned :
    (r : Registers) (i : ℕ)
    → bit_and ((aarch64_get_pagemap r).ttbr i) (2 ^ 64 - 0x200) ≡ (aarch64_get_pagemap r).ttbr i
unfolding aarch64_get_pagemap
root_is_aligned r i =
    let root = if i == 0 then r.ttbr0_el1 else r.ttbr1_el1 in
    let masked = and-addr_mask root in
    let base = bit_and root pte_addr_mask in
    bit_and-shift 9 base (2 ^ 55 - 1) ∙ omega (arith, masked, bit_and-low 55 (base / 2 ^ 9))
