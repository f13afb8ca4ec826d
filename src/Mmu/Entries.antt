-- ===== src/Mmu/Entries.antt =====
-- The entry that aarch64_map_page stores: its address and its attributes.
use vega_os.Base.{
  ℕ, ◌+◌, ◌-◌, ◌*◌, ◌/◌, ◌%◌, ◌^◌, ◌≤◌, ◌<◌, ◌≡◌, refl, arith, ◌==◌, if◌then◌else◌, bit_and, bit_or,
  max, Bool, inl, inr, ap, ap₂, ◌∙◌, true, false, ◌⊎◌,
}
use vega_os.Base.Bits.{bit_at, bit_at-or, bit_at-le-one, bit_and-shift, bit_and-low}
use vega_os.Base.Fields.{or-and-distrib, or-zero, zero-or, bit_at-shifted, bit_at-above, or-lt}
use vega_os.Mmu.State.{pte_addr_mask, vmm_writable, vmm_user, vmm_exec}
use vega_os.Mmu.Pages.{pte_flags, leaf}

-- `& PTE_ADDR_MASK` takes the page frame out of an entry.
pub and-addr_mask : (x : ℕ) → bit_and x pte_addr_mask ≡ x / 4096 % 2 ^ 36 * 4096
and-addr_mask x =
    bit_and-shift 12 x (2 ^ 36 - 1) ∙ ap (λ (t : ℕ). t * 4096) (bit_and-low 36 (x / 4096))

-- The eight values of the attribute bits.
attributes : Bool → Bool → Bool → ℕ
attributes read_only never user =
    let with_ro = if read_only then bit_or 0x403 0x80 else 0x403 in
    let with_nx = if never then bit_or with_ro (2 ^ 53 + 2 ^ 54) else with_ro in
    if user then with_nx else bit_or with_nx 0x40

attributes_mask : (r n u : Bool) → bit_and (attributes r n u) pte_addr_mask ≡ 0
unfolding attributes
attributes_mask true true true = refl
attributes_mask true true false = refl
attributes_mask true false true = refl
attributes_mask true false false = refl
attributes_mask false true true = refl
attributes_mask false true false = refl
attributes_mask false false true = refl
attributes_mask false false false = refl

attributes-lt : (r n u : Bool) → attributes r n u < 2 ^ 64
unfolding attributes
attributes-lt true true true = omega arith
attributes-lt true true false = omega arith
attributes-lt true false true = omega arith
attributes-lt true false false = omega arith
attributes-lt false true true = omega arith
attributes-lt false true false = omega arith
attributes-lt false false true = omega arith
attributes-lt false false false = omega arith

attributes_bits :
    (r n u : Bool)
    → (max 0 (bit_at (attributes r n u) 7) ≡ (if r then 1 else 0))
      × (max 0 (bit_at (attributes r n u) 53) ≡ (if n then 1 else 0))
      × (max 0 (bit_at (attributes r n u) 54) ≡ (if n then 1 else 0))
      × (max 0 (bit_at (attributes r n u) 6) ≡ (if u then 0 else 1))
unfolding attributes
attributes_bits true true true = (refl, refl, refl, refl)
attributes_bits true true false = (refl, refl, refl, refl)
attributes_bits true false true = (refl, refl, refl, refl)
attributes_bits true false false = (refl, refl, refl, refl)
attributes_bits false true true = (refl, refl, refl, refl)
attributes_bits false true false = (refl, refl, refl, refl)
attributes_bits false false true = (refl, refl, refl, refl)
attributes_bits false false false = (refl, refl, refl, refl)

max_one : {x : ℕ} → x ≤ 1 → max 1 x ≡ 1
max_one h = omega arith

module _ (flags : ℕ) where
  abbrev is_read_only : Bool
  is_read_only = bit_and flags 2 == 0

  abbrev is_never_executed : Bool
  is_never_executed = bit_and flags 8 == 0

  abbrev is_kernel_only : Bool
  is_kernel_only = bit_and flags 4 == 0

  pte_flags-eq : pte_flags flags ≡ attributes is_read_only is_never_executed is_kernel_only
  unfolding pte_flags attributes
  pte_flags-eq = refl

  -- The entry leads to the page of `phys`, whatever the flags.
  pub leaf-address :
      (phys : ℕ) → bit_and (leaf phys flags) pte_addr_mask ≡ phys / 4096 % 2 ^ 36 * 4096
  unfolding leaf
  leaf-address phys =
      or-and-distrib (bit_or 0x403 phys) (pte_flags flags) pte_addr_mask
      ∙ ap₂ bit_or (or-and-distrib 0x403 phys pte_addr_mask ∙ zero-or (bit_and phys pte_addr_mask))
          (ap (λ (t : ℕ). bit_and t pte_addr_mask) pte_flags-eq
            ∙ attributes_mask is_read_only is_never_executed is_kernel_only)
      ∙ or-zero (bit_and phys pte_addr_mask)
      ∙ and-addr_mask phys

  pub leaf-lt : (phys : ℕ) → phys < 2 ^ 64 → leaf phys flags < 2 ^ 64
  unfolding leaf
  leaf-lt phys h =
      or-lt 64 (bit_or 0x403 phys) (pte_flags flags) (or-lt 64 0x403 phys (omega arith) h)
        (omega (arith, pte_flags-eq, attributes-lt is_read_only is_never_executed is_kernel_only))

  bit_at-leaf :
      (page k : ℕ)
      → page < 2 ^ 36
      → (k < 12) ⊎ (48 ≤ k)
      → bit_at (leaf (page * 4096) flags) k
        ≡ max (bit_at 0x403 k) (bit_at (attributes is_read_only is_never_executed is_kernel_only) k)
  unfolding leaf
  bit_at-leaf page k h outside =
      let no_address : bit_at (page * 4096) k ≡ 0 = elim outside [
        | inl low ↦ bit_at-shifted 12 page k low
        | inr high ↦ bit_at-above 48 (page * 4096) k (omega arith) high
      ] in
      let flag_bits = ap (λ (t : ℕ). bit_at t k) pte_flags-eq in
      omega (
        arith,
        bit_at-or k (bit_or 0x403 (page * 4096)) (pte_flags flags),
        bit_at-or k 0x403 (page * 4096),
      )

  -- The entry of a page below 2 ^ 48 is present (bit 0), a page and no block (bit 1) and accessed
  -- (bit 10); it is read-only (bit 7) exactly without VMM_WRITABLE, never executed at either level
  -- (bits 53 and 54) exactly without VMM_EXEC, and open to user code (bit 6) exactly with
  -- VMM_USER; and its address is that of the page.
  pub leaf_attributes :
      (page : ℕ)
      → page < 2 ^ 36
      → let e = leaf (page * 4096) flags in
        (bit_at e 0 ≡ 1)
        × (bit_at e 1 ≡ 1)
        × (bit_at e 10 ≡ 1)
        × (bit_at e 7 ≡ (if bit_and flags vmm_writable == 0 then 1 else 0))
        × (bit_at e 53 ≡ (if bit_and flags vmm_exec == 0 then 1 else 0))
        × (bit_at e 54 ≡ (if bit_and flags vmm_exec == 0 then 1 else 0))
        × (bit_at e 6 ≡ (if bit_and flags vmm_user == 0 then 0 else 1))
        × (bit_and e pte_addr_mask ≡ page * 4096)
  leaf_attributes page h =
      let granted = attributes is_read_only is_never_executed is_kernel_only in
      let bits = attributes_bits is_read_only is_never_executed is_kernel_only in
      (
        bit_at-leaf page 0 h (inl (omega arith)) ∙ max_one (bit_at-le-one 0 granted),
        bit_at-leaf page 1 h (inl (omega arith)) ∙ max_one (bit_at-le-one 1 granted),
        bit_at-leaf page 10 h (inl (omega arith)) ∙ max_one (bit_at-le-one 10 granted),
        bit_at-leaf page 7 h (inl (omega arith)) ∙ bits.0,
        bit_at-leaf page 53 h (inr (omega arith)) ∙ bits.1,
        bit_at-leaf page 54 h (inr (omega arith)) ∙ bits.2,
        bit_at-leaf page 6 h (inl (omega arith)) ∙ bits.3,
        leaf-address (page * 4096) ∙ omega arith,
      )
