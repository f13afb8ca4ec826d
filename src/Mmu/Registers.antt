-- ===== src/Mmu/Registers.antt =====
-- aarch64_get_pagemap and aarch64_mmu_init, over the system registers that they read and write.
use vega_os.Base.{
  ℕ, zero, suc, Bool, Bool-cases, inl, inr, true, ◌&&◌, ◌+◌, ◌*◌, ◌/◌, sym, ◌-◌, ◌%◌, ◌^◌, ◌<◌, ◌≡◌,
  arith, refl, ap, ◌∙◌, ◌==◌, if◌then◌else◌, bit_and, bit_or, ◌<<◌, ◌>>◌, List, [], ◌++◌,
}
use vega_os.Base.Bits.{bit_and-low}
use vega_os.Log.{Call, codes, kinfo}
use vega_os.Mmu.State.{pte_addr_mask, Pagemap}
use vega_os.Mmu.Entries.{and-addr_mask}

pub record Registers : Type 0 where
  pub ttbr0_el1 : ℕ
  pub ttbr1_el1 : ℕ
  pub contextidr_el1 : ℕ
  pub mair_el1 : ℕ
  pub tcr_el1 : ℕ
  pub id_aa64mmfr0_el1 : ℕ

-- The registers, the file's `pagemap` and the lines printed.
pub record Control : Type 0 where
  pub sysregs : Registers
  pub pagemap : Pagemap
  pub log : List Call

unfoldable pub aarch64_get_pagemap : Registers → Pagemap
aarch64_get_pagemap r = record {
  ttbr = λ i. bit_and (if i == 0 then r.ttbr0_el1 else r.ttbr1_el1) pte_addr_mask;
  asid = bit_and r.contextidr_el1 0xffff;
}

-- The framebuffer's attribute, 0xc in place of 0xff.
unfoldable pub fb_attr : Registers → ℕ
fb_attr r = let attr = bit_and (r.mair_el1 >> 8) 0xff in if attr == 0xff then 0xc else attr

unfoldable pub mair_value : Registers → ℕ
mair_value r = bit_or (bit_or (bit_or (fb_attr r << 8) 0xff) (0 << 16)) (4 << 24)

-- The constants of `tcr` that C computes as ints, `0x02 << 30` among them, which is negative
-- there; the conversion to size_t extends its sign.
unfoldable pub tcr_ints : ℕ
tcr_ints =
    bit_or
      (bit_or
        (bit_or
          (bit_or
            (bit_or (bit_or (bit_or (bit_or 0x10 (0x10 << 16)) (2 ^ 64 - 2 ^ 31)) (1 << 8))
              (1 << 10))
            (2 << 12))
          (1 << 24))
        (1 << 26))
      (2 << 28)

unfoldable pub tcr_value : Registers → ℕ
tcr_value r =
    let pa_bits = bit_and r.id_aa64mmfr0_el1 0xf in
    bit_or (bit_or tcr_ints (1 << 36)) (pa_bits << 32)

unfoldable pub aarch64_mmu_init : Control → Control
aarch64_mmu_init c =
    let sysregs = record c.sysregs {
      mair_el1 = mair_value c.sysregs;
      tcr_el1 = tcr_value c.sysregs;
    } in
    record {
      sysregs = sysregs;
      pagemap = aarch64_get_pagemap sysregs;
      log = c.log ++ kinfo (codes "mmu") (codes "Wrote MAIR and TCR for EL1\n") [];
    }

-- Two functions agree on the numbers below a bound.
agree : (ℕ → ℕ) → (ℕ → ℕ) → ℕ → Bool
agree f g zero = true
agree f g (suc k) = f k == g k && agree f g k

agree-eq : (f g : ℕ → ℕ) (k n : ℕ) → agree f g k ≡ true → n < k → f n ≡ g n
unfolding agree
agree-eq f g zero n all h = omega arith
agree-eq f g (suc k) n all h = elim (Bool-cases (n == k)) [
  | inl same ↦ let equal : n ≡ k = ground arith in ap f equal ∙ ground arith ∙ sym (ap g equal)
  | inr other ↦ agree-eq f g k n (ground arith) (ground arith)
]

-- The sign bits cover each value of the field for the size of addresses.
tcr_of-eq :
    (pa_bits : ℕ)
    → pa_bits < 16
    → bit_or (bit_or tcr_ints (1 << 36)) (pa_bits << 32) ≡ 0xffff_ffff_a510_2510
unfolding tcr_ints agree
tcr_of-eq pa_bits h =
    agree-eq (λ n. bit_or (bit_or tcr_ints (1 << 36)) (n << 32)) (λ n. 0xffff_ffff_a510_2510) 16
      pa_bits refl h

mair_of-eq :
    (attr : ℕ)
    → attr < 256
    → bit_or (bit_or (bit_or (attr << 8) 0xff) (0 << 16)) (4 << 24) ≡ 0x400_00ff + attr * 2 ^ 8
unfolding agree
mair_of-eq attr h =
    agree-eq (λ n. bit_or (bit_or (bit_or (n << 8) 0xff) (0 << 16)) (4 << 24))
      (λ n. 0x400_00ff + n * 2 ^ 8) 256 attr refl h

fb_attr-eq :
    (r : Registers)
    → let old = r.mair_el1 / 2 ^ 8 % 2 ^ 8 in fb_attr r ≡ (if old == 0xff then 0xc else old)
unfolding fb_attr
fb_attr-eq r = ap (λ (a : ℕ). if a == 0xff then 0xc else a) (bit_and-low 8 (r.mair_el1 >> 8))

fb_attr-lt : (r : Registers) → fb_attr r < 256
fb_attr-lt r = ground (arith, fb_attr-eq r)

-- Whatever the registers held, aarch64_mmu_init writes one and the same TCR, with its upper 32
-- bits all set: the size of physical addresses that it reads from id_aa64mmfr0_el1 has no effect.
-- It writes the memory attributes 0xff and 4 as number 0 and 3, keeps number 1, with 0xc in place
-- of 0xff, and writes 0 as the others. The page map it keeps holds the tables' roots, aligned to 4096 and below 2 ^ 48,
-- and an address space number of 16 bits.
pub mmu_init-tcr :
    (c : Control)
    → let old = c.sysregs.mair_el1 / 2 ^ 8 % 2 ^ 8 in
      ((aarch64_mmu_init c).sysregs.tcr_el1 ≡ 0xffff_ffff_a510_2510)
      × ((aarch64_mmu_init c).sysregs.mair_el1
          ≡ 0x400_00ff + (if old == 0xff then 0xc else old) * 2 ^ 8)
      × ((i : ℕ) → (aarch64_mmu_init c).pagemap.ttbr i % 4096 ≡ 0)
      × ((i : ℕ) → (aarch64_mmu_init c).pagemap.ttbr i < 2 ^ 48)
      × ((aarch64_mmu_init c).pagemap.asid < 2 ^ 16)
unfolding aarch64_mmu_init aarch64_get_pagemap tcr_value mair_value
mmu_init-tcr c =
    let r = c.sysregs in
    let pa_bits = bit_and r.id_aa64mmfr0_el1 0xf in
    let small : pa_bits < 16 = omega (arith, bit_and-low 4 r.id_aa64mmfr0_el1) in
    let root = λ (i : ℕ). if i == 0 then r.ttbr0_el1 else r.ttbr1_el1 in
    (
      tcr_of-eq pa_bits small,
      mair_of-eq (fb_attr r) (fb_attr-lt r) ∙ ap (λ (a : ℕ). 0x400_00ff + a * 2 ^ 8) (fb_attr-eq r),
      λ i. omega (arith, and-addr_mask (root i)),
      λ i. omega (arith, and-addr_mask (root i)),
      omega (arith, bit_and-low 16 r.contextidr_el1),
    )
