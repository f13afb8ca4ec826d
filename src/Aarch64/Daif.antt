-- ===== src/Aarch64/Daif.antt =====
-- aarch64/pal.s: the interrupt masks of aarch64 in the register DAIF, bit 7 for interrupts and bit 6
-- for fast ones.
use vega_os.Base.{ℕ, ◌-◌, ◌^◌, ◌<◌, ◌≡◌, ◌∙◌, arith, bit_and, bit_or, ◌==◌, ◌||◌, if◌then◌else◌}
use vega_os.Base.Bits.{bit_at, bit_at-and, bit_at-or, bit_at-pow, bit_at-complement, bit_at-le-one}

unfoldable pub global_irq_disable : ℕ → ℕ
global_irq_disable daif = bit_or daif 0xc0

unfoldable pub global_irq_enable : ℕ → ℕ
global_irq_enable daif = bit_and daif (2 ^ 64 - 1 - 0xc0)

mask_bits : (k : ℕ) → bit_at 0xc0 k ≡ (if k == 6 || k == 7 then 1 else 0)
mask_bits k = bit_at-or k (2 ^ 6) (2 ^ 7) ∙ ground (arith, bit_at-pow 6 k, bit_at-pow 7 k)

-- global_irq_disable sets both masks, global_irq_enable clears them, and each leaves every other
-- bit of DAIF alone.
pub bit_at-global_irq :
    (daif k : ℕ)
    → k < 64
    → (bit_at (global_irq_disable daif) k ≡ (if k == 6 || k == 7 then 1 else bit_at daif k))
      × (bit_at (global_irq_enable daif) k ≡ (if k == 6 || k == 7 then 0 else bit_at daif k))
unfolding global_irq_disable global_irq_enable
bit_at-global_irq daif k h = (
  bit_at-or k daif 0xc0 ∙ ground (arith, mask_bits k, bit_at-le-one k daif),
  bit_at-and k daif (2 ^ 64 - 1 - 0xc0)
      ∙ ground
          (arith, mask_bits k, bit_at-le-one k daif, bit_at-complement 64 k 0xc0 (omega arith) h),
)
