-- ===== src/Pal/Aarch64.antt =====
-- The platform of aarch64: aarch64/pal.s and the macro halt of include/sys/pal.h.
use vega_os.Base.{ℕ, ◌≡◌, ap, ◌∙◌, arith}
use vega_os.Base.Bits.{bit_at}
use vega_os.Pal.{Pal, stop}
use vega_os.Aarch64.Daif.{global_irq_disable, global_irq_enable, bit_at-global_irq}

-- What the processor's manual says of three instructions: `msr daif` writes the mask register,
-- `wfi` waits until something wakes the processor, and `b` goes to an address; the last two leave
-- the masks alone.
pub record Processor : Type 1 where
  pub Core : Type 0
  pub daif : Core → ℕ
  pub pc : Core → ℕ
  pub msr_daif : ℕ → Core → Core
  pub wfi : Core → Core
  pub branch : ℕ → Core → Core
  pub daif-msr : (value : ℕ) (c : Core) → daif (msr_daif value c) ≡ value
  pub daif-wfi : (c : Core) → daif (wfi c) ≡ daif c
  pub daif-branch : (address : ℕ) (c : Core) → daif (branch address c) ≡ daif c
  pub pc-branch : (address : ℕ) (c : Core) → pc (branch address c) ≡ address

-- `halt` is `0: wfi; b 0`. To the assembler a plain `0` is the number, and not the label before it,
-- which is `0b`: the branch is to the address 0. The state after `halt` is the one after it.
abbrev pub aarch64_pal : Processor → Pal
aarch64_pal h = record {
  Core = h.Core;
  global_irq_disable = λ c. h.msr_daif (global_irq_disable (h.daif c)) c;
  global_irq_enable = λ c. h.msr_daif (global_irq_enable (h.daif c)) c;
  halt = λ c. h.branch 0 (h.wfi c);
}

-- The end of panic masks interrupts and fast interrupts and, when it is woken, goes to address 0.
pub stop-masks :
    (h : Processor) (c : h.Core)
    → (bit_at (h.daif (stop (aarch64_pal h) c)) 7 ≡ 1)
      × (bit_at (h.daif (stop (aarch64_pal h) c)) 6 ≡ 1)
      × (h.pc (stop (aarch64_pal h) c) ≡ 0)
unfolding stop
stop-masks h c =
    let masked = global_irq_disable (h.daif c) in
    let daif_is : h.daif (h.branch 0 (h.wfi (h.msr_daif masked c))) ≡ masked =
      h.daif-branch 0 (h.wfi (h.msr_daif masked c))
      ∙ h.daif-wfi (h.msr_daif masked c)
      ∙ h.daif-msr masked c in
    (
      ap (λ (d : ℕ). bit_at d 7) daif_is ∙ (bit_at-global_irq (h.daif c) 7 (omega arith)).0,
      ap (λ (d : ℕ). bit_at d 6) daif_is ∙ (bit_at-global_irq (h.daif c) 6 (omega arith)).0,
      h.pc-branch 0 (h.wfi (h.msr_daif masked c)),
    )
