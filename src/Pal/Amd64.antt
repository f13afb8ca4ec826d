-- ===== src/Pal/Amd64.antt =====
-- The platform of amd64: `cli`, `sti` and `hlt`.
use vega_os.Base.{ℕ, zero, suc, ◌≡◌, refl, ◌∙◌, Bool, true, false}
use vega_os.Pal.{Pal, stop}

-- What the processor's manual says of the three instructions and of a maskable interrupt: whether
-- such interrupts are accepted, and whether the processor waits for one.
pub record Processor : Type 1 where
  pub Core : Type 0
  pub accepts : Core → Bool
  pub is_waiting : Core → Bool
  pub cli : Core → Core
  pub sti : Core → Core
  pub hlt : Core → Core
  pub interrupt : Core → Core
  pub accepts-cli : (c : Core) → accepts (cli c) ≡ false
  pub accepts-sti : (c : Core) → accepts (sti c) ≡ true
  pub accepts-hlt : (c : Core) → accepts (hlt c) ≡ accepts c
  pub is_waiting-hlt : (c : Core) → is_waiting (hlt c) ≡ true
  pub taken : (c : Core) → accepts c ≡ true → is_waiting (interrupt c) ≡ false
  pub pending :
      (c : Core)
      → accepts c ≡ false
      → (is_waiting (interrupt c) ≡ is_waiting c) × (accepts (interrupt c) ≡ false)

abbrev pub amd64_pal : Processor → Pal
amd64_pal h = record {
  Core = h.Core;
  global_irq_disable = h.cli;
  global_irq_enable = h.sti;
  halt = h.hlt;
}

module _ (h : Processor) where
  -- `n` maskable interrupts, one after another.
  unfoldable pub interrupts : ℕ → h.Core → h.Core
  interrupts zero c = c
  interrupts (suc n) c = interrupts n (h.interrupt c)

  interrupts_masked :
      (n : ℕ) (c : h.Core) → h.accepts c ≡ false → h.is_waiting (interrupts n c) ≡ h.is_waiting c
  unfolding interrupts
  interrupts_masked zero c masked = refl
  interrupts_masked (suc n) c masked =
      let (same, still) = h.pending c masked in interrupts_masked n (h.interrupt c) still ∙ same

  -- The comment at halt(): with interrupts disabled before, the processor is halted for good as far
  -- as maskable interrupts go; with interrupts enabled, the first one that comes ends the halt.
  pub stop-interrupts :
      (c : h.Core)
      → ((n : ℕ) → h.is_waiting (interrupts n (stop (amd64_pal h) c)) ≡ true)
        × (h.is_waiting (interrupts 1 (h.hlt (h.sti c))) ≡ false)
  unfolding stop interrupts
  stop-interrupts c = (
    λ n.
        interrupts_masked n (h.hlt (h.cli c)) (h.accepts-hlt (h.cli c) ∙ h.accepts-cli c)
        ∙ h.is_waiting-hlt (h.cli c),
    h.taken (h.hlt (h.sti c)) (h.accepts-hlt (h.sti c) ∙ h.accepts-sti c),
  )
