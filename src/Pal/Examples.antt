-- ===== src/Pal/Examples.antt =====
-- A processor of two flags for amd64, and one of two registers for aarch64.
use vega_os.Base.{ℕ, ◌+◌, ◌≡◌, refl, ap, ◌∙◌, Bool, true, false, if◌then◌else◌}
use vega_os.Pal.Amd64.{Processor}
use vega_os.Pal.Aarch64

pub record Flags : Type 0 where
  pub enabled : Bool
  pub waiting : Bool

-- An interrupt that is not accepted stays pending.
abbrev pub raise : Flags → Flags
raise c = if c.enabled then record c { waiting = false } else c

pub raise_taken : (c : Flags) → c.enabled ≡ true → (raise c).waiting ≡ false
raise_taken c h = ap (λ (b : Bool). (if b then record c { waiting = false } else c).waiting) h

pub raise_pending :
    (c : Flags) → c.enabled ≡ false → ((raise c).waiting ≡ c.waiting) × ((raise c).enabled ≡ false)
raise_pending c h =
    let same : raise c ≡ c = ap (λ (b : Bool). if b then record c { waiting = false } else c) h in
    (ap (λ (d : Flags). d.waiting) same, ap (λ (d : Flags). d.enabled) same ∙ h)

abbrev pub flags : Processor
flags = record {
  Core = Flags;
  accepts = λ c. c.enabled;
  is_waiting = λ c. c.waiting;
  cli = λ c. record c { enabled = false };
  sti = λ c. record c { enabled = true };
  hlt = λ c. record c { waiting = true };
  interrupt = raise;
  accepts-cli = λ c. refl;
  accepts-sti = λ c. refl;
  accepts-hlt = λ c. refl;
  is_waiting-hlt = λ c. refl;
  taken = raise_taken;
  pending = raise_pending;
}

abbrev pub running : Flags
running = record { enabled = true; waiting = false }

pub record Registers : Type 0 where
  pub daif : ℕ
  pub pc : ℕ
  pub waits : ℕ

abbrev pub registers : Aarch64.Processor
registers = record {
  Core = Registers;
  daif = λ c. c.daif;
  pc = λ c. c.pc;
  msr_daif = λ value c. record c { daif = value };
  wfi = λ c. record c { waits = c.waits + 1 };
  branch = λ address c. record c { pc = address };
  daif-msr = λ value c. refl;
  daif-wfi = λ c. refl;
  daif-branch = λ address c. refl;
  pc-branch = λ address c. refl;
}

abbrev pub handling : Registers
handling = record { daif = 0; pc = 0xffff_ffff_8000_1000; waits = 0 }
