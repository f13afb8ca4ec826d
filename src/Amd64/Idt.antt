-- ===== src/Amd64/Idt.antt =====
-- amd64/idt.c and include/amd64/idt.h.
use vega_os.Base.{ℕ, ◌-◌, ◌*◌, ◌%◌, ◌^◌, u16, u32, ◌>>◌, ◌==◌, if◌then◌else◌}

-- The bit fields of a gate, in the order of the structure.
pub record IdtEntry : Type 0 where
  pub offset_low : ℕ
  pub cs : ℕ
  pub ist : ℕ
  pub zero : ℕ
  pub type : ℕ
  pub zero1 : ℕ
  pub dpl : ℕ
  pub p : ℕ
  pub offset_mid : ℕ
  pub offset_high : ℕ
  pub reserved : ℕ

abbrev pub trap_gate_flags : ℕ
trap_gate_flags = 0x8f

-- The table is a function of the vector, which is a byte: no index is out of range.
abbrev pub Idt : Type 0
Idt = ℕ → IdtEntry

-- The table before any gate is set: static storage, all zero.
abbrev pub idt_zero : Idt
idt_zero v = record {
  offset_low = 0;
  cs = 0;
  ist = 0;
  zero = 0;
  type = 0;
  zero1 = 0;
  dpl = 0;
  p = 0;
  offset_mid = 0;
  offset_high = 0;
  reserved = 0;
}

-- The fields that set_desc stores. `type` has four bits and keeps the low ones of `flags`.
unfoldable pub desc : ℕ → ℕ → IdtEntry
desc isr flags = record {
  offset_low = u16 isr;
  offset_mid = u16 (isr >> 16);
  offset_high = u32 (isr >> 32);
  reserved = 0;
  zero = 0;
  ist = 0;
  zero1 = 0;
  cs = 0x28;
  dpl = 3;
  p = 1;
  type = flags % 2 ^ 4;
}

unfoldable pub set_desc : ℕ → ℕ → ℕ → Idt → Idt
unfolding desc
set_desc vector isr flags idt v = if v == vector then desc isr flags else idt v

unfoldable pub register_exception : ℕ → ℕ → Idt → Idt
unfolding set_desc
register_exception vector isr idt = set_desc vector isr trap_gate_flags idt

pub record Idtr : Type 0 where
  pub limit : ℕ
  pub offset : ℕ

-- The operand of `lidt` in idt_load; `address` is that of `idt`.
unfoldable pub idtr : ℕ → Idtr
idtr address = record { limit = 16 * 256 - 1; offset = address }
