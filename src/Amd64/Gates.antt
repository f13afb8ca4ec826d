-- ===== src/Amd64/Gates.antt =====
-- What the processor finds in the gates that the kernel installs.
use Prim.Native.String.{String}
use vega_os.Base.{
  ℕ, ◌+◌, ◌*◌, ◌/◌, ◌%◌, ◌^◌, ◌<◌, ◌≡◌, refl, arith, ◌==◌, if◌then◌else◌, ◌&&◌, ◌||◌, Bool, true,
  false, List, [], ◌∷◌,
}
use vega_os.Amd64.Gdt.{GdtEntry, gdt}
use vega_os.Amd64.Idt.{IdtEntry, Idt, desc}
use vega_os.Amd64.Exceptions.{isr_table, exceptions_init}

-- The address to which the processor goes through a gate.
abbrev pub target : IdtEntry → ℕ
target e = e.offset_low + e.offset_mid * 2 ^ 16 + e.offset_high * 2 ^ 32

-- A vector with a handler.
abbrev pub has_isr : List (ℕ × String) → ℕ → Bool
has_isr [] v = false
has_isr ((vector, _) ∷ rest) v = (v == vector) || has_isr rest v

-- A present code segment of ring 0 in 64-bit mode: P, DPL 0, S and executable; L without D.
abbrev pub is_kernel_code : GdtEntry → Bool
is_kernel_code e = (e.access / 8 == 19) && ((e.granularity / 32 % 4) == 1)

-- A present trap gate of 64-bit mode that leads to `isr` through a kernel code segment.
pub record IsTrapGate (isr : ℕ) (e : IdtEntry) : Type 0 where
  pub leads : target e ≡ isr
  pub present : e.p ≡ 1
  pub trap : e.type ≡ 0xf
  pub own_stack : e.ist ≡ 0
  pub segment : is_kernel_code (gdt (e.cs / 8)) ≡ true
  pub table : e.cs % 8 ≡ 0

pub desc-IsTrapGate : (isr : ℕ) → isr < 2 ^ 64 → IsTrapGate isr (desc isr 0x8f)
unfolding desc gdt
desc-IsTrapGate isr h = record {
  leads = omega arith;
  present = refl;
  trap = refl;
  own_stack = refl;
  segment = refl;
  table = refl;
}

pub exceptions_init-eq :
    (isr : ℕ → ℕ) (idt : Idt) (v : ℕ)
    → exceptions_init isr idt v ≡ (if has_isr isr_table v then desc (isr v) 0x8f else idt v)
unfolding exceptions_init isr_table
exceptions_init-eq isr idt v = ground arith

-- After exceptions_init every vector with a handler has a present 64-bit trap gate that leads to
-- that handler's address, on the current stack, through a GDT entry that is a 64-bit kernel code
-- segment, and every other vector has the gate that it had before. Condition: the handlers'
-- addresses have 64 bits.
pub exceptions_init-IsTrapGate :
    (isr : ℕ → ℕ) (idt : Idt)
    → ((v : ℕ) → isr v < 2 ^ 64)
    → (v : ℕ)
    → (has_isr isr_table v ≡ true → IsTrapGate (isr v) (exceptions_init isr idt v))
      × (has_isr isr_table v ≡ false → exceptions_init isr idt v ≡ idt v)
exceptions_init-IsTrapGate isr idt wide v = (
  λ has. rw (exceptions_init-eq isr idt v, has) (desc-IsTrapGate (isr v) (wide v)),
  λ lacks. rw (exceptions_init-eq isr idt v, lacks),
)
