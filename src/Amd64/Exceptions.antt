-- ===== src/Amd64/Exceptions.antt =====
-- amd64/exceptions.c: the handlers, each of which panics with its name and vector.
use Prim.Native.String.{String}
use vega_os.Base.{ℕ, List, [], ◌∷◌}
use vega_os.Log.{Call, codes, str, num}
use vega_os.Amd64.Idt.{Idt, register_exception}

-- The lines MAKE_ISR: a vector and a name.
unfoldable pub isr_table : List (ℕ × String)
isr_table =
    (0x0, "Divide error")
    ∷ (0x1, "Debug exception")
    ∷ (0x3, "Breakpoint exception")
    ∷ (0x4, "Overflow")
    ∷ (0x5, "BOUND range exceeded")
    ∷ (0x6, "Invalid opcode")
    ∷ (0x7, "Device not available")
    ∷ (0x8, "Double fault")
    ∷ (0xa, "Invalid TSS")
    ∷ (0xb, "Segment not present")
    ∷ (0xc, "Stack segment fault")
    ∷ (0xd, "General protection fault")
    ∷ (0xe, "Page fault")
    ∷ []

-- The call of panic in the handler that MAKE_ISR defines.
unfoldable pub isr_panic : ℕ → String → Call
isr_panic vector name = record {
  fmt = codes "%s (vector=%x)\n";
  args = str (codes name) ∷ num vector ∷ [];
}

-- The lines REGISTER_EXCEPTION; `isr vector` is the address of the handler of a vector.
unfoldable pub exceptions_init : (ℕ → ℕ) → Idt → Idt
unfolding register_exception
exceptions_init isr idt0 =
    let idt1 = register_exception 0x0 (isr 0x0) idt0 in
    let idt2 = register_exception 0x1 (isr 0x1) idt1 in
    let idt3 = register_exception 0x3 (isr 0x3) idt2 in
    let idt4 = register_exception 0x4 (isr 0x4) idt3 in
    let idt5 = register_exception 0x5 (isr 0x5) idt4 in
    let idt6 = register_exception 0x6 (isr 0x6) idt5 in
    let idt7 = register_exception 0x7 (isr 0x7) idt6 in
    let idt8 = register_exception 0x8 (isr 0x8) idt7 in
    let idt9 = register_exception 0xa (isr 0xa) idt8 in
    let idt10 = register_exception 0xb (isr 0xb) idt9 in
    let idt11 = register_exception 0xc (isr 0xc) idt10 in
    let idt12 = register_exception 0xd (isr 0xd) idt11 in register_exception 0xe (isr 0xe) idt12
