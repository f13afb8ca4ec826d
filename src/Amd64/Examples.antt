-- ===== src/Amd64/Examples.antt =====
-- The gates for handlers that stand 64 bytes apart in the kernel's text.
use vega_os.Base.{ℕ, ◌+◌, ◌*◌, ◌%◌, ◌≡◌, refl, arith, if◌then◌else◌, true}
use vega_os.Amd64.Gdt.{gdtr}
use vega_os.Amd64.Idt.{idt_zero, idtr}
use vega_os.Amd64.Exceptions.{isr_table, exceptions_init}
use vega_os.Amd64.Delivery.{
  goes_to, raises_another, segments_at, gates_at, is_canonical, delivery, exceptions_init-delivery,
}
use vega_os.Amd64.Gates.{target, has_isr}

abbrev isr : ℕ → ℕ
isr v = 0xffff_ffff_8000_0000 + v % 0x100 * 64

page_fault_gate : target (exceptions_init isr idt_zero 0xe) ≡ 0xffff_ffff_8000_0380
unfolding exceptions_init
page_fault_gate = refl

-- The vectors 2 and 9 have no gate.
no_nmi_gate : (exceptions_init isr idt_zero 2).p ≡ 0
unfolding exceptions_init
no_nmi_gate = refl

canonical : (v : ℕ) → is_canonical (isr v) ≡ true
canonical v = ground arith

exceptions_init-delivery_example :
    delivery
      (gdtr 0x1000)
      (segments_at 0x1000)
      (idtr 0x2000)
      (gates_at 0x2000 (exceptions_init isr idt_zero))
      0xe
    ≡ (if has_isr isr_table 0xe then goes_to (isr 0xe) else raises_another)
exceptions_init-delivery_example =
    exceptions_init-delivery 0x1000 0x2000 isr idt_zero 0xe canonical (λ v. refl) (omega arith)
