-- ===== src/Start/Faults.antt =====
-- An exception of amd64 after the start: from the processor's tables to the last line.
use mathlib.Core.Path.{subst}
use Prim.Native.String.{String}
use vega_os.Base.{
  ℕ, ◌^◌, ◌<◌, ◌≡◌, ◌&&◌, ltb, refl, ap, ◌∙◌, arith, true, if◌then◌else◌, Option, some, List,
  get_elem?,
}
use vega_os.Outcome.{Outcome, ok, ok-injective, ◌>>=◌, >>=-parts}
use vega_os.Log.{codes}
use vega_os.Fb.{Framebuffer}
use vega_os.Fb.Laws.{IsAddressable}
use vega_os.Pty.{Console}
use vega_os.Pty.Total.{are_printable}
use vega_os.Printk.{by_reference, Printer}
use vega_os.Printk.Render.{piece, draw}
use vega_os.Printk.Plans.{bracket}
use vega_os.Pmm.State.{Entry, Window, Pmm}
use vega_os.Pmm.Setup.{pmm_init}
use vega_os.Amd64.Idt.{idt_zero}
use vega_os.Amd64.Exceptions.{isr_table, isr_panic}
use vega_os.Amd64.Gates.{has_isr}
use vega_os.Amd64.Delivery.{
  goes_to, raises_another, segments_at, gates_at, is_canonical, delivery, exceptions_init-delivery,
}
use vega_os.Pal.Amd64.{Processor, amd64_pal, interrupts}
use vega_os.Start.{Machine, Addresses, amd64, announce, arch_init, start, panic}
use vega_os.Start.Levels.{log_plan}
use vega_os.Start.Lines.{AreWhole, IsOn, print_all}
use vega_os.Start.Console.{start-prints}
use vega_os.Start.Handlers.{each_passes, each_passes-get, handler_plan, panic-isr_panic}

-- A listed vector has a handler, and is a byte.
listed-has_isr :
    (i vector : ℕ) (name : String)
    → get_elem? isr_table i ≡ some (vector, name)
    → (has_isr isr_table vector ≡ true) × (vector < 256)
listed-has_isr i vector name listed =
    let both =
      each_passes-get (λ v n. has_isr isr_table v && ltb v 256) isr_table i vector name all
        listed in
    (ground (arith, both), ground (arith, both))
  where
    all : each_passes (λ v n. has_isr isr_table v && ltb v 256) isr_table ≡ true
    all = unfold isr_table in refl

module _ (w : Window) (addresses : Addresses) (version : List ℕ) (response : Option (List Entry))
    (m m' : Machine) (run : start w amd64 addresses version response m ≡ ok m')
    (canonical : (v : ℕ) → is_canonical (addresses.isr v) ≡ true)
    (empty : (v : ℕ) → m.idt v ≡ idt_zero v) where
  -- After the start, each vector with a handler leads to it, and the processor raises
  -- another exception for any other.
  start-delivery :
      (v : ℕ)
      → v < 256
      → delivery m'.gdt_register
          (segments_at addresses.gdt)
          m'.idt_register
          (gates_at addresses.idt m'.idt)
          v
        ≡ (if has_isr isr_table v then goes_to (addresses.isr v) else raises_another)
  unfolding start arch_init
  start-delivery v h =
      let (p, rest, booted) =
        >>=-parts (λ (p : Pmm). ok (arch_init amd64 addresses (record m { pmm = p })))
          (pmm_init w response (announce version m.pmm)) run in
      subst
        (λ (x : Machine).
          delivery x.gdt_register (segments_at addresses.gdt) x.idt_register
            (gates_at addresses.idt x.idt) v
          ≡ (if has_isr isr_table v then goes_to (addresses.isr v) else raises_another))
        (ok-injective rest)
        (exceptions_init-delivery addresses.gdt addresses.idt addresses.isr m.idt v canonical empty
          h)

  -- When the kernel has started on amd64, an exception that has a handler leads the processor to
  -- it: the processor reads the gate and the segment at the addresses that the kernel has loaded,
  -- and the kernel's tables are where the linker put them. The handler's panic, after all lines of
  -- the start and on the same screen, is printed to its end, and leaves the processor waiting after
  -- any number of maskable interrupts. The framebuffer is addressable, the cursor anywhere, the version
  -- printable, what was in the log before the start whole, the bitmap's pointer of 64 bits and the
  -- gates empty before the start, and the handlers' addresses canonical.
  pub start-fault :
      (i vector : ℕ) (name : String) (f : Framebuffer) (is : IsAddressable f) (s : Printer)
      (h : Processor) (core : h.Core)
      → get_elem? isr_table i ≡ some (vector, name)
      → AreWhole m.pmm.log
      → are_printable version ≡ true
      → m.pmm.bitmap < 2 ^ 64
      → IsOn f is s
      → (t : Printer) × (t' : Printer) × (end : h.Core) × (delivery m'.gdt_register
            (segments_at addresses.gdt)
            m'.idt_register
            (gates_at addresses.idt m'.idt)
            vector
          ≡ goes_to (addresses.isr vector))
        × (print_all by_reference m'.pmm.log s ≡ ok t)
        × (panic (amd64_pal h) by_reference (isr_panic vector name) t core ≡ ok (t', end))
        × ((draw (log_plan by_reference m'.pmm.log) s.console
              >>= draw (bracket piece (codes " KPANIC") 0xff0000 (handler_plan vector name piece)))
            ≡ ok t'.console)
        × ((n : ℕ) → h.is_waiting (interrupts h n end) ≡ true)
  start-fault i vector name f is s h core listed whole printable small on =
      let (has, byte) = listed-has_isr i vector name listed in
      let (t, printed, on', drawn) =
        start-prints w amd64 addresses version response m m' f is by_reference s run whole printable
          small on in
      let (t', end, panicked, on'', drawn', waits) =
        panic-isr_panic i vector name listed f is t h core on' in
      (
        t,
        t',
        end,
        start-delivery vector byte ∙ rw (has) refl,
        printed,
        panicked,
        ap
              (λ (o : Outcome Console).
                o
                >>= draw
                    (bracket piece (codes " KPANIC") 0xff0000 (handler_plan vector name piece)))
              drawn
            ∙ drawn',
        waits,
      )
