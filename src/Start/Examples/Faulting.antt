-- ===== src/Start/Examples/Faulting.antt =====
-- A page fault after a start on amd64.
use vega_os.Base.{ℕ, ◌≡◌, arith, refl, true, some, [], ◌∷◌}
use vega_os.Outcome.{ok, ◌>>=◌}
use vega_os.Log.{codes}
use vega_os.Amd64.Exceptions.{isr_panic}
use vega_os.Amd64.Delivery.{goes_to, segments_at, gates_at, is_canonical, delivery}
use vega_os.Pal.Amd64.{amd64_pal, interrupts}
use vega_os.Pal.Examples.{Flags, flags, running}
use vega_os.Pmm.Setup.{pmm_init}
use vega_os.Printk.{by_reference, Printer}
use vega_os.Printk.Render.{piece, draw}
use vega_os.Printk.Plans.{bracket}
use vega_os.Start.{Machine, amd64, arch_init, start, panic}
use vega_os.Start.Levels.{log_plan}
use vega_os.Start.Lines.{print_all}
use vega_os.Start.Handlers.{handler_plan}
use vega_os.Start.Faults.{start-fault}
use vega_os.Start.Examples.{
  window, entry, ready, off, addresses, small, addressable, printer, page_fault,
}

abbrev booted : Machine
booted = arch_init amd64 addresses (record off { pmm = ready })

starts : start window amd64 addresses (codes "0.1") (some (entry ∷ [])) off ≡ ok booted
unfolding start pmm_init
starts = refl

canonical : (v : ℕ) → is_canonical (addresses.isr v) ≡ true
canonical v = ground arith

start-fault_example :
    (t : Printer) × (t' : Printer) × (end : Flags) × (delivery booted.gdt_register
        (segments_at addresses.gdt)
        booted.idt_register
        (gates_at addresses.idt booted.idt)
        0xe
      ≡ goes_to (addresses.isr 0xe))
    × (print_all by_reference booted.pmm.log printer ≡ ok t)
    × (panic (amd64_pal flags) by_reference (isr_panic 0xe "Page fault") t running ≡ ok (t', end))
    × ((draw (log_plan by_reference booted.pmm.log) printer.console
          >>= draw (bracket piece (codes " KPANIC") 0xff0000 (handler_plan 0xe "Page fault" piece)))
        ≡ ok t'.console)
    × ((n : ℕ) → flags.is_waiting (interrupts flags n end) ≡ true)
start-fault_example =
    start-fault window addresses (codes "0.1") (some (entry ∷ [])) off booted starts canonical
      (λ v. refl) 12 0xe "Page fault" small addressable printer flags running page_fault tt refl
      (omega arith) (λ _. 0, 0, 0, refl)
