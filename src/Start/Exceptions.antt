-- ===== src/Start/Exceptions.antt =====
-- An exception of aarch64 after the start: from the processor's table to the last line.
use mathlib.Core.Path.{subst}
use vega_os.Base.{
  ℕ, ◌%◌, ◌^◌, ◌<◌, ◌≡◌, sym, ap, ◌∙◌, ◌==◌, true, if◌then◌else◌, Option, some, none, List,
}
use vega_os.Base.Bits.{bit_at}
use vega_os.Outcome.{Outcome, ok, ok-injective, ◌>>=◌, >>=-parts}
use vega_os.Log.{codes}
use vega_os.Fb.{Framebuffer}
use vega_os.Fb.Laws.{IsAddressable}
use vega_os.Pty.{Console}
use vega_os.Pty.Total.{are_printable}
use vega_os.Printk.{by_copy, Printer, printk_default_fg}
use vega_os.Printk.Render.{done, piece, draw}
use vega_os.Printk.Plans.{bracket}
use vega_os.Pmm.State.{Entry, Window, Pmm}
use vega_os.Pmm.Setup.{pmm_init}
use vega_os.Aarch64.Exceptions.{el1_sp0_sync, do_panic}
use vega_os.Aarch64.Vectors.{
  Source, Kind, vector_offset, entry_point, vector_tbl, vector_tbl-entry_point,
}
use vega_os.Pal.{stop}
use vega_os.Pal.Aarch64.{Processor, aarch64_pal, stop-masks}
use vega_os.Start.{Machine, Addresses, aarch64, announce, arch_init, start, panic}
use vega_os.Start.Levels.{log_plan}
use vega_os.Start.Lines.{AreWhole, IsOn, print_all}
use vega_os.Start.Console.{start-prints}
use vega_os.Start.Vectors.{panic-el1_sp0_sync}

module _ (w : Window) (addresses : Addresses) (version : List ℕ) (response : Option (List Entry))
    (m m' : Machine) (run : start w aarch64 addresses version response m ≡ ok m') where
  start-vbar_el1 : m'.vbar_el1 ≡ addresses.vector_tbl
  unfolding start arch_init
  start-vbar_el1 =
      let (p, rest, booted) =
        >>=-parts (λ (p : Pmm). ok (arch_init aarch64 addresses (record m { pmm = p })))
          (pmm_init w response (announce version m.pmm)) run in
      ap (λ (x : Machine). x.vbar_el1) (sym (ok-injective rest))

  -- When the kernel has started on aarch64, the processor finds an instruction of the kernel's
  -- table only for a synchronous exception that is taken on SP_EL0, the first of the sixteen
  -- entries: the branch to el1_sp0_sync. The panic of that handler, whatever the syndrome, after
  -- all lines of the start and on the same screen, is printed to its end with the message of the
  -- exception's class, and leaves interrupts and fast interrupts masked; but when the processor is
  -- woken from the halt, it goes to the address 0. The table is aligned to 2048 bytes, the
  -- framebuffer is addressable, the cursor anywhere, the version printable, what was in the log
  -- before the start whole, and the bitmap's pointer of 64 bits before the start.
  pub start-exception :
      (esr : ℕ) (f : Framebuffer) (is : IsAddressable f) (s : Printer) (h : Processor)
      (core : h.Core)
      → addresses.vector_tbl % 0x800 ≡ 0
      → AreWhole m.pmm.log
      → are_printable version ≡ true
      → m.pmm.bitmap < 2 ^ 64
      → IsOn f is s
      → (t : Printer) × (t' : Printer) × (end : h.Core) × ((source : Source) (kind : Kind)
          → vector_tbl addresses.vector_tbl (entry_point m'.vbar_el1 source kind)
            ≡ (if vector_offset source kind == 0 then some el1_sp0_sync else none))
        × (print_all by_copy m'.pmm.log s ≡ ok t)
        × (panic (aarch64_pal h) by_copy (do_panic (el1_sp0_sync esr)) t core ≡ ok (t', end))
        × ((draw (log_plan by_copy m'.pmm.log) s.console
              >>= draw (
                  bracket piece
                    (codes " KPANIC")
                    0xff0000
                    (piece (codes (el1_sp0_sync esr)) printk_default_fg done)))
            ≡ ok t'.console)
        × (bit_at (h.daif end) 7 ≡ 1)
        × (bit_at (h.daif end) 6 ≡ 1)
        × (h.pc end ≡ 0)
  start-exception esr f is s h core aligned whole printable small on =
      let (t, printed, on', drawn) =
        start-prints w aarch64 addresses version response m m' f is by_copy s run whole printable
          small on in
      let (t', panicked, on'', drawn') =
        panic-el1_sp0_sync (aarch64_pal h) by_copy esr t core f is on' in
      let (irqs, fiqs, resumed) = stop-masks h core in
      (
        t,
        t',
        stop (aarch64_pal h) core,
        λ source kind.
            subst
              (λ (vbar : ℕ).
                vector_tbl addresses.vector_tbl (entry_point vbar source kind)
                ≡ (if vector_offset source kind == 0 then some el1_sp0_sync else none))
              (sym start-vbar_el1)
              (vector_tbl-entry_point addresses.vector_tbl source kind aligned),
        printed,
        panicked,
        ap
              (λ (o : Outcome Console).
                o
                >>= draw (
                    bracket piece (codes " KPANIC") 0xff0000
                      (piece (codes (el1_sp0_sync esr)) printk_default_fg done)))
              drawn
            ∙ drawn',
        irqs,
        fiqs,
        resumed,
      )
