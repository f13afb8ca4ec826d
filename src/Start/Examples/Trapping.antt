-- ===== src/Start/Examples/Trapping.antt =====
-- A write to memory that is not mapped, after a start on aarch64.
use vega_os.Base.{◌≡◌, ◌==◌, arith, refl, some, none, if◌then◌else◌, [], ◌∷◌}
use vega_os.Base.Bits.{bit_at}
use vega_os.Outcome.{ok, ◌>>=◌}
use vega_os.Log.{codes}
use vega_os.Aarch64.Exceptions.{el1_sp0_sync, do_panic}
use vega_os.Aarch64.Vectors.{Source, Kind, vector_offset, entry_point, vector_tbl}
use vega_os.Pal.Aarch64.{aarch64_pal}
use vega_os.Pal.Examples.{Registers, registers, handling}
use vega_os.Printk.{by_copy, Printer, printk_default_fg}
use vega_os.Printk.Render.{done, piece, draw}
use vega_os.Printk.Plans.{bracket}
use vega_os.Start.{panic}
use vega_os.Start.Levels.{log_plan}
use vega_os.Start.Lines.{print_all}
use vega_os.Start.Exceptions.{start-exception}
use vega_os.Start.Examples.{
  window, entry, off, addresses, small, addressable, printer, booted, starts,
}

start-exception_example :
    (t : Printer) × (t' : Printer) × (end : Registers) × ((source : Source) (kind : Kind)
      → vector_tbl 0x4000 (entry_point booted.vbar_el1 source kind)
        ≡ (if vector_offset source kind == 0 then some el1_sp0_sync else none))
    × (print_all by_copy booted.pmm.log printer ≡ ok t)
    × (panic (aarch64_pal registers) by_copy (do_panic (el1_sp0_sync 0x9600_0045)) t handling
        ≡ ok (t', end))
    × ((draw (log_plan by_copy booted.pmm.log) printer.console
          >>= draw (
              bracket piece
                (codes " KPANIC")
                0xff0000
                (piece (codes (el1_sp0_sync 0x9600_0045)) printk_default_fg done)))
        ≡ ok t'.console)
    × (bit_at end.daif 7 ≡ 1)
    × (bit_at end.daif 6 ≡ 1)
    × (end.pc ≡ 0)
start-exception_example =
    start-exception window addresses (codes "0.1") (some (entry ∷ [])) off booted starts 0x9600_0045
      small addressable printer registers handling (omega arith) tt refl (omega arith)
      (λ _. 0, 0, 0, refl)
