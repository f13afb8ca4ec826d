-- ===== src/Start/Examples/Booting.antt =====
-- A start on a memory map of four entries, up to the allocator's answers.
use vega_os.Base.{ℕ, ◌<◌, ◌≡◌, ◌⊎◌, arith, refl, some, ◌++◌, ◌∷◌}
use vega_os.Outcome.{ok}
use vega_os.Log.{codes}
use vega_os.Pmm.State.{Pmm}
use vega_os.Pmm.Frames.{pmm_alloc}
use vega_os.Pmm.Safety.{AreUsable}
use vega_os.Pmm.Reach.{Reach}
use vega_os.Pmm.Examples.{window, before, after, ram, boot, frame_17}
use vega_os.Printk.{by_copy, Printer}
use vega_os.Printk.Render.{draw}
use vega_os.Start.{Machine, aarch64, start}
use vega_os.Start.Levels.{log_plan}
use vega_os.Start.Lines.{print_all}
use vega_os.Start.Boot.{start-Reach}
use vega_os.Start.Examples.{off, addresses, small, addressable, printer}

start-Reach_example :
    (m' : Machine) × (t : Printer) × (start window aarch64 addresses
        (codes "0.1")
        (some (before ++ ram ∷ after))
        off
      ≡ ok m')
    × (print_all by_copy m'.pmm.log printer ≡ ok t)
    × (draw (log_plan by_copy m'.pmm.log) printer.console ≡ ok t.console)
    × ((u : Pmm) (frames : ℕ)
        → Reach window 0x1000 before after ram m'.pmm u
        → 0 < frames
        → (address : ℕ) × (pmm_alloc window frames u ≡ ok (address, u))
          × ((address ≡ 0) ⊎ AreUsable window off.pmm 0x1000 before after ram address frames))
start-Reach_example =
    start-Reach window 0x1000 before after ram boot aarch64 addresses (codes "0.1") off 17 small
      addressable by_copy printer (omega arith) frame_17 refl tt (omega arith) (λ _. 0, 0, 0, refl)
