-- ===== src/Start/Boot.antt =====
-- A start on a well-formed memory map, from the banner to the allocator's clients.
use vega_os.Base.{ℕ, ◌^◌, ◌<◌, ◌≡◌, ◌⊎◌, ap, true, some, List, ◌∷◌, ◌++◌}
use vega_os.Outcome.{Outcome, ok, ◌>>=◌}
use vega_os.Fb.{Framebuffer}
use vega_os.Fb.Laws.{IsAddressable}
use vega_os.Pty.Total.{are_printable}
use vega_os.Printk.{VaList, Printer}
use vega_os.Printk.Render.{draw}
use vega_os.Pmm.State.{Entry, Window, Pmm}
use vega_os.Pmm.Setup.{pmm_init}
use vega_os.Pmm.Frames.{pmm_alloc}
use vega_os.Pmm.Cover.{is_covered}
use vega_os.Pmm.Init.{placed_entries, init_bitmap-Initialised}
use vega_os.Pmm.Safety.{AreUsable, IsBootable}
use vega_os.Pmm.Reach.{Reach, Inv, Reach-Inv, Initialised-Inv, pmm_alloc-Inv}
use vega_os.Start.{Machine, Addresses, Arch, amd64, aarch64, announce, arch_init, start}
use vega_os.Start.Levels.{log_plan}
use vega_os.Start.Lines.{AreWhole, IsOn, print_all}
use vega_os.Start.Console.{start-prints}

module _ (w : Window) (size : ℕ) (before after : List Entry) (target : Entry) where
  -- What follows the allocator in the start leaves its invariant alone.
  arch_init-Inv :
      (arch : Arch) (addresses : Addresses) (m : Machine)
      → Inv w size before after target m.pmm
      → Inv w size before after target (arch_init arch addresses m).pmm
  unfolding arch_init
  arch_init-Inv amd64 addresses m inv = inv
  arch_init-Inv aarch64 addresses m inv = record {
    mmap_resp = inv.mmap_resp;
    bitmap = inv.bitmap;
    started = inv.started;
    free_covered = inv.free_covered;
  }

  module _ (boot : IsBootable w size before after target) where
    -- The state that a start ends in.
    pub start-booted :
        (arch : Arch) (addresses : Addresses) (version : List ℕ) (m : Machine) (b : ℕ)
        → 0 < b
        → is_covered size (placed_entries size before target after) b ≡ true
        → (m' : Machine) × (start w arch addresses version (some (before ++ target ∷ after)) m
            ≡ ok m')
          × Inv w size before after target m'.pmm
    unfolding start pmm_init
    start-booted arch addresses version m b positive covered =
        let (first, done, i) =
          init_bitmap-Initialised w (announce version m.pmm) size before after target boot.mapped
            boot.no_room boot.room boot.sized boot.in_bitmap in
        let set_up = record m { pmm = first } in
        (
          arch_init arch addresses set_up,
          ap
              (λ (o : Outcome Pmm).
                o >>= (λ p. ok (arch_init arch addresses (record m { pmm = p }))))
              done,
          arch_init-Inv arch addresses set_up (
              Initialised-Inv w size before after target boot (announce version m.pmm) first b
                positive covered i),
        )

    -- The kernel starts, on either architecture, when the boot loader hands it a bootable memory
    -- map, whose entry for the bitmap starts at a page, with a usable frame other than 0. Every line
    -- that it has printed by then reaches an addressable screen, from any cursor on and however a
    -- va_list is passed. From the state that it starts its endless loop in, and after any
    -- allocations, releases of usable frames and writes outside the bitmap, pmm_alloc of one frame
    -- or more returns 0 or frames that init_bitmap counts to the usable entries and none of which
    -- holds a byte of the bitmap. The version is printable, what was in the log before the start is
    -- whole, and the bitmap's pointer has 64 bits before the start.
    pub start-Reach :
        (arch : Arch) (addresses : Addresses) (version : List ℕ) (m : Machine) (b : ℕ)
        (f : Framebuffer) (is : IsAddressable f) (va : VaList) (s : Printer)
        → 0 < b
        → is_covered size (placed_entries size before target after) b ≡ true
        → are_printable version ≡ true
        → AreWhole m.pmm.log
        → m.pmm.bitmap < 2 ^ 64
        → IsOn f is s
        → (m' : Machine) × (t : Printer) × (start w arch addresses version
              (some (before ++ target ∷ after))
              m
            ≡ ok m')
          × (print_all va m'.pmm.log s ≡ ok t)
          × (draw (log_plan va m'.pmm.log) s.console ≡ ok t.console)
          × ((u : Pmm) (frames : ℕ)
              → Reach w size before after target m'.pmm u
              → 0 < frames
              → (address : ℕ) × (pmm_alloc w frames u ≡ ok (address, u))
                × ((address ≡ 0) ⊎ AreUsable w m.pmm size before after target address frames))
    start-Reach arch addresses version m b f is va s positive covered printable whole small on =
        let (m', run, inv) = start-booted arch addresses version m b positive covered in
        let (t, printed, on', drawn) =
          start-prints w arch addresses version (some (before ++ target ∷ after)) m m' f is va s run
            whole printable small on in
        (
          m',
          t,
          run,
          printed,
          drawn,
          λ u frames r.
              pmm_alloc-Inv w size before after target boot m.pmm u frames
                (Reach-Inv w size before after target boot r inv),
        )
