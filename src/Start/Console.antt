-- ===== src/Start/Console.antt =====
-- Every line of a successful start reaches the screen.
use mathlib.Core.Path.{subst}
use vega_os.Base.{
  ℕ, ◌^◌, ◌<◌, ◌≡◌, refl, sym, ap, ◌∙◌, arith, Bool-cases, inl, inr, true, Option, none, some, List,
  [], ◌∷◌, ◌++◌,
}
use vega_os.Memory.{Mem}
use vega_os.Outcome.{Outcome, ◌>>=◌, ok, >>=-parts, ok-injective}
use vega_os.Log.{codes, kinfo, num}
use vega_os.Fb.{Framebuffer}
use vega_os.Fb.Laws.{IsAddressable}
use vega_os.Pty.Total.{are_printable}
use vega_os.Printk.{get_color, VaList, Printer}
use vega_os.Printk.Render.{render, convert, draw}
use vega_os.Printk.Total.{printable-AreBytes, dec_text-printable, hex_text-printable}
use vega_os.Pmm.State.{Entry, Window, Pmm}
use vega_os.Pmm.Size.{get_bitmap_size, get_bitmap_size-bounds}
use vega_os.Pmm.Setup.{is_roomy, place_loop, setup_loop, init_messages, init_bitmap, pmm_init}
use vega_os.Mmu.Registers.{aarch64_mmu_init}
use vega_os.Start.{
  get_board_info, Machine, Addresses, Arch, amd64, aarch64, banner, announce, arch_init, start,
}
use vega_os.Start.Board.{get_board_info-AreWhole}
use vega_os.Printk.Refine.{console_of}
use vega_os.Start.Levels.{log_plan, print_all-draw, AreWhole-HasWords}
use vega_os.Start.Lines.{
  IsWhole, AreWhole, AreWhole-append, kinfo-AreWhole, IsOn, print_all, print_all-IsOn,
}

size_line-IsWhole :
    (n : ℕ)
    → n < 2 ^ 64
    → IsWhole (record { fmt = codes "Required bitmap size: %d bytes\n"; args = num n ∷ [] })
unfolding render get_color convert
size_line-IsWhole n h = record {
  whole = λ va. rw (dec_text-printable n) refl;
  fmt_bytes = omega arith;
  arg_bytes = tt;
  words = (h, tt);
}

place_line-IsWhole :
    (n : ℕ)
    → n < 2 ^ 64
    → IsWhole (record { fmt = codes "Found space for bitmap at %x\n"; args = num n ∷ [] })
unfolding render get_color convert
place_line-IsWhole n h = record {
  whole = λ va. rw (hex_text-printable n) refl;
  fmt_bytes = omega arith;
  arg_bytes = tt;
  words = (h, tt);
}

init_messages-AreWhole :
    (size bitmap : ℕ) → size < 2 ^ 64 → bitmap < 2 ^ 64 → AreWhole (init_messages size bitmap)
unfolding init_messages
init_messages-AreWhole size bitmap hs hb =
    AreWhole-append (kinfo (codes "pmm") (codes "Required bitmap size: %d bytes\n") (num size ∷ []))
      (kinfo (codes "pmm") (codes "Found space for bitmap at %x\n") (num bitmap ∷ []))
      (kinfo-AreWhole (codes "pmm") (codes "Required bitmap size: %d bytes\n") (num size ∷ []) refl
        (size_line-IsWhole size hs))
      (kinfo-AreWhole (codes "pmm") (codes "Found space for bitmap at %x\n") (num bitmap ∷ []) refl
        (place_line-IsWhole bitmap hb))

module _ (w : Window) where
  place_loop-lt :
      (size bitmap : ℕ) (m : Mem) (entries : List Entry)
      → bitmap < 2 ^ 64
      → (place_loop w size bitmap m entries).bitmap < 2 ^ 64
  unfolding place_loop
  place_loop-lt size bitmap m [] h = h
  place_loop-lt size bitmap m (e ∷ rest) h = elim (Bool-cases (is_roomy size e)) [
    | inl room ↦ rw (room) (omega arith)
    | inr no_room ↦ rw (no_room) (place_loop-lt size bitmap m rest h)
  ]

  -- What init_bitmap has printed, when it comes to its end.
  init_bitmap-log :
      (entries : List Entry) (s t : Pmm)
      → init_bitmap w entries s ≡ ok t
      → s.bitmap < 2 ^ 64
      → (size : ℕ) × (bitmap : ℕ) × (t.log ≡ s.log ++ init_messages size bitmap)
        × (size < 2 ^ 64)
        × (bitmap < 2 ^ 64)
  unfolding init_bitmap
  init_bitmap-log entries s t run small =
      let (size, placed, sized) = >>=-parts _ (get_bitmap_size entries) run in
      let (after, done, cleared) =
        >>=-parts _
          (setup_loop w size (place_loop w size s.bitmap s.mem entries).bitmap
            (place_loop w size s.bitmap s.mem entries).entries
            (place_loop w size s.bitmap s.mem entries).mem s.bitmap_start_bit)
          placed in
      (
        size,
        (place_loop w size s.bitmap s.mem entries).bitmap,
        sym (ap (λ (p : Pmm). p.log) (ok-injective done)),
        omega (arith, (get_bitmap_size-bounds entries size sized).1),
        place_loop-lt size s.bitmap s.mem entries small,
      )

banner-IsWhole : (version : List ℕ) → are_printable version ≡ true → IsWhole (banner version)
unfolding render get_color convert
banner-IsWhole version printable = record {
  whole = λ va. rw (printable) (refl {a = true});
  fmt_bytes = omega arith;
  arg_bytes = (printable-AreBytes version printable, tt);
  words = tt;
}

mmu_line-AreWhole : AreWhole (kinfo (codes "mmu") (codes "Wrote MAIR and TCR for EL1\n") [])
unfolding render get_color
mmu_line-AreWhole =
    kinfo-AreWhole (codes "mmu") (codes "Wrote MAIR and TCR for EL1\n") [] refl
      (record { whole = λ va. refl; fmt_bytes = omega arith; arg_bytes = tt; words = tt })

-- What either architecture prints after the allocator is whole.
arch_init-AreWhole :
    (arch : Arch) (addresses : Addresses) (m : Machine)
    → AreWhole m.pmm.log
    → AreWhole (arch_init arch addresses m).pmm.log
unfolding arch_init aarch64_mmu_init
arch_init-AreWhole amd64 addresses m before = before
arch_init-AreWhole aarch64 addresses m before =
    let mmu = kinfo (codes "mmu") (codes "Wrote MAIR and TCR for EL1\n") [] in
    AreWhole-append (m.pmm.log ++ mmu) (get_board_info m.midr_el1)
      (AreWhole-append m.pmm.log mmu before mmu_line-AreWhole) (get_board_info-AreWhole m.midr_el1)

pmm_init-log :
    (w : Window) (response : Option (List Entry)) (s t : Pmm)
    → pmm_init w response s ≡ ok t
    → s.bitmap < 2 ^ 64
    → (size : ℕ) × (bitmap : ℕ) × (t.log ≡ s.log ++ init_messages size bitmap)
      × (size < 2 ^ 64)
      × (bitmap < 2 ^ 64)
unfolding pmm_init
pmm_init-log w none s t run small = cc
pmm_init-log w (some entries) s t run small = init_bitmap-log w entries s t run small

module _ (w : Window) (arch : Arch) (addresses : Addresses) (version : List ℕ)
    (response : Option (List Entry)) (m m' : Machine) where
  start-AreWhole :
      start w arch addresses version response m ≡ ok m'
      → AreWhole m.pmm.log
      → are_printable version ≡ true
      → m.pmm.bitmap < 2 ^ 64
      → AreWhole m'.pmm.log
  unfolding start
  start-AreWhole run before printable small =
      let (t, rest, ready) = >>=-parts _ (pmm_init w response (announce version m.pmm)) run in
      let first = announce version m.pmm in
      let announced : AreWhole first.log =
        AreWhole-append m.pmm.log (banner version ∷ []) before
          (banner-IsWhole version printable, tt) in
      let (size, bitmap, log_is, size_lt, bitmap_lt) =
        pmm_init-log w response first t ready small in
      let whole : AreWhole t.log = subst AreWhole (sym log_is) (
        AreWhole-append first.log (init_messages size bitmap) announced
          (init_messages-AreWhole size bitmap size_lt bitmap_lt)) in
      subst (λ (x : Machine). AreWhole x.pmm.log) (ok-injective rest)
        (arch_init-AreWhole arch addresses (record m { pmm = t }) whole)

  -- When the kernel starts successfully, on either architecture and with any memory map, every
  -- line that it has printed reaches the screen: run on a console on an addressable framebuffer,
  -- the calls of printk in the log come to their end one after another, from any cursor on,
  -- however a va_list is passed, and leave on the screen what drawing the plans of all lines, in
  -- order, leaves there. The version is printable, what was in the log before the start is whole,
  -- and the bitmap's pointer has 64 bits before the start.
  pub start-prints :
      (f : Framebuffer) (is : IsAddressable f) (va : VaList) (s : Printer)
      → start w arch addresses version response m ≡ ok m'
      → AreWhole m.pmm.log
      → are_printable version ≡ true
      → m.pmm.bitmap < 2 ^ 64
      → IsOn f is s
      → (t : Printer) × (print_all va m'.pmm.log s ≡ ok t)
        × IsOn f is t
        × (draw (log_plan va m'.pmm.log) s.console ≡ ok t.console)
  start-prints f is va s run before printable small on =
      let whole = start-AreWhole run before printable small in
      let (t, ran, on') = print_all-IsOn f is va m'.pmm.log s whole on in
      (
        t,
        ran,
        on',
        sym (print_all-draw va m'.pmm.log s (AreWhole-HasWords m'.pmm.log whole))
            ∙ ap (λ (o : Outcome Printer). o >>= console_of) ran,
      )
