-- ===== src/Start/Handlers.antt =====
-- What an exception of amd64 leaves on the screen: the handler's panic, printed to its end.
use Prim.Native.String.{String}
use vega_os.Base.{
  ℕ, zero, suc, ◌≡◌, refl, sym, ap, ◌∙◌, arith, Bool, true, ◌&&◌, ltb, some, List, [], ◌∷◌,
  get_elem?,
}
use vega_os.Outcome.{ok}
use vega_os.Log.{codes}
use vega_os.Fb.{Framebuffer}
use vega_os.Fb.Laws.{IsAddressable}
use vega_os.Pty.{Console}
use vega_os.Pty.Total.{are_printable, AreBytes}
use vega_os.Printk.{by_reference, Printer, printk_default_fg}
use vega_os.Printk.Texts.{hex_text}
use vega_os.Printk.Render.{Plan, done, piece, convert, render, draw, AreWords}
use vega_os.Printk.Plans.{
  spelled, draw-spelled, draw-spelled_piece, draw-piece, bracket, draw-bracket,
}
use vega_os.Printk.Total.{is_whole, ArgBytes, printable-AreBytes, hex_text-printable}
use vega_os.Amd64.Exceptions.{isr_table, isr_panic}
use vega_os.Pal.{stop}
use vega_os.Pal.Amd64.{Processor, amd64_pal, interrupts, stop-interrupts}
use vega_os.Start.{panic}
use vega_os.Start.Panic.{panic-IsOn}
use vega_os.Start.Lines.{IsOn}

-- A test that each vector passes with its name.
abbrev pub each_passes : (ℕ → String → Bool) → List (ℕ × String) → Bool
each_passes test [] = true
each_passes test ((vector, name) ∷ rest) = test vector name && each_passes test rest

pub each_passes-get :
    (test : ℕ → String → Bool) (table : List (ℕ × String)) (i vector : ℕ) (name : String)
    → each_passes test table ≡ true
    → get_elem? table i ≡ some (vector, name)
    → test vector name ≡ true
each_passes-get test [] i vector name each found = cc
each_passes-get test ((v, n) ∷ rest) zero vector name each found =
    let pair : ◌≡◌ {A = ℕ × String} (vector, name) (v, n) = cc in
    ap (λ (e : ℕ × String). test e.0 e.1) pair ∙ ground arith
each_passes-get test ((v, n) ∷ rest) (suc i) vector name each found =
    each_passes-get test rest i vector name (ground arith) found

-- The name, and the vector in hexadecimal.
abbrev pub handler_plan : ℕ → String → (List ℕ → ℕ → Plan → Plan) → Plan
handler_plan vector name part = piece (codes name) printk_default_fg (
    part (codes " (vector=") printk_default_fg
      (piece (hex_text vector) printk_default_fg (part (codes ")\n") printk_default_fg done)))

module _ (i vector : ℕ) (name : String) (listed : get_elem? isr_table i ≡ some (vector, name)) where
  name_is_printable : are_printable (codes name) && ltb vector 256 ≡ true
  unfolding isr_table
  name_is_printable =
      each_passes-get (λ v n. are_printable (codes n) && ltb v 256) isr_table i vector name refl
        listed

  render-isr_panic :
      render by_reference (isr_panic vector name).fmt (isr_panic vector name).args printk_default_fg
      ≡ handler_plan vector name spelled
  unfolding isr_panic render convert
  render-isr_panic = refl

  draw-handler_plan :
      (c : Console)
      → draw (handler_plan vector name spelled) c ≡ draw (handler_plan vector name piece) c
  draw-handler_plan =
      let close = draw-spelled (codes ")\n") printk_default_fg done in
      let number = draw-piece (hex_text vector) printk_default_fg _ _ close in
      draw-piece (codes name) printk_default_fg _ _
        (draw-spelled_piece (codes " (vector=") printk_default_fg _ _ number)

  handler_is_whole :
      is_whole (
        render by_reference
          (isr_panic vector name).fmt
          (isr_panic vector name).args
          printk_default_fg)
      ≡ true
  handler_is_whole =
      rw (render-isr_panic) (ground (arith, name_is_printable, hex_text-printable vector))

  handler_has_words : AreWords (isr_panic vector name).args
  unfolding isr_panic
  handler_has_words = (ground (arith, name_is_printable), tt)

  handler_has_bytes : ArgBytes (isr_panic vector name).args
  unfolding isr_panic
  handler_has_bytes = (printable-AreBytes (codes name) (ground (arith, name_is_printable)), tt)

  handler_fmt_bytes : AreBytes (isr_panic vector name).fmt
  unfolding isr_panic
  handler_fmt_bytes = omega arith

  draw-panic_plan :
      (s : Printer)
      → draw (bracket piece (codes " KPANIC") 0xff0000 (handler_plan vector name piece)) s.console
        ≡ draw
            (bracket piece (codes " KPANIC") 0xff0000 (
              render by_reference
                (isr_panic vector name).fmt
                (isr_panic vector name).args
                printk_default_fg))
            s.console
  draw-panic_plan s =
      sym (
        draw-bracket (codes " KPANIC") 0xff0000 (handler_plan vector name spelled)
          (handler_plan vector name piece) draw-handler_plan s.console)
      ∙ draw-bracket (codes " KPANIC") 0xff0000 _ _ (λ c. refl) s.console
      ∙ ap (λ (p : Plan). draw (bracket piece (codes " KPANIC") 0xff0000 p) s.console)
          (sym render-isr_panic)

  -- Every exception of amd64 that has a handler ends in a panic that is printed to its end, on an
  -- addressable framebuffer and from any cursor on: the screen has what drawing `[ KPANIC ] `, the
  -- name of the exception and its vector in hexadecimal leaves there, and the processor waits, after
  -- any number of maskable interrupts.
  pub panic-isr_panic :
      (f : Framebuffer) (is : IsAddressable f) (s : Printer) (h : Processor) (core : h.Core)
      → IsOn f is s
      → (t : Printer) × (end : h.Core) × (panic
            (amd64_pal h)
            by_reference
            (isr_panic vector name)
            s
            core
          ≡ ok (t, end))
        × IsOn f is t
        × (draw
              (bracket piece (codes " KPANIC") 0xff0000 (handler_plan vector name piece))
              s.console
            ≡ ok t.console)
        × ((n : ℕ) → h.is_waiting (interrupts h n end) ≡ true)
  panic-isr_panic f is s h core on =
      let p = amd64_pal h in
      let (t, run, on', drawn) =
        panic-IsOn p by_reference (isr_panic vector name) s core f is handler_is_whole
          handler_fmt_bytes handler_has_bytes handler_has_words on in
      (t, stop p core, run, on', draw-panic_plan s ∙ drawn, (stop-interrupts h core).0)
