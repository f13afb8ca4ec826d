-- ===== src/Start/Vectors.antt =====
-- What el1_sp0_sync of aarch64 leaves on the screen.
use Prim.Native.String.{String}
use vega_os.Base.{
  ℕ, ◌≡◌, refl, sym, ap, ◌∙◌, bit_and, ◌>>◌, ◌==◌, true, false, Bool, [], if◌then◌else◌,
}
use vega_os.Outcome.{ok}
use vega_os.Pal.{Pal, stop}
use vega_os.Log.{codes}
use vega_os.Fb.{Framebuffer}
use vega_os.Fb.Laws.{IsAddressable}
use vega_os.Pty.Total.{are_printable, AreBytes}
use vega_os.Printk.{VaList, Printer, printk_default_fg}
use vega_os.Printk.Render.{Plan, done, piece, render, draw}
use vega_os.Printk.Plans.{spelled, draw-spelled, bracket, draw-bracket}
use vega_os.Printk.Total.{is_whole, printable-AreBytes}
use vega_os.Aarch64.Exceptions.{
  unknown_err_msg, svc_msg, mem_access_violation_msg, el1_sp0_sync, do_panic,
}
use vega_os.Start.{panic}
use vega_os.Start.Panic.{panic-IsOn}
use vega_os.Start.Lines.{IsOn}

choose {ℓ} : (P : String → Type ℓ) (b : Bool) {x y : String} → P x → P y → P (if b then x else y)
choose P true px py = px
choose P false px py = py

-- The message of an exception has no property that the three messages do not have.
message_cases {ℓ} :
    (P : String → Type ℓ) (esr : ℕ)
    → P unknown_err_msg
    → P svc_msg
    → P mem_access_violation_msg
    → P (el1_sp0_sync esr)
unfolding el1_sp0_sync
message_cases P esr unknown svc access =
    let class = bit_and (esr >> 26) 0x3f in
    choose P (class == 0) unknown
      (choose P (class == 0x15) svc (choose P (class == 0x25) access unknown))

render-do_panic :
    (va : VaList) (esr : ℕ)
    → render va
        (do_panic (el1_sp0_sync esr)).fmt
        (do_panic (el1_sp0_sync esr)).args
        printk_default_fg
      ≡ spelled (codes (el1_sp0_sync esr)) printk_default_fg done
unfolding do_panic render
render-do_panic va esr =
    message_cases
      (λ msg.
        render va (codes msg) [] printk_default_fg ≡ spelled (codes msg) printk_default_fg done)
      esr refl refl refl

message_is_whole :
    (va : VaList) (esr : ℕ)
    → is_whole (
        render va
          (do_panic (el1_sp0_sync esr)).fmt
          (do_panic (el1_sp0_sync esr)).args
          printk_default_fg)
      ≡ true
unfolding do_panic render
message_is_whole va esr =
    message_cases (λ msg. is_whole (render va (codes msg) [] printk_default_fg) ≡ true) esr refl
      refl refl

message_has_bytes : (esr : ℕ) → AreBytes (do_panic (el1_sp0_sync esr)).fmt
unfolding do_panic
message_has_bytes esr =
    printable-AreBytes (codes (el1_sp0_sync esr))
      (message_cases (λ msg. are_printable (codes msg) ≡ true) esr refl refl refl)

-- The panic of el1_sp0_sync, whatever the syndrome, is printed to its end, on an addressable
-- framebuffer, from any cursor on and however a va_list is passed: the screen has what drawing
-- `[ KPANIC ] ` and the message of the exception's class leaves there, and the processor is in the
-- state of `stop`.
pub panic-el1_sp0_sync :
    (p : Pal) (va : VaList) (esr : ℕ) (s : Printer) (core : p.Core) (f : Framebuffer)
    (is : IsAddressable f)
    → IsOn f is s
    → (t : Printer) × (panic p va (do_panic (el1_sp0_sync esr)) s core ≡ ok (t, stop p core))
      × IsOn f is t
      × (draw
            (bracket piece
              (codes " KPANIC")
              0xff0000
              (piece (codes (el1_sp0_sync esr)) printk_default_fg done))
            s.console
          ≡ ok t.console)
unfolding do_panic
panic-el1_sp0_sync p va esr s core f is on =
    let (t, run, on', drawn) =
      panic-IsOn p va (do_panic (el1_sp0_sync esr)) s core f is (message_is_whole va esr)
        (message_has_bytes esr) tt tt on in
    (
      t,
      run,
      on',
      sym (
            draw-bracket (codes " KPANIC") 0xff0000
              (spelled (codes (el1_sp0_sync esr)) printk_default_fg done)
              (piece (codes (el1_sp0_sync esr)) printk_default_fg done)
              (draw-spelled (codes (el1_sp0_sync esr)) printk_default_fg done) s.console)
          ∙ draw-bracket (codes " KPANIC") 0xff0000 _ _ (λ c. refl) s.console
          ∙ ap (λ (q : Plan). draw (bracket piece (codes " KPANIC") 0xff0000 q) s.console)
              (sym (render-do_panic va esr))
          ∙ drawn,
    )
