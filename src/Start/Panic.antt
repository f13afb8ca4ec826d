-- ===== src/Start/Panic.antt =====
-- What panic leaves on the screen.
use vega_os.Base.{◌≡◌, refl, sym, ap, ◌∙◌, arith, true, []}
use vega_os.Outcome.{Outcome, ok, ◌>>=◌, >>=-assoc}
use vega_os.Pal.{Pal, stop}
use vega_os.Fb.{Framebuffer}
use vega_os.Fb.Laws.{IsAddressable}
use vega_os.Pty.Total.{AreBytes}
use vega_os.Printk.Total.{is_whole, ArgBytes}
use vega_os.Start.Lines.{IsOn, vprintk-IsOn}
use vega_os.Log.{Call, codes}
use vega_os.Printk.{get_color, VaList, Printer, printk, vprintk, printk_default_fg}
use vega_os.Printk.Render.{Plan, done, piece, render, draw, AreWords}
use vega_os.Printk.Refine.{console_of, vprintk-render}
use vega_os.Printk.Plans.{followed_by, spelled, bracket, draw-bracket, vprintk-followed_by}
use vega_os.Start.{kern_panic, panic_prints, panic}

render-kern_panic :
    (va : VaList)
    → render va kern_panic [] printk_default_fg ≡ bracket spelled (codes " KPANIC") 0xff0000 done
unfolding render get_color
render-kern_panic va = refl

panic_prints-draw :
    (va : VaList) (call : Call) (s : Printer)
    → AreWords call.args
    → (panic_prints va call s >>= console_of)
      ≡ draw
          (bracket piece
            (codes " KPANIC")
            0xff0000
            (render va call.fmt call.args printk_default_fg))
          s.console
unfolding panic_prints printk
panic_prints-draw va call s words =
    let rest = render va call.fmt call.args printk_default_fg in
    vprintk-followed_by va kern_panic [] s (vprintk va call.fmt call.args) rest tt
      (λ t. vprintk-render va call.fmt call.args t words)
    ∙ ap (λ (p : Plan). draw (followed_by p rest) s.console) (render-kern_panic va)
    ∙ draw-bracket (codes " KPANIC") 0xff0000 rest rest (λ c. refl) s.console

banner_is_whole : (va : VaList) → is_whole (render va kern_panic [] printk_default_fg) ≡ true
unfolding render get_color
banner_is_whole va = refl

module _ (p : Pal) (va : VaList) (call : Call) (s : Printer) (core : p.Core) where
  -- What a panic draws before it halts the machine is `[ KPANIC ] `, the brackets in white and the
  -- word in red, and behind it the message as its plan has it, in the default colour until the
  -- message asks for another. The arguments of the message are 64-bit words and texts.
  pub panic-draw :
      AreWords call.args
      → (panic p va call s core >>= (λ r. console_of r.0))
        ≡ draw
            (bracket piece
              (codes " KPANIC")
              0xff0000
              (render va call.fmt call.args printk_default_fg))
            s.console
  unfolding panic
  panic-draw words =
      >>=-assoc (panic_prints va call s) (λ t. ok (t, stop p core)) (λ r. console_of r.0)
      ∙ panic_prints-draw va call s words

  -- A panic whose message can be printed comes to its end.
  pub panic-IsOn :
      (f : Framebuffer) (is : IsAddressable f)
      → is_whole (render va call.fmt call.args printk_default_fg) ≡ true
      → AreBytes call.fmt
      → ArgBytes call.args
      → AreWords call.args
      → IsOn f is s
      → (t : Printer) × (panic p va call s core ≡ ok (t, stop p core))
        × IsOn f is t
        × (draw
              (bracket piece
                (codes " KPANIC")
                0xff0000
                (render va call.fmt call.args printk_default_fg))
              s.console
            ≡ ok t.console)
  unfolding panic panic_prints printk
  panic-IsOn f is whole bytes arg_bytes words on =
      let (u, first, on') =
        vprintk-IsOn f is va kern_panic [] s (banner_is_whole va) (omega arith) tt tt on in
      let (t, second, on'') =
        vprintk-IsOn f is va call.fmt call.args u whole bytes arg_bytes words on' in
      let printed : panic_prints va call s ≡ ok t =
        ap (λ (o : Outcome Printer). o >>= vprintk va call.fmt call.args) first ∙ second in
      (
        t,
        ap (λ (o : Outcome Printer). o >>= (λ t. ok (t, stop p core))) printed,
        on'',
        sym (panic_prints-draw va call s words)
            ∙ ap (λ (o : Outcome Printer). o >>= console_of) printed,
      )
