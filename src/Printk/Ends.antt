-- ===== src/Printk/Ends.antt =====
-- Whether a call of printk ends well is decided by the plan of its format.
use vega_os.Base.{ℕ, refl, sym, inl, inr, Bool-cases, true, false, ◌==◌, List, [], ◌∷◌}
use mathlib.Core.Path.{subst}
use vega_os.Memory.{Mem}
use vega_os.Outcome.{Outcome, ◌>>=◌}
use vega_os.Log.{Arg}
use vega_os.Fb.{Framebuffer}
use vega_os.Fb.Laws.{IsAddressable}
use vega_os.Pty.{Console, pty_putstr}
use vega_os.Pty.Total.{are_printable, AreBytes, console_at, Ends, pty_putstr-Ends}
use vega_os.Printk.{VaList, left_of, Printer, get_color, vprintk, printk_default_fg}
use vega_os.Printk.Render.{Plan, done, broken, piece, render, draw, AreWords}
use vega_os.Printk.Refine.{kind, console_of, vprintk-render}
use vega_os.Printk.Total.{
  is_whole, PlanBytes, ArgBytes, as_str-AreBytes, converted-PlanBytes, ArgBytes-left_of,
}

render-PlanBytes :
    (va : VaList) (fmt : List ℕ) (args : List Arg) (color : ℕ)
    → AreBytes fmt
    → ArgBytes args
    → PlanBytes (render va fmt args color)
unfolding render
render-PlanBytes va [] args color bytes words = tt
render-PlanBytes va (c ∷ []) args color bytes words = elim (Bool-cases (c == 1)) [
  | inl switch ↦ rw (switch) tt
  | inr no_switch ↦ elim (Bool-cases (c == b'%')) [
    | inl percent ↦ rw (no_switch, percent) tt
    | inr plain ↦ rw (no_switch, plain) (as_str-AreBytes c bytes.0, tt)
  ]
]
render-PlanBytes va (c ∷ d ∷ fmt) args color bytes words = elim (Bool-cases (c == 1)) [
  | inl switch ↦ rw (switch) (render-PlanBytes va fmt args (get_color d) bytes.1.1 words)
  | inr no_switch ↦ elim (Bool-cases (c == b'%')) [
    | inl percent ↦
        rw (no_switch, percent)
          (converted-PlanBytes d color args (λ left. render va fmt (left_of va args left) color)
            words
            (λ left h.
              render-PlanBytes va fmt (left_of va args left) color bytes.1.1
                (ArgBytes-left_of va args left words h))
            (kind d))
    | inr plain ↦
        rw (no_switch, plain)
          (as_str-AreBytes c bytes.0, render-PlanBytes va (d ∷ fmt) args color bytes.1 words)
  ]
]

module _ (f : Framebuffer) (is : IsAddressable f) where
  draw-Ends :
      (p : Plan) (m : Mem) (x y : ℕ)
      → PlanBytes p
      → Ends f is (is_whole p) (draw p (console_at f is m x y))
  unfolding draw
  draw-Ends done m x y bytes = (m, x, y, refl)
  draw-Ends broken m x y bytes = refl
  draw-Ends (piece text color rest) m x y bytes =
      let ends = pty_putstr-Ends f is color text m x y bytes.0 in
      elim (Bool-cases (are_printable text)) [
        | inl e ↦
            let (t, x', y', run) : Ends f is true (pty_putstr text color (console_at f is m x y)) =
              rw e at (ends) in
            rw (e, run) (draw-Ends rest t x' y' bytes.1)
        | inr e ↦
            let run : Ends f is false (pty_putstr text color (console_at f is m x y)) =
              rw e at (ends) in
            rw (e, run) refl
      ]

  -- On an addressable framebuffer vprintk ends well exactly when the plan of the format breaks
  -- off nowhere and all its texts are printable, and else in a fault. The format and the texts
  -- among the arguments are bytes, the numbers 64-bit words.
  pub vprintk-Ends :
      (va : VaList) (fmt : List ℕ) (args : List Arg) (m h k : Mem) (x y : ℕ)
      → AreBytes fmt
      → ArgBytes args
      → AreWords args
      → Ends f is (is_whole (render va fmt args printk_default_fg)) (
          vprintk va fmt args
            (record { console = console_at f is m x y; hex_string = h; dec_string = k })
          >>= console_of)
  vprintk-Ends va fmt args m h k x y bytes arg_bytes words =
      let s : Printer = record {
        console = console_at f is m x y;
        hex_string = h;
        dec_string = k;
      } in
      let p = render va fmt args printk_default_fg in
      subst (λ (o : Outcome Console). Ends f is (is_whole p) o)
        (sym (vprintk-render va fmt args s words))
        (draw-Ends p m x y (render-PlanBytes va fmt args printk_default_fg bytes arg_bytes))
