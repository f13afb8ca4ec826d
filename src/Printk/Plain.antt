-- ===== src/Printk/Plain.antt =====
-- A format without colour codes and arguments.
use vega_os.Base.{ℕ, ◌≡◌, refl, ap, ◌∙◌, sym, false, ◌==◌, List, [], ◌∷◌, ◌++◌}
use vega_os.Outcome.{Outcome, ok, ◌>>=◌, >>=-assoc, >>=-cong}
use vega_os.Log.{Arg}
use vega_os.Pty.{Console, pty_putstr}
use vega_os.Pty.Text.{pty_putstr-++}
use vega_os.Printk.{VaList, Printer, put, printk_default_fg, vprintk_loop, vprintk}

-- No code is the colour switch, the percent sign or the terminator.
abbrev pub IsPlain : List ℕ → Type 0
IsPlain [] = Unit {0}
IsPlain (c ∷ text) =
    (((c == 1) ≡ false) × ((c == b'%') ≡ false) × ((c == 0) ≡ false)) × IsPlain text

put-++ :
    (first second : List ℕ) (color : ℕ) (s : Printer)
    → put (first ++ second) color s ≡ (put first color s >>= put second color)
put-++ first second color s =
    ap (λ (o : Outcome Console). o >>= (λ c. ok (record s { console = c })))
      (pty_putstr-++ first second color s.console)
    ∙ >>=-assoc (pty_putstr first color s.console) (pty_putstr second color)
        (λ c. ok (record s { console = c }))
    ∙ sym (
        >>=-assoc (pty_putstr first color s.console) (λ c. ok (record s { console = c }))
          (put second color))

vprintk_loop-IsPlain :
    (va : VaList) (text : List ℕ) (args : List Arg) (color : ℕ) (s : Printer)
    → IsPlain text
    → vprintk_loop va text args color s ≡ put text color s
unfolding vprintk_loop pty_putstr
vprintk_loop-IsPlain va [] args color s plain = refl
vprintk_loop-IsPlain va (c ∷ []) args color s plain = rw (plain.0.0, plain.0.1, plain.0.2) refl
vprintk_loop-IsPlain va (c ∷ d ∷ text) args color s plain =
    step
    ∙ >>=-cong (put (c ∷ []) color s) (vprintk_loop va (d ∷ text) args color) (put (d ∷ text) color)
        (λ t. vprintk_loop-IsPlain va (d ∷ text) args color t plain.1)
    ∙ sym (put-++ (c ∷ []) (d ∷ text) color s)
  where
    step :
        vprintk_loop va (c ∷ d ∷ text) args color s
        ≡ (put (c ∷ []) color s >>= vprintk_loop va (d ∷ text) args color)
    step = rw (plain.0.0, plain.0.1, plain.0.2) refl

-- vprintk of a text without colour codes, percent signs and NULs takes no arguments and prints the
-- text, character by character, just as one call of pty_putstr in the default colour does.
vprintk-IsPlain :
    (va : VaList) (text : List ℕ) (args : List Arg) (s : Printer)
    → IsPlain text
    → vprintk va text args s ≡ put text printk_default_fg s
unfolding vprintk
vprintk-IsPlain va text args s plain = vprintk_loop-IsPlain va text args printk_default_fg s plain
