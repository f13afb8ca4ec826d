-- ===== src/Start/Lines.antt =====
-- The lines of the log on the console.
use mathlib.Core.Path.{subst}
use vega_os.Base.{ℕ, ◌≡◌, refl, sym, ap, ◌∙◌, arith, true, List, [], ◌∷◌, ◌++◌}
use vega_os.Memory.{Mem}
use vega_os.Outcome.{ok-injective, Outcome, ok, ◌>>=◌, >>=-parts}
use vega_os.Log.{Call, Arg, codes, kinfo, kern_info, color_code, str}
use vega_os.Fb.{Framebuffer}
use vega_os.Fb.Laws.{IsAddressable}
use vega_os.Pty.{Console}
use vega_os.Pty.Total.{are_printable, AreBytes, console_at, Ends}
use vega_os.Printk.{get_color, VaList, Printer, vprintk, printk, printk_default_fg}
use vega_os.Printk.Render.{render, convert, AreWords}
use vega_os.Printk.Refine.{console_of}
use vega_os.Printk.Total.{is_whole, ArgBytes, printable-AreBytes}
use vega_os.Printk.Ends.{vprintk-Ends}

-- The calls of a log, one after another.
unfoldable pub print_all : VaList → List Call → Printer → Outcome Printer
print_all va [] s = ok s
print_all va (call ∷ rest) s = printk va call s >>= print_all va rest

-- A call that reaches the screen whole, however a va_list is passed.
pub record IsWhole (call : Call) : Type 0 where
  pub whole : (va : VaList) → is_whole (render va call.fmt call.args printk_default_fg) ≡ true
  pub fmt_bytes : AreBytes call.fmt
  pub arg_bytes : ArgBytes call.args
  pub words : AreWords call.args

abbrev pub AreWhole : List Call → Type 0
AreWhole [] = Unit {0}
AreWhole (call ∷ rest) = IsWhole call × AreWhole rest

pub AreWhole-append : (xs ys : List Call) → AreWhole xs → AreWhole ys → AreWhole (xs ++ ys)
AreWhole-append [] ys hx hy = hy
AreWhole-append (x ∷ xs) ys hx hy = (hx.0, AreWhole-append xs ys hx.1 hy)

module _ (f : Framebuffer) (is : IsAddressable f) where
  -- The printer's console is on the screen `f`.
  abbrev pub IsOn : Printer → Type 0
  IsOn s = (m : Mem) × (x : ℕ) × (y : ℕ) × (s.console ≡ console_at f is m x y)

  pub vprintk-IsOn :
      (va : VaList) (fmt : List ℕ) (args : List Arg) (s : Printer)
      → is_whole (render va fmt args printk_default_fg) ≡ true
      → AreBytes fmt
      → ArgBytes args
      → AreWords args
      → IsOn s
      → (t : Printer) × (vprintk va fmt args s ≡ ok t) × IsOn t
  vprintk-IsOn va fmt args s whole bytes arg_bytes words (m, x, y, on) =
      let o = vprintk va fmt args s in
      let ends : Ends f is true (o >>= console_of) =
        subst
          (λ (c : Console).
            Ends f is true (vprintk va fmt args (record s { console = c }) >>= console_of))
          (sym on)
          (rw (whole) at (
            vprintk-Ends f is va fmt args m s.hex_string s.dec_string x y bytes arg_bytes words)) in
      let (m', x', y', run) = ends in
      let (t, on', ran) = >>=-parts console_of o run in (t, ran, (m', x', y', ok-injective on'))

  -- A log of such calls is printed to its end.
  pub print_all-IsOn :
      (va : VaList) (log : List Call) (s : Printer)
      → AreWhole log
      → IsOn s
      → (t : Printer) × (print_all va log s ≡ ok t) × IsOn t
  unfolding print_all printk
  print_all-IsOn va [] s whole on = (s, refl, on)
  print_all-IsOn va (call ∷ rest) s whole on =
      let (t, run, on') =
        vprintk-IsOn va call.fmt call.args s (whole.0.whole va) whole.0.fmt_bytes whole.0.arg_bytes
          whole.0.words on in
      let (u, run', on'') = print_all-IsOn va rest t whole.1 on' in
      (u, ap (λ (o : Outcome Printer). o >>= print_all va rest) run ∙ run', on'')

-- The first of the two calls of the macro `kinfo`.
kinfo_name-IsWhole :
    (name : List ℕ)
    → are_printable name ≡ true
    → IsWhole (record { fmt = kern_info ++ color_code b'4' ++ codes "%s: "; args = str name ∷ [] })
unfolding render get_color convert
kinfo_name-IsWhole name printable = record {
  whole = λ va. rw (printable) refl;
  fmt_bytes = omega arith;
  arg_bytes = (printable-AreBytes name printable, tt);
  words = tt;
}

pub kinfo-AreWhole :
    (name fmt : List ℕ) (args : List Arg)
    → are_printable name ≡ true
    → IsWhole (record { fmt = fmt; args = args })
    → AreWhole (kinfo name fmt args)
unfolding kinfo
kinfo-AreWhole name fmt args printable whole = (kinfo_name-IsWhole name printable, (whole, tt))
