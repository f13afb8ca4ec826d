-- ===== src/Start/Levels.antt =====
-- What the lines of a log look like on the screen, and those of the macros kinfo and kwarn.
use vega_os.Base.{ℕ, ◌≡◌, refl, ap, ◌∙◌, List, [], ◌∷◌, ◌++◌}
use vega_os.Outcome.{◌>>=◌}
use vega_os.Log.{Call, Arg, str, codes, color_code, kern_info, kern_warning, kinfo, kwarn}
use vega_os.Pty.{Console}
use vega_os.Printk.{get_color, VaList, Printer, printk, printk_default_fg}
use vega_os.Printk.Render.{Plan, done, piece, convert, render, draw, AreWords}
use vega_os.Printk.Refine.{console_of}
use vega_os.Printk.Plans.{
  followed_by, followed_by-done, spelled, draw-spelled, draw-piece, bracket, draw-bracket,
  vprintk-followed_by,
}
use vega_os.Start.Lines.{print_all, AreWhole}

abbrev pub log_plan : VaList → List Call → Plan
log_plan va [] = done
log_plan va (call ∷ rest) =
    followed_by (render va call.fmt call.args printk_default_fg) (log_plan va rest)

abbrev pub HasWords : List Call → Type 0
HasWords [] = Unit {0}
HasWords (call ∷ rest) = AreWords call.args × HasWords rest

pub print_all-draw :
    (va : VaList) (log : List Call) (s : Printer)
    → HasWords log
    → (print_all va log s >>= console_of) ≡ draw (log_plan va log) s.console
unfolding print_all printk draw
print_all-draw va [] s words = refl
print_all-draw va (call ∷ rest) s words =
    vprintk-followed_by va call.fmt call.args s (print_all va rest) (log_plan va rest) words.0
      (λ t. print_all-draw va rest t words.1)

pub AreWhole-HasWords : (log : List Call) → AreWhole log → HasWords log
AreWhole-HasWords [] whole = tt
AreWhole-HasWords (call ∷ rest) whole = (whole.0.words, AreWhole-HasWords rest whole.1)

-- The word of a level in its colour, the module's name in yellow, and the message.
abbrev pub line : (List ℕ → ℕ → Plan → Plan) → List ℕ → ℕ → List ℕ → Plan → Plan
line part word color name rest =
    bracket part word color (piece name 0xf8a611 (part (codes ": ") 0xf8a611 rest))

draw-line :
    (word : List ℕ) (color : ℕ) (name : List ℕ) (rest : Plan) (c : Console)
    → draw (line spelled word color name rest) c ≡ draw (line piece word color name rest) c
draw-line word color name rest =
    let colon = spelled (codes ": ") 0xf8a611 rest in
    let colon' = piece (codes ": ") 0xf8a611 rest in
    draw-bracket word color (piece name 0xf8a611 colon) (piece name 0xf8a611 colon')
      (draw-piece name 0xf8a611 colon colon' (draw-spelled (codes ": ") 0xf8a611 rest))

render-kern_info :
    (va : VaList) (name : List ℕ)
    → render va (kern_info ++ color_code b'4' ++ codes "%s: ") (str name ∷ []) printk_default_fg
      ≡ line spelled (codes " INFO") 0x00a36c name done
unfolding render get_color convert
render-kern_info va name = refl

render-kern_warning :
    (va : VaList) (name : List ℕ)
    → render va (kern_warning ++ color_code b'4' ++ codes "%s: ") (str name ∷ []) printk_default_fg
      ≡ line spelled (codes " WARN") 0xbf40bf name done
unfolding render get_color convert
render-kern_warning va name = refl

-- The lines of kinfo and kwarn on the screen: `[ INFO ] ` or `[ WARN ] `, the brackets in white and
-- the word in jade or in purple, the module's name and `: ` in yellow, and behind them the message
-- as its plan has it. The arguments of the message are 64-bit words and texts.
pub print_all-kinfo :
    (va : VaList) (name fmt : List ℕ) (args : List Arg) (s : Printer)
    → AreWords args
    → let message = render va fmt args printk_default_fg in
      ((print_all va (kinfo name fmt args) s >>= console_of)
        ≡ draw (line piece (codes " INFO") 0x00a36c name message) s.console)
      × ((print_all va (kwarn name fmt args) s >>= console_of)
          ≡ draw (line piece (codes " WARN") 0xbf40bf name message) s.console)
unfolding kinfo kwarn
print_all-kinfo va name fmt args s words =
    let message = render va fmt args printk_default_fg in
    let last : followed_by message done ≡ message = followed_by-done message in
    (
      print_all-draw va (kinfo name fmt args) s (tt, (words, tt))
          ∙ ap (λ (p : Plan). draw (followed_by p (followed_by message done)) s.console)
              (render-kern_info va name)
          ∙ ap (λ (q : Plan). draw (line spelled (codes " INFO") 0x00a36c name q) s.console) last
          ∙ draw-line (codes " INFO") 0x00a36c name message s.console,
      print_all-draw va (kwarn name fmt args) s (tt, (words, tt))
          ∙ ap (λ (p : Plan). draw (followed_by p (followed_by message done)) s.console)
              (render-kern_warning va name)
          ∙ ap (λ (q : Plan). draw (line spelled (codes " WARN") 0xbf40bf name q) s.console) last
          ∙ draw-line (codes " WARN") 0xbf40bf name message s.console,
    )
