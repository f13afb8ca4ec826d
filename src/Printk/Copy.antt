-- ===== src/Printk/Copy.antt =====
-- What becomes of a format where its va_list is passed as a copy.
use vega_os.Base.{
  ℕ, zero, suc, ◌≤◌, ◌≡◌, refl, sym, ap, ◌∙◌, arith, inl, inr, Bool-cases, ◌==◌, u8, List, [], ◌∷◌,
  length,
}
use vega_os.Outcome.{◌>>=◌}
use vega_os.Log.{Arg, str, num}
use vega_os.Printk.{by_reference, by_copy, Printer, as_str, get_color, vprintk, printk_default_fg}
use vega_os.Printk.Texts.{hex_text, dec_text}
use vega_os.Printk.Render.{Plan, piece, convert, converted, render, draw, AreWords}
use vega_os.Printk.Refine.{Kind, is_s, is_c, is_x, is_d, is_other, kind, console_of, vprintk-render}

abbrev pub repeat : ℕ → Arg → List Arg
repeat zero a = []
repeat (suc k) a = a ∷ repeat k a

-- One conversion: the text is that of `a`, and `a` is first again.
converted-repeat :
    (a : Arg) (rest : List Arg) (k color d : ℕ) (p q : List Arg → Plan)
    → ((left : List Arg) → p left ≡ q (repeat k a))
    → ((left : List Arg) → p left ≡ q (repeat (suc k) a))
    → Kind d
    → converted (convert d (a ∷ rest)) color p ≡ converted (convert d (repeat (suc k) a)) color q
unfolding convert
converted-repeat (str text) rest k color d p q taken kept (is_s e) =
    rw (e) (ap (piece text color) (taken rest))
converted-repeat (str text) rest k color d p q taken kept (is_c e f) = rw (e, f) refl
converted-repeat (str text) rest k color d p q taken kept (is_x e f g) = rw (e, f, g) refl
converted-repeat (str text) rest k color d p q taken kept (is_d e f g h) = rw (e, f, g, h) refl
converted-repeat (str text) rest k color d p q taken kept (is_other e f g h) =
    rw (e, f, g, h) (ap (piece [] color) (kept (str text ∷ rest)))
converted-repeat (num n) rest k color d p q taken kept (is_s e) = rw (e) refl
converted-repeat (num n) rest k color d p q taken kept (is_c e f) =
    rw (e, f) (ap (piece (as_str (u8 n)) color) (taken rest))
converted-repeat (num n) rest k color d p q taken kept (is_x e f g) =
    rw (e, f, g) (ap (piece (hex_text n) color) (taken rest))
converted-repeat (num n) rest k color d p q taken kept (is_d e f g h) =
    rw (e, f, g, h) (ap (piece (dec_text n) color) (taken rest))
converted-repeat (num n) rest k color d p q taken kept (is_other e f g h) =
    rw (e, f, g, h) (ap (piece [] color) (kept (num n ∷ rest)))

render-repeat :
    (fmt : List ℕ) (a : Arg) (rest : List Arg) (k color : ℕ)
    → length fmt ≤ k
    → render by_copy fmt (a ∷ rest) color ≡ render by_reference fmt (repeat k a) color
unfolding render
render-repeat [] a rest k color h = refl
render-repeat (c ∷ []) a rest k color h = refl
render-repeat (c ∷ d ∷ fmt) a rest zero color h = absurd (omega arith)
render-repeat (c ∷ d ∷ fmt) a rest (suc k) color h = elim (Bool-cases (c == 1)) [
  | inl switch ↦ rw (switch) (render-repeat fmt a rest (suc k) (get_color d) (omega arith))
  | inr no_switch ↦ elim (Bool-cases (c == b'%')) [
    | inl percent ↦
        rw (no_switch, percent)
          (converted-repeat a rest k color d (λ left. render by_copy fmt (a ∷ rest) color)
            (λ left. render by_reference fmt left color)
            (λ left. render-repeat fmt a rest k color (omega arith))
            (λ left. render-repeat fmt a rest (suc k) color (omega arith)) (kind d))
    | inr plain ↦
        rw (no_switch, plain)
          (ap (piece (as_str c) color) (render-repeat (d ∷ fmt) a rest (suc k) color (omega arith)))
  ]
]

AreWords-repeat : (k : ℕ) (a : Arg) (rest : List Arg) → AreWords (a ∷ rest) → AreWords (repeat k a)
AreWords-repeat zero a rest words = tt
AreWords-repeat (suc k) (str text) rest words = AreWords-repeat k (str text) rest words
AreWords-repeat (suc k) (num n) rest words = (words.0, AreWords-repeat k (num n) rest words)

-- Where a va_list is passed as a copy, a format prints as it does elsewhere when every argument is
-- the first one: no conversion ever gets a later argument. Screen and cursor are compared, for
-- arguments that are 64-bit words and texts.
pub vprintk-repeat :
    (fmt : List ℕ) (a : Arg) (rest : List Arg) (s : Printer)
    → AreWords (a ∷ rest)
    → (vprintk by_copy fmt (a ∷ rest) s >>= console_of)
      ≡ (vprintk by_reference fmt (repeat (length fmt) a) s >>= console_of)
vprintk-repeat fmt a rest s words =
    vprintk-render by_copy fmt (a ∷ rest) s words
    ∙ ap (λ (p : Plan). draw p s.console)
        (render-repeat fmt a rest (length fmt) printk_default_fg (omega arith))
    ∙ sym (
        vprintk-render by_reference fmt (repeat (length fmt) a) s
          (AreWords-repeat (length fmt) a rest words))
