-- ===== src/Printk/Refine.antt =====
-- vprintk carries out the plan of its format.
use vega_os.Base.{
  ℕ, ◌≡◌, refl, ap, ◌∙◌, inl, inr, Bool-cases, false, true, ◌==◌, Option, some, none, List, [], ◌∷◌,
}
use vega_os.Outcome.{Outcome, ok, ◌>>=◌, >>=-assoc, >>=-cong}
use vega_os.Log.{Arg, str, num}
use vega_os.Pty.{Console, pty_putstr}
use vega_os.Printk.{
  VaList, by_reference, by_copy, left_of, Printer, put, as_str, get_color, handle_format,
  vprintk_loop, vprintk, printk_default_fg,
}
use vega_os.Printk.Render.{
  Plan, piece, convert, converted, render, draw, AreWords, Carried, put_hex-text, put_dec-text,
}

pub data Kind (d : ℕ) : Type 0 where
  is_s : (d == b's') ≡ true → Kind d
  is_c : (d == b's') ≡ false → (d == b'c') ≡ true → Kind d
  is_x : (d == b's') ≡ false → (d == b'c') ≡ false → (d == b'x') ≡ true → Kind d
  is_d :
      (d == b's') ≡ false → (d == b'c') ≡ false → (d == b'x') ≡ false → (d == b'd') ≡ true → Kind d
  is_other :
      (d == b's') ≡ false → (d == b'c') ≡ false → (d == b'x') ≡ false → (d == b'd') ≡ false → Kind d

pub kind : (d : ℕ) → Kind d
kind d = elim (Bool-cases (d == b's')) [
  | inl s ↦ is_s s
  | inr s ↦ elim (Bool-cases (d == b'c')) [
    | inl c ↦ is_c s c
    | inr c ↦ elim (Bool-cases (d == b'x')) [
      | inl x ↦ is_x s c x
      | inr x ↦ elim (Bool-cases (d == b'd')) [ inl e ↦ is_d s c x e | inr e ↦ is_other s c x e ]
    ]
  ]
]

handle_format-Kind :
    (d : ℕ) (args : List Arg) (color : ℕ) (s : Printer)
    → AreWords args
    → Kind d
    → Carried color s (convert d args) (handle_format d args color s)
unfolding handle_format convert pty_putstr
handle_format-Kind d [] color s words (is_s e) = rw (e) refl
handle_format-Kind d [] color s words (is_c e f) = rw (e, f) refl
handle_format-Kind d [] color s words (is_x e f g) = rw (e, f, g) refl
handle_format-Kind d [] color s words (is_d e f g h) = rw (e, f, g, h) refl
handle_format-Kind d [] color s words (is_other e f g h) =
    rw (e, f, g, h) (s.hex_string, s.dec_string, refl, words)
handle_format-Kind d (str text ∷ args) color s words (is_s e) =
    rw (e) (s.hex_string, s.dec_string, refl, words)
handle_format-Kind d (str text ∷ args) color s words (is_c e f) = rw (e, f) refl
handle_format-Kind d (str text ∷ args) color s words (is_x e f g) = rw (e, f, g) refl
handle_format-Kind d (str text ∷ args) color s words (is_d e f g h) = rw (e, f, g, h) refl
handle_format-Kind d (str text ∷ args) color s words (is_other e f g h) =
    rw (e, f, g, h) (s.hex_string, s.dec_string, refl, words)
handle_format-Kind d (num n ∷ args) color s words (is_s e) = rw (e) refl
handle_format-Kind d (num n ∷ args) color s words (is_c e f) =
    rw (e, f) (s.hex_string, s.dec_string, refl, words.1)
handle_format-Kind d (num n ∷ args) color s words (is_x e f g) =
    rw (e, f, g) (put_hex-text color s n args words.0 words.1)
handle_format-Kind d (num n ∷ args) color s words (is_d e f g h) =
    rw (e, f, g, h) (put_dec-text color s n args words.0 words.1)
handle_format-Kind d (num n ∷ args) color s words (is_other e f g h) =
    rw (e, f, g, h) (s.hex_string, s.dec_string, refl, words)

abbrev pub console_of : Printer → Outcome Console
console_of t = ok t.console

-- A text printed by the code, then the rest; and the piece of the plan, then its rest.
put-piece :
    (text : List ℕ) (color : ℕ) (s : Printer) (next : Printer → Outcome Printer) (rest : Plan)
    → ((t : Printer) → (next t >>= console_of) ≡ draw rest t.console)
    → (put text color s >>= next >>= console_of) ≡ draw (piece text color rest) s.console
unfolding draw
put-piece text color s next rest same =
    let printed = pty_putstr text color s.console in
    let keep = λ (c : Console). ok (record s { console = c }) in
    ap (λ (o : Outcome Printer). o >>= console_of) (>>=-assoc printed keep next)
    ∙ >>=-assoc printed (λ c. next (record s { console = c })) console_of
    ∙ >>=-cong printed (λ c. next (record s { console = c }) >>= console_of) (draw rest)
        (λ c. same (record s { console = c }))

pub AreWords-left_of :
    (va : VaList) (args left : List Arg)
    → AreWords args
    → AreWords left
    → AreWords (left_of va args left)
AreWords-left_of by_reference args left before after = after
AreWords-left_of by_copy args left before after = before

module _ (va : VaList) (fmt : List ℕ) where
  -- The rest of the format is carried out, whatever arguments are left.
  abbrev Renders : Type 0
  Renders =
      (args : List Arg) (color : ℕ) (s : Printer)
      → AreWords args
      → (vprintk_loop va fmt args color s >>= console_of)
        ≡ draw (render va fmt args color) s.console

  converted-draw :
      (args : List Arg) (color : ℕ) (s : Printer) (o : Outcome (List Arg × Printer))
      (q : Option (List ℕ × List Arg))
      → AreWords args
      → Renders
      → Carried color s q o
      → (o >>= (λ r. vprintk_loop va fmt (left_of va args r.0) color r.1) >>= console_of)
        ≡ draw (converted q color (λ left. render va fmt (left_of va args left) color)) s.console
  unfolding draw
  converted-draw args color s o none words ih carried = rw (carried) refl
  converted-draw args color s o (some (text, left)) words ih (h, k, is, words') =
      let s' = record s { hex_string = h; dec_string = k } in
      let next = λ (t : Printer). vprintk_loop va fmt (left_of va args left) color t in
      let after = λ (r : List Arg × Printer). vprintk_loop va fmt (left_of va args r.0) color r.1 in
      ap (λ (x : Outcome (List Arg × Printer)). x >>= after >>= console_of) is
      ∙ ap (λ (x : Outcome Printer). x >>= console_of)
          (>>=-assoc (put text color s') (λ t. ok (left, t)) after)
      ∙ put-piece text color s' next (render va fmt (left_of va args left) color)
          (λ t. ih (left_of va args left) color t (AreWords-left_of va args left words words'))

-- The screen and the cursor after vprintk are those of the plan of the format.
renders : (va : VaList) (fmt : List ℕ) → Renders va fmt
unfolding vprintk_loop render draw
renders va [] args color s words = refl
renders va (c ∷ []) args color s words = elim (Bool-cases (c == 1)) [
  | inl switch ↦ rw (switch) refl
  | inr no_switch ↦ elim (Bool-cases (c == b'%')) [
    | inl percent ↦ rw (no_switch, percent) refl
    | inr plain ↦
        rw (no_switch, plain)
          (>>=-assoc (pty_putstr (as_str c) color s.console)
            (λ (x : Console). ok (record s { console = x })) console_of)
  ]
]
renders va (c ∷ d ∷ fmt) args color s words = elim (Bool-cases (c == 1)) [
  | inl switch ↦ rw (switch) (renders va fmt args (get_color d) s words)
  | inr no_switch ↦ elim (Bool-cases (c == b'%')) [
    | inl percent ↦
        rw (no_switch, percent)
          (converted-draw va fmt args color s (handle_format d args color s) (convert d args) words
            (renders va fmt) (handle_format-Kind d args color s words (kind d)))
    | inr plain ↦
        rw (no_switch, plain)
          (put-piece (as_str c) color s (vprintk_loop va (d ∷ fmt) args color)
            (render va (d ∷ fmt) args color) (λ t. renders va (d ∷ fmt) args color t words))
  ]
]

-- Whatever the format and its arguments, as long as these are 64-bit words and texts: vprintk ends
-- as its plan does, with the same screen and cursor. The plan has the characters of the format one
-- by one, each argument as its text (numbers as hex_text and dec_text say), all in the colour of
-- the last switch, and a fault where an argument is missing or of the wrong type, and where the
-- format ends in a switch or a percent sign. Both ways to pass a va_list are covered.
pub vprintk-render :
    (va : VaList) (fmt : List ℕ) (args : List Arg) (s : Printer)
    → AreWords args
    → (vprintk va fmt args s >>= console_of) ≡ draw (render va fmt args printk_default_fg) s.console
unfolding vprintk
vprintk-render va fmt args s words = renders va fmt args printk_default_fg s words
