-- ===== src/Pty/Total.antt =====
-- What pty_putstr paints, and for which texts, wherever the cursor is.
use vega_os.Base.{
  ℕ, zero, suc, ◌+◌, ◌-◌, ◌*◌, ◌≤◌, ◌<◌, ◌≡◌, refl, ap, ◌∙◌, arith, inl, inr, Bool, Bool-cases,
  true, false, ◌&&◌, ◌||◌, none, ◌==◌, ltb, leb, if◌then◌else◌, u32, List, [], ◌∷◌, length,
  get_elem?,
}
use vega_os.Memory.{Mem}
use vega_os.Outcome.{Outcome, ok, fault}
use vega_os.Fb.{Framebuffer, Screen}
use vega_os.Fb.Laws.{screen, width, height, stride, IsAddressable}
use vega_os.Pty.{
  Console, glyph_of, glyph_column, column_loop, glyph_loop, pty_putch, put_glyph, newline,
  pty_putstr,
}
use vega_os.Pty.Font.{default_font_data}
use vega_os.Pty.Pixels.{glyph_on, pty_putch-paints}

-- The codes of a text that the font can print: 32 to 126, and the newline.
abbrev pub is_printable : ℕ → Bool
is_printable c = c == b'\n' || (leb 32 c && ltb c 127)

abbrev pub are_printable : List ℕ → Bool
are_printable [] = true
are_printable (c ∷ text) = is_printable c && are_printable text

abbrev pub AreBytes : List ℕ → Type 0
AreBytes [] = Unit {0}
AreBytes (c ∷ text) = (c < 256) × AreBytes text

get_elem?-ge : (l : List ℕ) (i : ℕ) → length l ≤ i → get_elem? l i ≡ none
get_elem?-ge [] i h = refl
get_elem?-ge (a ∷ l) zero h = absurd (omega arith)
get_elem?-ge (a ∷ l) (suc i) h = get_elem?-ge l i (omega arith)

glyph_column-ge : (glyph : ℕ) → 95 ≤ glyph → glyph_column glyph 0 ≡ fault
unfolding glyph_column
glyph_column-ge glyph h =
    let missing : get_elem? default_font_data (glyph * 9 + 0) ≡ none =
      get_elem?-ge default_font_data (glyph * 9 + 0) (omega arith) in
    rw (missing) refl

pty_putch-fault : (x y c fg bg : ℕ) (s : Screen) → 95 ≤ glyph_of c → pty_putch x y c fg bg s ≡ fault
unfolding pty_putch glyph_loop column_loop
pty_putch-fault x y c fg bg s h = rw (glyph_column-ge (glyph_of c) h) refl

-- The pixel (x', y') after a text from the cursor (x, y) on, where it was `old`: what the last
-- glyph over it has there.
unfoldable pub painted : List ℕ → ℕ → ℕ → ℕ → ℕ → ℕ → ℕ → ℕ
painted [] color x y x' y' old = old
painted (c ∷ text) color x y x' y' old =
    let line = painted text color (u32 (x + 9)) y x' y' (glyph_on x y (c - 32) color x' y' old) in
    let below = painted text color 0 (u32 (y + 16)) x' y' old in if c == b'\n' then below else line

-- Where a text leaves the cursor.
unfoldable pub cursor_after : List ℕ → ℕ → ℕ → ℕ × ℕ
cursor_after [] x y = (x, y)
cursor_after (c ∷ text) x y =
    let line = cursor_after text (u32 (x + 9)) y in
    let below = cursor_after text 0 (u32 (y + 16)) in if c == b'\n' then below else line

module _ (f : Framebuffer) (is : IsAddressable f) where
  abbrev pub console_at : Mem → ℕ → ℕ → Console
  console_at m x y = record { screen = screen f m; cursor_x = x; cursor_y = y }

  -- How a text ends that is put on a console: printed, with its pixels on the screen and the cursor
  -- behind it, or in a fault.
  abbrev pub Paints : Bool → List ℕ → ℕ → Mem → ℕ → ℕ → Outcome Console → Type 0
  Paints true text color m x y o =
      (t : Mem) × (o ≡ ok (console_at t (cursor_after text x y).0 (cursor_after text x y).1))
      × ((x' y' : ℕ)
          → x' < width f
          → y' < height f
          → t (x' + y' * stride f) ≡ painted text color x y x' y' (m (x' + y' * stride f)))
  Paints false text color m x y o = o ≡ fault

  -- How a text ends.
  abbrev pub Ends : Bool → Outcome Console → Type 0
  Ends true o = (t : Mem) × (x : ℕ) × (y : ℕ) × (o ≡ ok (console_at t x y))
  Ends false o = o ≡ fault

  Paints-Ends :
      (b : Bool) (text : List ℕ) (color : ℕ) (m : Mem) (x y : ℕ) (o : Outcome Console)
      → Paints b text color m x y o
      → Ends b o
  Paints-Ends true text color m x y o (t, run, pixels) =
      (t, (cursor_after text x y).0, (cursor_after text x y).1, run)
  Paints-Ends false text color m x y o h = h

  module _ (color : ℕ) where
    put_glyph-fault :
        (c x y : ℕ) (m : Mem) → 95 ≤ glyph_of c → put_glyph c color (console_at m x y) ≡ fault
    unfolding put_glyph
    put_glyph-fault c x y m h = rw (pty_putch-fault x y c color 0 (screen f m) h) refl

    put_glyph-moves :
        (c x y : ℕ) (m t : Mem)
        → pty_putch x y c color 0 (screen f m) ≡ ok (screen f t)
        → put_glyph c color (console_at m x y) ≡ ok (console_at t (u32 (x + 9)) y)
    unfolding put_glyph
    put_glyph-moves c x y m t run = rw (run) refl

    -- A printable code, then the rest of the text.
    Paints-glyph :
        (b : Bool) (c x y : ℕ) (text : List ℕ) (m m' : Mem) (o : Outcome Console)
        → (c == b'\n') ≡ false
        → ((x' y' : ℕ)
            → x' < width f
            → y' < height f
            → m' (x' + y' * stride f) ≡ glyph_on x y (c - 32) color x' y' (m (x' + y' * stride f)))
        → Paints b text color m' (u32 (x + 9)) y o
        → Paints b (c ∷ text) color m x y o
    unfolding painted cursor_after
    Paints-glyph true c x y text m m' o other pixels (t, run, pixels') = (
      t,
      rw (other) run,
      λ x' y' hx' hy'. rw (other) (
          pixels' x' y' hx' hy'
          ∙ ap (λ (old : ℕ). painted text color (u32 (x + 9)) y x' y' old) (pixels x' y' hx' hy')),
    )
    Paints-glyph false c x y text m m' o other pixels h = h

    Paints-newline :
        (b : Bool) (c x y : ℕ) (text : List ℕ) (m : Mem) (o : Outcome Console)
        → (c == b'\n') ≡ true
        → Paints b text color m 0 (u32 (y + 16)) o
        → Paints b (c ∷ text) color m x y o
    unfolding painted cursor_after
    Paints-newline true c x y text m o is_newline (t, run, pixels) =
        (t, rw (is_newline) run, λ x' y' hx' hy'. rw (is_newline) (pixels x' y' hx' hy'))
    Paints-newline false c x y text m o is_newline h = h

    -- On an addressable framebuffer every text of printable codes and newlines is printed, from
    -- any cursor on and with any colour: each pixel of the screen has what the font asks for in the
    -- last glyph over it, on black, and is as it was where no glyph comes; a glyph moves the cursor
    -- by 9 columns and a newline to the first column 16 rows below, all around 2 ^ 32. Every text
    -- with another byte is a read outside the font. A text is of bytes.
    pub pty_putstr-Paints :
        (text : List ℕ) (m : Mem) (x y : ℕ)
        → AreBytes text
        → Paints (are_printable text) text color m x y (pty_putstr text color (console_at m x y))
    unfolding pty_putstr newline glyph_of painted cursor_after
    pty_putstr-Paints [] m x y bytes = (m, refl, λ x' y' hx' hy'. refl)
    pty_putstr-Paints (c ∷ text) m x y bytes = elim (Bool-cases (c == b'\n')) [
      | inl is_newline ↦ rw (is_newline) (
          Paints-newline (are_printable text) c x y text m _ is_newline
            (pty_putstr-Paints text m 0 (u32 (y + 16)) bytes.1))
      | inr other ↦ elim (Bool-cases (leb 32 c && ltb c 127)) [
        | inl glyph ↦
            let (t, run, pixels) =
              pty_putch-paints f is x y c color m (ground (arith, glyph)) (ground (arith, glyph)) in
            rw (other, glyph, put_glyph-moves c x y m t run)
              (Paints-glyph (are_printable text) c x y text m t _ other pixels
                (pty_putstr-Paints text t (u32 (x + 9)) y bytes.1))
        | inr missing ↦ rw (other, missing, put_glyph-fault c x y m (ground (arith, bytes.0))) refl
      ]
    ]

    pub pty_putstr-Ends :
        (text : List ℕ) (m : Mem) (x y : ℕ)
        → AreBytes text
        → Ends (are_printable text) (pty_putstr text color (console_at m x y))
    pty_putstr-Ends text m x y bytes =
        Paints-Ends (are_printable text) text color m x y (pty_putstr text color (console_at m x y))
          (pty_putstr-Paints text m x y bytes)
