-- ===== src/Pty.antt =====
-- pty/core.c: text on the framebuffer.
use vega_os.Base.{
  ℕ, zero, suc, ◌+◌, ◌*◌, ◌%◌, List, [], ◌∷◌, ◌==◌, if◌then◌else◌, u32, bit_and, ◌>>◌, get_elem?,
}
use vega_os.Outcome.{Outcome, ok, ◌>>=◌, deref}
use vega_os.Fb.{Screen, fb_putpix}
use vega_os.Pty.Font.{pty_font_width, pty_font_height, default_font_data}
pub mod Font
pub mod Glyphs
pub mod Pixels
pub mod Text
pub mod Total
pub mod Examples

pub record Console : Type 0 where
  pub screen : Screen
  pub cursor_x : ℕ
  pub cursor_y : ℕ

-- `c - 32` for a byte `c`. Where `char` is signed, the codes from 224 here are negative or above
-- the font, and where it is not they are above it: either way they are no glyph's.
unfoldable pub glyph_of : ℕ → ℕ
glyph_of c = (c + 224) % 256

-- The column's bits; `fault` when the array has no such element.
unfoldable pub glyph_column : ℕ → ℕ → Outcome ℕ
glyph_column glyph cx = deref (get_elem? default_font_data (glyph * pty_font_width + cx))

-- The inner loop of pty_putch, from row `cy` on, with the rounds left.
unfoldable pub column_loop : ℕ → ℕ → ℕ → ℕ → ℕ → ℕ → ℕ → ℕ → Screen → Outcome Screen
column_loop zero cy x y glyph cx fg bg s = ok s
column_loop (suc rounds) cy x y glyph cx fg bg s = do
  column ← glyph_column glyph cx
  let col = bit_and (column >> cy) 1
  (answer, s) ← fb_putpix (u32 (x + cx)) (u32 (y + cy)) (if col == 0 then bg else fg) s
  column_loop rounds (cy + 1) x y glyph cx fg bg s

-- The outer loop, from column `cx` on.
unfoldable pub glyph_loop : ℕ → ℕ → ℕ → ℕ → ℕ → ℕ → ℕ → Screen → Outcome Screen
glyph_loop zero cx x y glyph fg bg s = ok s
glyph_loop (suc rounds) cx x y glyph fg bg s = do
  s ← column_loop pty_font_height 0 x y glyph cx fg bg s
  glyph_loop rounds (cx + 1) x y glyph fg bg s

unfoldable pub pty_putch : ℕ → ℕ → ℕ → ℕ → ℕ → Screen → Outcome Screen
pty_putch x y c fg bg s = glyph_loop pty_font_width 0 x y (glyph_of c) fg bg s

unfoldable pub newline : Console → Console
newline s = record s { cursor_y = u32 (s.cursor_y + pty_font_height); cursor_x = 0 }

-- What pty_putstr does for a character other than a newline.
unfoldable pub put_glyph : ℕ → ℕ → Console → Outcome Console
put_glyph c color s = do
  screen ← pty_putch s.cursor_x s.cursor_y c color 0x000000 s.screen
  ok (record s { screen = screen; cursor_x = u32 (s.cursor_x + pty_font_width) })

-- `str` is the text before its terminator.
unfoldable pub pty_putstr : List ℕ → ℕ → Console → Outcome Console
pty_putstr [] color s = ok s
pty_putstr (c ∷ str) color s =
    let round = if c == b'\n' then ok (newline s) else put_glyph c color s in
    round >>= pty_putstr str color
