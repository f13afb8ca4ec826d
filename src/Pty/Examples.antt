-- ===== src/Pty/Examples.antt =====
-- Text on a screen of 40 by 20 pixels.
use vega_os.Base.{ℕ, ◌+◌, ◌-◌, ◌*◌, ◌<◌, ◌≡◌, refl, arith, ◌&&◌, ltb, leb, if◌then◌else◌}
use vega_os.Memory.{Mem}
use vega_os.Outcome.{ok, fault}
use vega_os.Log.{codes}
use vega_os.Fb.{Framebuffer}
use vega_os.Fb.Laws.{screen, IsAddressable}
use vega_os.Pty.{pty_putch, pty_putstr, glyph_column, glyph_of}
use vega_os.Pty.Glyphs.{pixel_of, pty_putch-draws}
use vega_os.Pty.Total.{console_at, painted, cursor_after, pty_putstr-Paints}

abbrev small : Framebuffer
small = record { width = 40; height = 20; pitch = 160 }

abbrev black : Mem
black = λ _. 0

addressable : IsAddressable small
addressable = record { wide = omega arith; reached = omega arith }

-- The column of '!' with the dot has the bits of 13311.
dot : glyph_column (glyph_of b'!') 3 ≡ ok 13311
unfolding glyph_column glyph_of
dot = refl

-- A tab has no glyph.
tab : glyph_column (glyph_of 9) 0 ≡ fault
unfolding glyph_column glyph_of
tab = refl

pty_putch-draws_example :
    (t : Mem) × (pty_putch 30 8 b'!' 7 0 (screen small black) ≡ ok (screen small t))
    × ((x' y' : ℕ)
        → x' < 40
        → y' < 20
        → t (x' + y' * 40) ≡ (
            if (leb 30 x' && ltb x' 39) && (leb 8 y' && ltb y' 24)
            then pixel_of 1 7 0 (x' - 30) (y' - 8)
            else 0))
pty_putch-draws_example =
    pty_putch-draws small addressable 30 8 b'!' 7 0 black (omega arith) (omega arith) (omega arith)
      (omega arith)

-- The second letter is over the edge, and the third on the next line.
pty_putstr-Paints_example :
    (t : Mem) × (pty_putstr (codes "ab\nc") 7 (console_at small addressable black 30 3)
      ≡ ok (console_at small addressable t 9 19))
    × ((x' y' : ℕ) → x' < 40 → y' < 20 → t (x' + y' * 40) ≡ painted (codes "ab\nc") 7 30 3 x' y' 0)
unfolding cursor_after
pty_putstr-Paints_example =
    pty_putstr-Paints small addressable 7 (codes "ab\nc") black 30 3
      (omega arith, (omega arith, (omega arith, (omega arith, tt))))
