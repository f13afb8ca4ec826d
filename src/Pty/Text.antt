-- ===== src/Pty/Text.antt =====
-- pty_putstr: lines of text, one after another.
use vega_os.Base.{
  ℕ, ◌+◌, ◌-◌, ◌*◌, ◌≤◌, ◌<◌, ◌≡◌, refl, sym, ◌∙◌, ◌⊎◌, ◌==◌, if◌then◌else◌, List, [], ◌∷◌, ◌++◌,
  get_elem?, some,
}
use vega_os.Memory.{Mem}
use vega_os.Outcome.{ok, ◌>>=◌, >>=-assoc, >>=-cong}
use vega_os.Fb.{Framebuffer}
use vega_os.Fb.Laws.{screen, width, height, stride, IsAddressable}
use vega_os.Pty.{Console, put_glyph, newline, pty_putstr}
use vega_os.Pty.Glyphs.{pixel_of}

-- Printing two texts joined is printing the first and then, from where it leaves the screen and
-- the cursor, the second; a fault or halt in either is that of both.
pub pty_putstr-++ :
    (first second : List ℕ) (color : ℕ) (s : Console)
    → pty_putstr (first ++ second) color s ≡ (pty_putstr first color s >>= pty_putstr second color)
unfolding pty_putstr
pty_putstr-++ [] second color s = refl
pty_putstr-++ (c ∷ first) second color s =
    let one = if c == b'\n' then ok (newline s) else put_glyph c color s in
    >>=-cong one (pty_putstr (first ++ second) color)
      (λ t. pty_putstr first color t >>= pty_putstr second color) (pty_putstr-++ first second color)
    ∙ sym (>>=-assoc one (pty_putstr first color) (pty_putstr second color))

-- The codes of a line: 32 to 126.
abbrev pub IsLine : List ℕ → Type 0
IsLine [] = Unit {0}
IsLine (c ∷ line) = ((32 ≤ c) × (c < 127)) × IsLine line

module _ (f : Framebuffer) (is : IsAddressable f) (color : ℕ) where
  abbrev pub console : Mem → ℕ → ℕ → Console
  console m x y = record { screen = screen f m; cursor_x = x; cursor_y = y }

  -- The pixels of a line on the screen: each code has a box, one beside the other.
  abbrev pub HasGlyphs : List ℕ → Mem → ℕ → ℕ → Type 0
  HasGlyphs line t x y =
      (i c cx cy : ℕ)
      → get_elem? line i ≡ some c
      → cx < 9
      → cy < 16
      → x + 9 * i + cx < width f
      → y + cy < height f
      → t (x + 9 * i + cx + (y + cy) * stride f) ≡ pixel_of (c - 32) color 0 cx cy

  abbrev Keeps : Mem → Mem → ℕ → ℕ → ℕ → Type 0
  Keeps m t x y n =
      (x' y' : ℕ)
      → x' < width f
      → y' < height f
      → (x' < x) ⊎ ((x + 9 * n ≤ x') ⊎ ((y' < y) ⊎ (y + 16 ≤ y')))
      → t (x' + y' * stride f) ≡ m (x' + y' * stride f)
