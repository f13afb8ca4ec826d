-- ===== src/Pty/Glyphs.antt =====
-- pty_putch: what a glyph changes on the screen.
use mathlib.Core.Option.{get_or}
use vega_os.Base.{
  ℕ, zero, suc, ◌+◌, ◌-◌, ◌*◌, ◌%◌, ◌^◌, ◌≤◌, ◌<◌, ◌≡◌, Bool-cases, inl, inr, refl, sym, ap, ◌∙◌,
  arith, Bool, ◌&&◌, Option, some, ◌==◌, ltb, leb, if◌then◌else◌, u32, bit_and, ◌>>◌, List, [], ◌∷◌,
  length, get_elem?,
}
use vega_os.Memory.{Mem}
use vega_os.Outcome.{Outcome, ok, ◌>>=◌}
use vega_os.Fb.{Framebuffer, Screen, fb_putpix}
use vega_os.Fb.Laws.{screen, width, height, stride, IsAddressable, fb_putpix-draws, fb_putpix-off}
use vega_os.Pty.{glyph_column, column_loop, glyph_loop, pty_putch, glyph_of}
use vega_os.Pty.Font.{default_font_data}

get_elem?-lt : (l : List ℕ) (i : ℕ) → i < length l → (a : ℕ) × (get_elem? l i ≡ some a)
get_elem?-lt [] i h = (0, ground arith)
get_elem?-lt (a ∷ l) zero h = (a, refl)
get_elem?-lt (a ∷ l) (suc i) h = get_elem?-lt l i (omega arith)

-- Each of the 95 glyphs has its nine columns.
pub glyph_column-lt :
    (glyph cx : ℕ)
    → glyph < 95
    → cx < 9
    → (column : ℕ) × (glyph_column glyph cx ≡ ok column)
      × (get_elem? default_font_data (glyph * 9 + cx) ≡ some column)
unfolding glyph_column
glyph_column-lt glyph cx hg hx =
    let size : length default_font_data ≡ 855 = refl in
    let (column, found) = get_elem?-lt default_font_data (glyph * 9 + cx) (omega arith) in
    (column, rw (found) refl, found)

-- The colour of a row of a column, and of a pixel of a glyph.
abbrev pub ink : ℕ → ℕ → ℕ → ℕ → ℕ
ink column cy fg bg = if bit_and (column >> cy) 1 == 0 then bg else fg

no_columns :
    (x cx x' : ℕ) (rows : Bool) (u v : ℕ)
    → v ≡ (if (leb (x + cx) x' && ltb x' (x + cx + 0)) && rows then u else v)
no_columns x cx x' rows u v = ground arith

columns_from_zero :
    (x x' : ℕ) (rows : Bool) (u v : ℕ)
    → (if (leb (x + 0) x' && ltb x' (x + 0 + 9)) && rows then u else v)
      ≡ (if (leb x x' && ltb x' (x + 9)) && rows then u else v)
columns_from_zero x x' rows u v = ground arith

rows_from_zero :
    (y y' : ℕ) → (leb (y + 0) y' && ltb y' (y + 0 + 16)) ≡ (leb y y' && ltb y' (y + 16))
rows_from_zero y y' = ground arith

-- One column, then the ones to its right.
join_columns :
    (x cx x' rounds old : ℕ) {rows rows' : Bool} {t u v c : ℕ}
    → v ≡ (if x' == x + cx && rows' then c else old)
    → t ≡ (if (leb (x + (cx + 1)) x' && ltb x' (x + (cx + 1) + rounds)) && rows then u else v)
    → (x' ≡ x + cx → u ≡ c)
    → rows' ≡ rows
    → t ≡ (if (leb (x + cx) x' && ltb x' (x + cx + suc rounds)) && rows then u else old)
join_columns x cx x' rounds old first later same rows_same = ground arith

abbrev pub pixel_of : ℕ → ℕ → ℕ → ℕ → ℕ → ℕ
pixel_of glyph fg bg cx cy = ink (get_or (get_elem? default_font_data (glyph * 9 + cx)) 0) cy fg bg

module _ (f : Framebuffer) (is : IsAddressable f) where
  pub fb_putpix-any :
      (x y color : ℕ) (m : Mem)
      → (answer : ℕ) × (t : Mem) × (fb_putpix x y color (screen f m) ≡ ok (answer, screen f t))
        × ((x' y' : ℕ)
            → x' < width f
            → y' < height f
            → t (x' + y' * stride f)
              ≡ (if x' == x && y' == y then color else m (x' + y' * stride f)))
  fb_putpix-any x y color m = elim (Bool-cases (ltb x (width f) && ltb y (height f))) [
    | inl on ↦
        let (t, run, pixels) = fb_putpix-draws f x y color m is (ground arith) (ground arith) in
        (0, t, run, pixels)
    | inr off ↦ (1, m, fb_putpix-off f x y color m (ground arith), λ x' y' hx hy. ground arith)
  ]

  pub column_step :
      (rounds cy x y glyph cx fg bg column answer : ℕ) (m m' : Mem)
      → glyph_column glyph cx ≡ ok column
      → fb_putpix (u32 (x + cx)) (u32 (y + cy)) (ink column cy fg bg) (screen f m)
        ≡ ok (answer, screen f m')
      → column_loop (suc rounds) cy x y glyph cx fg bg (screen f m)
        ≡ column_loop rounds (cy + 1) x y glyph cx fg bg (screen f m')
  unfolding column_loop
  column_step rounds cy x y glyph cx fg bg column answer m m' found run = rw (found, run) refl

  module _ (x y glyph cx fg bg column : ℕ) (found : glyph_column glyph cx ≡ ok column) where
    column_loop-draws :
        (rounds cy : ℕ) (m : Mem)
        → x + cx < 2 ^ 32
        → y + cy + rounds ≤ 2 ^ 32
        → (t : Mem) × (column_loop rounds cy x y glyph cx fg bg (screen f m) ≡ ok (screen f t))
          × ((x' y' : ℕ)
              → x' < width f
              → y' < height f
              → t (x' + y' * stride f) ≡ (
                  if x' == x + cx && (leb (y + cy) y' && ltb y' (y + cy + rounds))
                  then ink column (y' - y) fg bg
                  else m (x' + y' * stride f)))
    unfolding column_loop
    column_loop-draws zero cy m hx hy = (m, refl, λ x' y' hx' hy'. ground arith)
    column_loop-draws (suc rounds) cy m hx hy =
        let (answer, m', run, pixels) = fb_putpix-any (x + cx) (y + cy) (ink column cy fg bg) m in
        let (t, rest, pixels') = column_loop-draws rounds (cy + 1) m' hx (omega arith) in
        let same_x : u32 (x + cx) ≡ x + cx = omega arith in
        let same_y : u32 (y + cy) ≡ y + cy = omega arith in
        (
          t,
          column_step rounds cy x y glyph cx fg bg column answer m m' found
                (rw (same_x, same_y) run)
              ∙ rest,
          λ x' y' hx' hy'.
              let height_is : y' ≡ y + cy → ink column (y' - y) fg bg ≡ ink column cy fg bg =
                λ e. ap (λ (k : ℕ). ink column k fg bg) (omega arith) in
              ground (arith, pixels x' y' hx' hy', pixels' x' y' hx' hy', height_is),
        )

  module _ (x y glyph fg bg : ℕ) (hg : glyph < 95) where
    glyph_loop-draws :
        (rounds cx : ℕ) (m : Mem)
        → x + 9 ≤ 2 ^ 32
        → y + 16 ≤ 2 ^ 32
        → cx + rounds ≤ 9
        → (t : Mem) × (glyph_loop rounds cx x y glyph fg bg (screen f m) ≡ ok (screen f t))
          × ((x' y' : ℕ)
              → x' < width f
              → y' < height f
              → t (x' + y' * stride f) ≡ (
                  if (leb (x + cx) x' && ltb x' (x + cx + rounds)) && (leb y y' && ltb y' (y + 16))
                  then pixel_of glyph fg bg (x' - x) (y' - y)
                  else m (x' + y' * stride f)))
    unfolding glyph_loop
    glyph_loop-draws zero cx m hx hy h = (m, refl, λ x' y' hx' hy'. no_columns x cx x' _ _ _)
    glyph_loop-draws (suc rounds) cx m hx hy h =
        let (column, found, entry) = glyph_column-lt glyph cx hg (omega arith) in
        let (m', run, pixels) =
          column_loop-draws x y glyph cx fg bg column found 16 0 m (omega arith) (omega arith) in
        let (t, rest, pixels') = glyph_loop-draws rounds (cx + 1) m' hx hy (omega arith) in
        (
          t,
          ap (λ (o : Outcome Screen). o >>= glyph_loop rounds (cx + 1) x y glyph fg bg) run ∙ rest,
          λ x' y' hx' hy'.
              let column_is : x' ≡ x + cx
                  → pixel_of glyph fg bg (x' - x) (y' - y) ≡ ink column (y' - y) fg bg =
                λ e.
                  let here : x' - x ≡ cx = omega arith in
                  ap (λ (k : ℕ). pixel_of glyph fg bg k (y' - y)) here
                  ∙ ap (λ (c : Option ℕ). ink (get_or c 0) (y' - y) fg bg) entry in
              join_columns x cx x' rounds (m (x' + y' * stride f)) (pixels x' y' hx' hy')
                (pixels' x' y' hx' hy') column_is (rows_from_zero y y'),
        )

  -- pty_putch of a printable code (32 to 126), at coordinates that do not wrap, returns: inside
  -- its box of 9 by 16 pixels each pixel that is on the screen has the colour that the font asks
  -- for, and all other pixels of the screen are as they were. The rows of the framebuffer are at least as long as
  -- the screen is wide, and its words have 32-bit indices.
  pub pty_putch-draws :
      (x y c fg bg : ℕ) (m : Mem)
      → 32 ≤ c
      → c < 127
      → x + 9 ≤ 2 ^ 32
      → y + 16 ≤ 2 ^ 32
      → (t : Mem) × (pty_putch x y c fg bg (screen f m) ≡ ok (screen f t))
        × ((x' y' : ℕ)
            → x' < width f
            → y' < height f
            → t (x' + y' * stride f) ≡ (
                if (leb x x' && ltb x' (x + 9)) && (leb y y' && ltb y' (y + 16))
                then pixel_of (c - 32) fg bg (x' - x) (y' - y)
                else m (x' + y' * stride f)))
  unfolding pty_putch glyph_of
  pty_putch-draws x y c fg bg m low high hx hy =
      let glyph_is : c - 32 ≡ (c + 224) % 256 = omega arith in
      let (t, run, pixels) =
        glyph_loop-draws x y (c - 32) fg bg (omega arith) 9 0 m hx hy (omega arith) in
      (
        t,
        ap (λ (g : ℕ). glyph_loop 9 0 x y g fg bg (screen f m)) (sym glyph_is) ∙ run,
        λ x' y' hx' hy'. pixels x' y' hx' hy' ∙ columns_from_zero x x' _ _ _,
      )
