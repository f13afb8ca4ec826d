-- ===== src/Pty/Pixels.antt =====
-- pty_putch: which pixels a glyph paints wherever the cursor is, also where its coordinates wrap
-- around at 32 bits.
use mathlib.Core.Option.{get_or}
use vega_os.Base.{
  ℕ, zero, suc, ◌+◌, ◌-◌, ◌*◌, ◌%◌, ◌^◌, ◌≤◌, ◌<◌, ◌≡◌, refl, sym, ap, ◌∙◌, arith, Bool, ◌&&◌,
  Option, ◌==◌, ltb, leb, if◌then◌else◌, u32,
}
use vega_os.Memory.{Mem}
use vega_os.Outcome.{Outcome, ok, ◌>>=◌}
use vega_os.Fb.{Framebuffer, Screen}
use vega_os.Fb.Laws.{screen, width, height, stride, IsAddressable}
use vega_os.Pty.{glyph_column, column_loop, glyph_loop, pty_putch, glyph_of}
use vega_os.Pty.Glyphs.{glyph_column-lt, fb_putpix-any, ink, column_step, pixel_of}

-- How far `b` is past `a`, around 2 ^ 32.
unfoldable pub past : ℕ → ℕ → ℕ
past a b = (b + (2 ^ 32 - a % 2 ^ 32)) % 2 ^ 32

u32-past : (a k b : ℕ) → k < 2 ^ 32 → b < 2 ^ 32 → (b == u32 (a + k)) ≡ (past a b == k)
unfolding past
u32-past a k b hk hb = ground arith

-- One pixel of a column, then the ones below it.
join_rows :
    (cx cy rounds column_at row old : ℕ) {t v c u : ℕ}
    → v ≡ (if column_at == cx && row == cy then c else old)
    → t ≡ (if column_at == cx && (leb (cy + 1) row && ltb row (cy + 1 + rounds)) then u else v)
    → (row ≡ cy → u ≡ c)
    → t ≡ (if column_at == cx && (leb cy row && ltb row (cy + suc rounds)) then u else old)
join_rows cx cy rounds column_at row old first later same = ground arith

-- One column of a glyph, then the ones to its right.
join_columns :
    (cx rounds column_at row old : ℕ) {t v c u : ℕ}
    → v ≡ (if column_at == cx && (leb 0 row && ltb row 16) then c else old)
    → t
      ≡ (if (leb (cx + 1) column_at && ltb column_at (cx + 1 + rounds)) && ltb row 16 then u else v)
    → (column_at ≡ cx → u ≡ c)
    → t ≡ (if (leb cx column_at && ltb column_at (cx + suc rounds)) && ltb row 16 then u else old)
join_columns cx rounds column_at row old first later same = ground arith

columns_from_zero :
    (column_at : ℕ) (rows : Bool) (u v : ℕ)
    → (if (leb 0 column_at && ltb column_at (0 + 9)) && rows then u else v)
      ≡ (if ltb column_at 9 && rows then u else v)
columns_from_zero column_at rows u v = ground arith

-- The pixel (x', y') after the glyph at (x, y), where it was `old`.
abbrev pub glyph_on : ℕ → ℕ → ℕ → ℕ → ℕ → ℕ → ℕ → ℕ
glyph_on x y glyph fg x' y' old =
    if ltb (past x x') 9 && ltb (past y y') 16
    then pixel_of glyph fg 0 (past x x') (past y y')
    else old

module _ (f : Framebuffer) (is : IsAddressable f) where
  module _ (x y glyph cx fg bg column : ℕ) (narrow : cx < 9) where
    column_loop-paints :
        (rounds cy : ℕ) (m : Mem)
        → glyph_column glyph cx ≡ ok column
        → cy + rounds ≤ 16
        → (t : Mem) × (column_loop rounds cy x y glyph cx fg bg (screen f m) ≡ ok (screen f t))
          × ((x' y' : ℕ)
              → x' < width f
              → y' < height f
              → t (x' + y' * stride f) ≡ (
                  if past x x' == cx && (leb cy (past y y') && ltb (past y y') (cy + rounds))
                  then ink column (past y y') fg bg
                  else m (x' + y' * stride f)))
    unfolding column_loop
    column_loop-paints zero cy m found h = (m, refl, λ x' y' hx' hy'. ground arith)
    column_loop-paints (suc rounds) cy m found h =
        let (answer, m', run, pixels) =
          fb_putpix-any f is (u32 (x + cx)) (u32 (y + cy)) (ink column cy fg bg) m in
        let (t, rest, pixels') = column_loop-paints rounds (cy + 1) m' found (omega arith) in
        (
          t,
          column_step f is rounds cy x y glyph cx fg bg column answer m m' found run ∙ rest,
          λ x' y' hx' hy'.
              join_rows cx cy rounds (past x x') (past y y') (m (x' + y' * stride f))
                (pixels x' y' hx' hy'
                  ∙ rw
                      (
                        u32-past x cx x' (omega arith) (omega arith),
                        u32-past y cy y' (omega arith) (omega arith),
                      )
                      refl)
                (pixels' x' y' hx' hy') (λ e. ap (λ (k : ℕ). ink column k fg bg) e),
        )

  module _ (x y glyph fg bg : ℕ) (hg : glyph < 95) where
    glyph_loop-paints :
        (rounds cx : ℕ) (m : Mem)
        → cx + rounds ≤ 9
        → (t : Mem) × (glyph_loop rounds cx x y glyph fg bg (screen f m) ≡ ok (screen f t))
          × ((x' y' : ℕ)
              → x' < width f
              → y' < height f
              → t (x' + y' * stride f) ≡ (
                  if (leb cx (past x x') && ltb (past x x') (cx + rounds)) && ltb (past y y') 16
                  then pixel_of glyph fg bg (past x x') (past y y')
                  else m (x' + y' * stride f)))
    unfolding glyph_loop
    glyph_loop-paints zero cx m h = (m, refl, λ x' y' hx' hy'. ground arith)
    glyph_loop-paints (suc rounds) cx m h =
        let (column, found, entry) = glyph_column-lt glyph cx hg (omega arith) in
        let (m', run, pixels) =
          column_loop-paints x y glyph cx fg bg column (omega arith) 16 0 m found (omega arith) in
        let (t, rest, pixels') = glyph_loop-paints rounds (cx + 1) m' (omega arith) in
        (
          t,
          ap (λ (o : Outcome Screen). o >>= glyph_loop rounds (cx + 1) x y glyph fg bg) run ∙ rest,
          λ x' y' hx' hy'.
              join_columns cx rounds (past x x') (past y y') (m (x' + y' * stride f))
                (pixels x' y' hx' hy') (pixels' x' y' hx' hy')
                (λ here.
                  ap (λ (k : ℕ). pixel_of glyph fg bg k (past y y')) here
                  ∙ ap (λ (c : Option ℕ). ink (get_or c 0) (past y y') fg bg) entry),
        )

  pub pty_putch-paints :
      (x y c fg : ℕ) (m : Mem)
      → 32 ≤ c
      → c < 127
      → (t : Mem) × (pty_putch x y c fg 0 (screen f m) ≡ ok (screen f t))
        × ((x' y' : ℕ)
            → x' < width f
            → y' < height f
            → t (x' + y' * stride f) ≡ glyph_on x y (c - 32) fg x' y' (m (x' + y' * stride f)))
  unfolding pty_putch glyph_of
  pty_putch-paints x y c fg m low high =
      let glyph_is : c - 32 ≡ (c + 224) % 256 = omega arith in
      let (t, run, pixels) =
        glyph_loop-paints x y (c - 32) fg 0 (omega arith) 9 0 m (omega arith) in
      (
        t,
        ap (λ (g : ℕ). glyph_loop 9 0 x y g fg 0 (screen f m)) (sym glyph_is) ∙ run,
        λ x' y' hx' hy'. pixels x' y' hx' hy' ∙ columns_from_zero (past x x') _ _ _,
      )
