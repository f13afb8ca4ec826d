-- ===== src/Fb/Laws.antt =====
-- One pixel: where it is, and that it is no other pixel's place.
use native.Mathlib.Nat.{mul-le-mul_right}
use vega_os.Base.{
  ℕ, ◌+◌, ◌*◌, ◌/◌, ◌%◌, ◌^◌, ◌≤◌, ◌<◌, ◌≡◌, ◌⊎◌, refl, ap, ap₂, arith, true, false, ◌||◌, ◌&&◌,
  none, some, ◌==◌, leb, if◌then◌else◌, u32, u64,
}
use vega_os.Memory.{Mem, write}
use vega_os.Outcome.{ok, fault, halted}
use vega_os.Fb.{Framebuffer, Screen, fb_assert, get_index, fb_get_width, fb_get_height, fb_putpix}

module _ (f : Framebuffer) where
  abbrev pub screen : Mem → Screen
  screen words = record { response = some f; words = words }

  abbrev pub width : ℕ
  width = u32 f.width

  abbrev pub height : ℕ
  height = u32 f.height

  abbrev pub stride : ℕ
  stride = f.pitch / 4

  -- A row of pixels fits between two rows, and a 32-bit index reaches every row.
  pub record IsAddressable : Type 0 where
    pub wide : width ≤ stride
    pub reached : height * stride ≤ 2 ^ 32

  pub index-lt : (x y : ℕ) → IsAddressable → x < width → y < height → x + y * stride < 2 ^ 32
  index-lt x y is hx hy =
      let rows : (y + 1) * stride ≤ height * stride = mul-le-mul_right stride (omega arith) in
      omega (arith, is.wide, is.reached)

  pub index-row : (x y : ℕ) → x < stride → (x + y * stride) / stride ≡ y
  index-row x y h = grind arith

  pub index-column : (x y : ℕ) → x < stride → (x + y * stride) % stride ≡ x
  index-column x y h = grind arith

  pub fb_putpix-on :
      (x y color : ℕ) (m : Mem)
      → IsAddressable
      → x < width
      → y < height
      → fb_putpix x y color (screen m) ≡ ok (0, screen (write m (x + y * stride) color))
  unfolding fb_putpix fb_get_width fb_get_height get_index fb_assert
  fb_putpix-on x y color m is hx hy =
      let on : leb width x || leb height y ≡ false = ground arith in
      let index : u32 (u64 (x + y * stride)) ≡ x + y * stride =
        omega (arith, index-lt x y is hx hy) in
      rw (on, index)

  -- The word of a pixel holds no other pixel.
  same_index :
      (x y x' y' : ℕ)
      → x < stride
      → x' < stride
      → (x + y * stride == x' + y' * stride) ≡ (x == x' && y == y')
  same_index x y x' y' h h' =
      let column = index-column x y h in
      let row = index-row x y h in
      let column' = index-column x' y' h' in
      let row' = index-row x' y' h' in
      let back : x + y * stride ≡ x' + y' * stride → (x ≡ x') × (y ≡ y') = λ e. (
        omega (arith, column, column', ap (λ (t : ℕ). t % stride) e),
        omega (arith, row, row', ap (λ (t : ℕ). t / stride) e),
      ) in
      let forth : (x ≡ x') × (y ≡ y') → x + y * stride ≡ x' + y' * stride =
        λ e. ap₂ (λ (a b : ℕ). a + b * stride) e.0 e.1 in
      ground (arith, back, forth)

  -- On a framebuffer whose rows are at least as long as the screen is wide, and whose words have
  -- 32-bit indices, fb_putpix of a pixel on the screen answers 0, gives that pixel the colour and
  -- leaves every other pixel of the screen as it was.
  pub fb_putpix-draws :
      (x y color : ℕ) (m : Mem)
      → IsAddressable
      → x < width
      → y < height
      → (t : Mem) × (fb_putpix x y color (screen m) ≡ ok (0, screen t))
        × ((x' y' : ℕ)
            → x' < width
            → y' < height
            → t (x' + y' * stride) ≡ (if x' == x && y' == y then color else m (x' + y' * stride)))
  fb_putpix-draws x y color m is hx hy = (
    write m (x + y * stride) color,
    fb_putpix-on x y color m is hx hy,
    λ x' y' hx' hy'.
        rw (same_index x' y' x y (omega (arith, is.wide)) (omega (arith, is.wide))) refl,
  )

  -- A pixel beside or below the screen is answered with 1, and nothing is drawn.
  pub fb_putpix-off :
      (x y color : ℕ) (m : Mem)
      → (width ≤ x) ⊎ (height ≤ y)
      → fb_putpix x y color (screen m) ≡ ok (1, screen m)
  unfolding fb_putpix fb_get_width fb_get_height
  fb_putpix-off x y color m off =
      let off_screen : leb width x || leb height y ≡ true = ground arith in rw (off_screen)

-- Without a framebuffer the width is read through NULL before fb_assert can halt the machine.
fb_putpix-null :
    (x y color : ℕ) (m : Mem)
    → (fb_putpix x y color (record { response = none; words = m }) ≡ fault)
      × (fb_assert (record { response = none; words = m }) ≡ halted)
unfolding fb_putpix fb_get_width fb_assert
fb_putpix-null x y color m = (refl, refl)
