-- ===== src/Fb.antt =====
-- dev/video/fb.c: the framebuffer as 32-bit words, in a pixel format that the kernel does not ask.
pub mod Laws
pub mod Clear
pub mod Examples
use vega_os.Base.{
  ℕ, zero, suc, ◌+◌, ◌*◌, ◌/◌, ◌||◌, Option, none, some, ltb, leb, if◌then◌else◌, u32, u64,
}
use vega_os.Memory.{Mem, write}
use vega_os.Outcome.{Outcome, ok, halted, out_of_fuel, ◌>>=◌, deref}

-- The fields of `struct limine_framebuffer` that the kernel reads. What `address` leads to is the
-- `words` of the screen.
pub record Framebuffer : Type 0 where
  pub width : ℕ
  pub height : ℕ
  pub pitch : ℕ

-- `response` is `none` for NULL, and else its first framebuffer.
pub record Screen : Type 0 where
  pub response : Option Framebuffer
  pub words : Mem

unfoldable pub fb_assert : Screen → Outcome Screen
fb_assert s = elim (s.response) [ none ↦ halted | some f ↦ ok s ]

unfoldable pub fb_get_width : Screen → Outcome ℕ
fb_get_width s = deref s.response >>= (λ f. ok (u32 f.width))

unfoldable pub fb_get_height : Screen → Outcome ℕ
fb_get_height s = deref s.response >>= (λ f. ok (u32 f.height))

unfoldable pub get_index : ℕ → ℕ → Screen → Outcome ℕ
get_index x y s = do s ← fb_assert s; f ← deref s.response; ok (u32 (u64 (x + y * (f.pitch / 4))))

-- The answer, 1 for a pixel off the screen, and the screen.
unfoldable pub fb_putpix : ℕ → ℕ → ℕ → Screen → Outcome (ℕ × Screen)
fb_putpix x y color s = do
  width ← fb_get_width s
  height ← fb_get_height s
  if leb width x || leb height y
      then ok (1, s)
      else do index ← get_index x y s; ok (0, record s { words = write s.words index color })

-- The inner loop of fb_clear, over `x`.
unfoldable pub row_loop : ℕ → ℕ → ℕ → ℕ → Screen → Outcome Screen
row_loop zero x y color s = out_of_fuel
row_loop (suc fuel) x y color s = do
  width ← fb_get_width s
  let painted = fb_putpix x y color s
  let rest = painted >>= (λ r. row_loop fuel (u32 (x + 1)) y color r.1)
  if ltb x width then rest else ok s

-- The outer loop, over `y`. A row has at most 2 ^ 32 pixels.
unfoldable pub clear_loop : ℕ → ℕ → ℕ → Screen → Outcome Screen
clear_loop zero y color s = out_of_fuel
clear_loop (suc fuel) y color s = do
  height ← fb_get_height s
  width ← fb_get_width s
  let painted = row_loop (suc width) 0 y color s
  let rest = painted >>= clear_loop fuel (u32 (y + 1)) color
  if ltb y height then rest else ok s

unfoldable pub fb_clear : ℕ → Screen → Outcome Screen
fb_clear color s = do height ← fb_get_height s; clear_loop (suc height) 0 color s
