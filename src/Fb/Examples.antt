-- ===== src/Fb/Examples.antt =====
-- A screen of 4 by 3 pixels in rows of 8.
use vega_os.Base.{ℕ, ◌+◌, ◌*◌, ◌/◌, ◌%◌, ◌≤◌, ◌<◌, ◌≡◌, ◌⊎◌, arith, ◌&&◌, ◌==◌, if◌then◌else◌}
use vega_os.Memory.{Mem}
use vega_os.Outcome.{ok}
use vega_os.Fb.{Framebuffer, fb_putpix, fb_clear}
use vega_os.Fb.Laws.{screen, IsAddressable, fb_putpix-draws}
use vega_os.Fb.Clear.{fb_clear-fills}

abbrev small : Framebuffer
small = record { width = 4; height = 3; pitch = 32 }

abbrev black : Mem
black = λ _. 0

addressable : IsAddressable small
addressable = record { wide = omega arith; reached = omega arith }

fb_putpix-draws_example :
    (t : Mem) × (fb_putpix 1 2 0xff0000 (screen small black) ≡ ok (0, screen small t))
    × ((x' y' : ℕ)
        → x' < 4
        → y' < 3
        → t (x' + y' * 8) ≡ (if x' == 1 && y' == 2 then 0xff0000 else 0))
fb_putpix-draws_example =
    fb_putpix-draws small 1 2 0xff0000 black addressable (omega arith) (omega arith)

fb_clear-fills_example :
    (t : Mem) × (fb_clear 0xffffff (screen small black) ≡ ok (screen small t))
    × ((x y : ℕ) → x < 4 → y < 3 → t (x + y * 8) ≡ 0xffffff)
    × ((q : ℕ) → (3 ≤ q / 8) ⊎ (4 ≤ q % 8) → t q ≡ 0)
fb_clear-fills_example = fb_clear-fills small 0xffffff addressable black (omega arith)
