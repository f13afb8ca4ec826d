-- ===== src/Start/Blind.antt =====
-- A panic without a framebuffer.
use vega_os.Base.{ℕ, ◌≡◌, refl, none}
use vega_os.Memory.{Mem}
use vega_os.Outcome.{fault, halted}
use vega_os.Log.{Call}
use vega_os.Fb.{fb_get_width, fb_putpix, fb_assert}
use vega_os.Pty.{column_loop, glyph_loop, glyph_column, glyph_of, pty_putch, put_glyph, pty_putstr}
use vega_os.Printk.{VaList, Printer, get_color, vprintk_loop, vprintk, printk}
use vega_os.Pal.{Pal}
use vega_os.Start.{panic_prints, panic}

-- A console anywhere, with NULL for the boot loader's answer.
abbrev pub blind : Mem → ℕ → ℕ → Mem → Mem → Printer
blind words x y hex dec = record {
  console = record {
    screen = record { response = none; words = words };
    cursor_x = x;
    cursor_y = y;
  };
  hex_string = hex;
  dec_string = dec;
}

-- Without a framebuffer no panic is printed or comes to its halt, whatever its message: it reads the
-- width through NULL, where fb_assert is meant to halt the machine.
pub panic-null :
    (p : Pal) (va : VaList) (call : Call) (core : p.Core) (words : Mem) (x y : ℕ) (hex dec : Mem)
    → (panic p va call (blind words x y hex dec) core ≡ fault)
      × (fb_assert (blind words x y hex dec).console.screen ≡ halted)
unfolding panic panic_prints printk vprintk vprintk_loop get_color pty_putstr put_glyph pty_putch
    glyph_loop column_loop glyph_column glyph_of fb_putpix fb_get_width fb_assert
panic-null p va call core words x y hex dec = (refl, refl)
