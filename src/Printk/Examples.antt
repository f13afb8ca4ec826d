-- ===== src/Printk/Examples.antt =====
-- Numbers and a format printed.
use vega_os.Base.{ℕ, ◌≤◌, ◌≡◌, refl, arith, List, [], ◌∷◌, ◌++◌, false}
use vega_os.Memory.{Mem}
use vega_os.Outcome.{ok, ◌>>=◌}
use vega_os.Log.{codes, str, num}
use vega_os.Fb.{Framebuffer}
use vega_os.Fb.Laws.{screen, IsAddressable}
use vega_os.Pty.Total.{Ends}
use vega_os.Printk.{
  ascii_number, hex_loop, dec_loop, swap_loop, hex_finish, hex2str, dec2str, text_of, Printer,
  by_reference, by_copy, vprintk, get_color, printk_default_fg,
}
use vega_os.Printk.Digits.{dec_digit}
use vega_os.Printk.Numbers.{Numeral, hex2str-Numeral}
use vega_os.Printk.Texts.{hex_text, width}
use vega_os.Printk.Readback.{read_hex, read_dec, read-str}
use vega_os.Printk.Render.{done, piece, convert, render, draw}
use vega_os.Printk.Refine.{console_of, vprintk-render}
use vega_os.Printk.Copy.{repeat, vprintk-repeat}
use vega_os.Printk.Total.{is_whole}
use vega_os.Printk.Ends.{vprintk-Ends}
use vega_os.Printk.Decimal.{dec2str-Numeral}

abbrev junk : Mem
junk = λ _. 0xff

hex : (hex2str 0xbeef0 junk >>= text_of 80 0) ≡ ok (codes "0xBEEF0")
unfolding hex2str hex_loop hex_finish swap_loop text_of
hex = refl

padded : (hex2str 7 junk >>= text_of 80 0) ≡ ok (codes "0x07")
unfolding hex2str hex_loop hex_finish swap_loop text_of
padded = refl

zero_padded : (hex2str 0 junk >>= text_of 80 0) ≡ ok (codes "0x00")
unfolding hex2str hex_loop hex_finish swap_loop text_of
zero_padded = refl

dec : (dec2str 4096 junk >>= text_of 80 0) ≡ ok (codes "4096")
unfolding dec2str dec_loop swap_loop text_of
dec = refl

hex2str-Numeral_example :
    (c : ℕ) × (t : Mem) × (hex2str 0xbeef0 junk ≡ ok t)
    × (c ≤ 16)
    × (t 0 ≡ b'0')
    × (t 1 ≡ b'x')
    × Numeral 16 ascii_number 2 0xbeef0 2 c junk t
hex2str-Numeral_example = hex2str-Numeral 0xbeef0 junk (omega arith)

dec2str-Numeral_example :
    (c : ℕ) × (t : Mem) × (dec2str 4096 junk ≡ ok t)
    × (c ≤ 20)
    × Numeral 10 dec_digit 1 4096 0 c junk t
dec2str-Numeral_example = dec2str-Numeral 4096 junk (omega arith)

abbrev small : Framebuffer
small = record { width = 40; height = 20; pitch = 160 }

abbrev printer : Printer
printer = record {
  console = record { screen = screen small junk; cursor_x = 0; cursor_y = 0 };
  hex_string = junk;
  dec_string = junk;
}

-- A text, a number and a switch to red.
abbrev told : List ℕ
told = codes "%s=%x" ++ 1 ∷ b'1' ∷ codes "!\n"

vprintk-render_example :
    (vprintk by_reference told (str (codes "a") ∷ num 255 ∷ []) printer >>= console_of)
    ≡ draw
        (render by_reference told (str (codes "a") ∷ num 255 ∷ []) printk_default_fg)
        printer.console
vprintk-render_example =
    vprintk-render by_reference told (str (codes "a") ∷ num 255 ∷ []) printer (omega arith, tt)

-- The plan of that call.
told_plan : render by_reference told (str (codes "a") ∷ num 255 ∷ []) printk_default_fg ≡ (
    piece (codes "a") 0x808080 (
      piece (codes "=") 0x808080 (
        piece
          (codes "0xFF")
          0x808080
          (piece (codes "!") 0xff0000 (piece (codes "\n") 0xff0000 done)))))
unfolding render convert get_color hex_text width
told_plan = refl

read-str_example :
    ((t : Mem) × (text : List ℕ) × (hex2str 4096 junk ≡ ok t)
      × (text_of 80 0 t ≡ ok text)
      × (read_hex text ≡ 4096))
    × ((t : Mem) × (text : List ℕ) × (dec2str 4096 junk ≡ ok t)
        × (text_of 80 0 t ≡ ok text)
        × (read_dec text ≡ 4096))
read-str_example = read-str 4096 junk (omega arith)

vprintk-repeat_example :
    (vprintk by_copy (codes "%d%d") (num 7 ∷ num 8 ∷ []) printer >>= console_of)
    ≡ (vprintk by_reference (codes "%d%d") (repeat 4 (num 7)) printer >>= console_of)
vprintk-repeat_example =
    vprintk-repeat (codes "%d%d") (num 7) (num 8 ∷ []) printer (omega arith, (omega arith, tt))

addressable : IsAddressable small
addressable = record { wide = omega arith; reached = omega arith }

vprintk-Ends_example :
    Ends small addressable
      (is_whole (render by_copy (codes "%x%s") (num 16 ∷ []) printk_default_fg))
      (vprintk by_copy (codes "%x%s") (num 16 ∷ []) printer >>= console_of)
vprintk-Ends_example =
    vprintk-Ends small addressable by_copy (codes "%x%s") (num 16 ∷ []) junk junk junk 0 0
      (omega arith, (omega arith, (omega arith, (omega arith, tt)))) tt (omega arith, tt)

-- The second conversion has no text to print.
not_whole : is_whole (render by_copy (codes "%x%s") (num 16 ∷ []) printk_default_fg) ≡ false
unfolding render convert hex_text width
not_whole = refl
