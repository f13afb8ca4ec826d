-- ===== src/Printk.antt =====
-- core/printk.c: formatted text on the console.
pub mod Digits
pub mod Numbers
pub mod Decimal
pub mod Texts
pub mod Readback
pub mod Render
pub mod Refine
pub mod Plans
pub mod Copy
pub mod Total
pub mod Ends
pub mod Plain
pub mod Examples
use vega_os.Base.{
  ℕ, zero, suc, ◌+◌, ◌-◌, ◌*◌, ◌/◌, ◌%◌, List, [], ◌∷◌, ltb, ◌==◌, if◌then◌else◌, u8, bit_and, ◌>>◌,
}
use vega_os.Memory.{Mem, write}
use vega_os.Outcome.{Outcome, ok, fault, out_of_fuel, ◌>>=◌}
use vega_os.Log.{Arg, str, num, Call}
use vega_os.Pty.{Console, pty_putstr}

-- `ascii_numbers[nibble]`
abbrev pub ascii_number : ℕ → ℕ
ascii_number nibble = if ltb nibble 10 then b'0' + nibble else b'A' + (nibble - 10)

-- The digits of `hex_num`, the lowest first, from `hex_string[i]` on; what is left of `i`, and the
-- buffer.
unfoldable pub hex_loop : ℕ → ℕ → ℕ → Mem → Outcome (ℕ × Mem)
hex_loop zero hex_num i b = out_of_fuel
hex_loop (suc fuel) hex_num i b =
    let nibble = bit_and (u8 hex_num) 0xf in
    let rest = hex_loop fuel (hex_num >> 4) (u8 (i + 1)) (write b i (ascii_number nibble)) in
    if hex_num == 0 then ok (i, b) else rest

unfoldable pub dec_loop : ℕ → ℕ → ℕ → Mem → Outcome (ℕ × Mem)
dec_loop zero number i b = out_of_fuel
dec_loop (suc fuel) number i b =
    let rest = dec_loop fuel (number / 10) (u8 (i + 1)) (write b i (number % 10 + b'0')) in
    if number == 0 then ok (i, b) else rest

-- The loop that swaps the ends of a string until they meet, in both functions.
unfoldable pub swap_loop : ℕ → ℕ → ℕ → Mem → Outcome Mem
swap_loop zero j i b = out_of_fuel
swap_loop (suc fuel) j i b =
    let temp = b j in
    let rest = swap_loop fuel (u8 (j + 1)) (u8 (i + 255)) (write (write b j (b i)) i temp) in
    if ltb j i then rest else ok b

-- What hex2str does once the digits stand in `hex_string` up to `i`.
unfoldable pub hex_finish : ℕ → ℕ → Mem → Outcome Mem
hex_finish hex_num i b =
    let b1 = if ltb hex_num 0x10 then write b i b'0' else b in
    let i1 = if ltb hex_num 0x10 then u8 (i + 1) else i in
    let b2 = write b1 i1 b'x' in
    let b3 = write b2 (u8 (i1 + 1)) b'0' in swap_loop 80 0 (u8 (i1 + 1)) (write b3 (u8 (i1 + 2)) 0)

-- The buffer `hex_string` after the call. A 64-bit number has at most 16 digits.
unfoldable pub hex2str : ℕ → Mem → Outcome Mem
hex2str hex_num b = do
  let b0 = if hex_num == 0 then write (write b 0 b'0') 1 0 else b
  let i0 = if hex_num == 0 then 1 else 0
  (i, b1) ← hex_loop 17 hex_num i0 b0
  hex_finish hex_num i b1

-- The buffer `dec_string` after the call. A size_t is never negative, so the minus sign is never
-- stored.
unfoldable pub dec2str : ℕ → Mem → Outcome Mem
dec2str number b = do
  let b0 = if number == 0 then write b 0 b'0' else b
  let i0 = if number == 0 then 1 else 0
  (i, b1) ← dec_loop 21 number i0 b0
  swap_loop 80 0 (u8 (i + 255)) (write b1 i 0)

-- The text at the start of a buffer of 80 bytes; without a terminator it is read past its end.
unfoldable pub text_of : ℕ → ℕ → Mem → Outcome (List ℕ)
text_of zero i b = fault
text_of (suc room) i b =
    let rest = text_of room (i + 1) b in
    if b i == 0 then ok [] else rest >>= (λ text. ok (b i ∷ text))

abbrev pub printk_default_fg : ℕ
printk_default_fg = 0x808080

unfoldable pub get_color : ℕ → ℕ
get_color color_code =
    if color_code == b'0'
    then printk_default_fg
    else if color_code == b'1'
    then 0xff0000
    else if color_code == b'2'
    then 0xffffff
    else if color_code == b'3'
    then 0x00a36c
    else if color_code == b'4'
    then 0xf8a611
    else if color_code == b'5'
    then 0xbf40bf
    else printk_default_fg

-- The console, and the two buffers.
pub record Printer : Type 0 where
  pub console : Console
  pub hex_string : Mem
  pub dec_string : Mem

-- How a `va_list` is handed to a function: as a pointer (amd64), so that the arguments that it
-- takes are gone for its caller, or as a copy (aarch64).
pub data VaList : Type 0 where
  by_reference : VaList
  by_copy : VaList

abbrev pub left_of : VaList → List Arg → List Arg → List Arg
left_of by_reference before after = after
left_of by_copy before after = before

abbrev pub put : List ℕ → ℕ → Printer → Outcome Printer
put text color s = pty_putstr text color s.console >>= (λ c. ok (record s { console = c }))

abbrev pub put_hex : ℕ → ℕ → Printer → Outcome Printer
put_hex n color s = do
  b ← hex2str n s.hex_string
  text ← text_of 80 0 b
  put text color (record s { hex_string = b })

abbrev pub put_dec : ℕ → ℕ → Printer → Outcome Printer
put_dec n color s = do
  b ← dec2str n s.dec_string
  text ← text_of 80 0 b
  put text color (record s { dec_string = b })

-- `as_str(chr)`: a NUL gives the empty text.
abbrev pub as_str : ℕ → List ℕ
as_str chr = if chr == 0 then [] else chr ∷ []

-- The character behind a `%`. An argument that is missing or of the wrong type is a fault.
unfoldable pub handle_format : ℕ → List Arg → ℕ → Printer → Outcome (List Arg × Printer)
handle_format fmt_char args color s =
    if fmt_char == b's'
    then take_str args
    else if fmt_char == b'c'
    then take_num (λ n. put (as_str (u8 n)) color s) args
    else if fmt_char == b'x'
    then take_num (λ n. put_hex n color s) args
    else if fmt_char == b'd'
    then take_num (λ n. put_dec n color s) args
    else ok (args, s)
  where
    take_str : List Arg → Outcome (List Arg × Printer)
    take_str [] = fault
    take_str (num n ∷ args) = fault
    take_str (str text ∷ args) = put text color s >>= (λ s. ok (args, s))

    take_num : (ℕ → Outcome Printer) → List Arg → Outcome (List Arg × Printer)
    take_num print [] = fault
    take_num print (str text ∷ args) = fault
    take_num print (num n ∷ args) = print n >>= (λ s. ok (args, s))

-- The loop of vprintk over the text before the terminator. A format that ends in `\001`, or in a
-- `%`, is read past its end.
unfoldable pub vprintk_loop : VaList → List ℕ → List Arg → ℕ → Printer → Outcome Printer
vprintk_loop va [] args color s = ok s
vprintk_loop va (c ∷ []) args color s =
    if c == 1 then fault else if c == b'%' then fault else put (as_str c) color s
vprintk_loop va (c ∷ d ∷ fmt) args color s =
    let recoloured = vprintk_loop va fmt args (get_color d) s in
    let formatted =
      handle_format d args color s >>= (λ r. vprintk_loop va fmt (left_of va args r.0) color r.1) in
    let printed = put (as_str c) color s >>= vprintk_loop va (d ∷ fmt) args color in
    if c == 1 then recoloured else if c == b'%' then formatted else printed

unfoldable pub vprintk : VaList → List ℕ → List Arg → Printer → Outcome Printer
vprintk va fmt args s = vprintk_loop va fmt args printk_default_fg s

unfoldable pub printk : VaList → Call → Printer → Outcome Printer
printk va call s = vprintk va call.fmt call.args s
