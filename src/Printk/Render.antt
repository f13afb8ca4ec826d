-- ===== src/Printk/Render.antt =====
-- What a format prints, described without buffers, argument lists in memory or a cursor: a plan
-- of texts with their colours. vprintk carries out that plan.
use vega_os.Base.{
  ℕ, ◌^◌, ◌<◌, ◌≡◌, refl, ◌==◌, if◌then◌else◌, u8, Option, none, some, List, [], ◌∷◌,
}
use vega_os.Memory.{Mem}
use vega_os.Outcome.{Outcome, ok, fault, ◌>>=◌}
use vega_os.Log.{Arg, str, num}
use vega_os.Pty.{Console, pty_putstr}
use vega_os.Printk.{VaList, left_of, Printer, put, put_hex, put_dec, as_str, get_color}
use vega_os.Printk.Texts.{hex_text, dec_text}
use vega_os.Printk.Readback.{hex2str-text, dec2str-text}

-- `broken` is a read past the end of the format, or of an argument that is not there.
pub data Plan : Type 0 where
  done : Plan
  broken : Plan
  piece : List ℕ → ℕ → Plan → Plan

-- The text of a conversion, and the arguments that it leaves.
unfoldable pub convert : ℕ → List Arg → Option (List ℕ × List Arg)
convert d [] =
    if d == b's'
    then none
    else if d == b'c'
    then none
    else if d == b'x'
    then none
    else if d == b'd'
    then none
    else some ([], [])
convert d (str text ∷ args) =
    if d == b's'
    then some (text, args)
    else if d == b'c'
    then none
    else if d == b'x'
    then none
    else if d == b'd'
    then none
    else some ([], str text ∷ args)
convert d (num n ∷ args) =
    if d == b's'
    then none
    else if d == b'c'
    then some (as_str (u8 n), args)
    else if d == b'x'
    then some (hex_text n, args)
    else if d == b'd'
    then some (dec_text n, args)
    else some ([], num n ∷ args)

abbrev pub converted : Option (List ℕ × List Arg) → ℕ → (List Arg → Plan) → Plan
converted none color rest = broken
converted (some (text, left)) color rest = piece text color (rest left)

unfoldable pub render : VaList → List ℕ → List Arg → ℕ → Plan
render va [] args color = done
render va (c ∷ []) args color =
    if c == 1 then broken else if c == b'%' then broken else piece (as_str c) color done
render va (c ∷ d ∷ fmt) args color =
    let recoloured = render va fmt args (get_color d) in
    let formatted =
      converted (convert d args) color (λ left. render va fmt (left_of va args left) color) in
    let printed = piece (as_str c) color (render va (d ∷ fmt) args color) in
    if c == 1 then recoloured else if c == b'%' then formatted else printed

unfoldable pub draw : Plan → Console → Outcome Console
draw done c = ok c
draw broken c = fault
draw (piece text color rest) c = pty_putstr text color c >>= draw rest

-- Arguments are 64-bit words.
abbrev pub AreWords : List Arg → Type 0
AreWords [] = Unit {0}
AreWords (str text ∷ args) = AreWords args
AreWords (num n ∷ args) = (n < 2 ^ 64) × AreWords args

module _ (color : ℕ) (s : Printer) where
  -- What handle_format does, by the description of the conversion. Only the buffers of the
  -- printer may have changed when the text is printed.
  abbrev pub Carried : Option (List ℕ × List Arg) → Outcome (List Arg × Printer) → Type 0
  Carried none o = o ≡ fault
  Carried (some (text, left)) o =
      (h : Mem) × (k : Mem) × (o
        ≡ (put text color (record s { hex_string = h; dec_string = k }) >>= (λ t. ok (left, t))))
      × AreWords left

  pub put_hex-text :
      (n : ℕ) (args : List Arg)
      → n < 2 ^ 64
      → AreWords args
      → Carried (some (hex_text n, args)) (put_hex n color s >>= (λ t. ok (args, t)))
  put_hex-text n args h words =
      let (t, run, text) = hex2str-text n s.hex_string h in
      (t, s.dec_string, rw (run, text) refl, words)

  pub put_dec-text :
      (n : ℕ) (args : List Arg)
      → n < 2 ^ 64
      → AreWords args
      → Carried (some (dec_text n, args)) (put_dec n color s >>= (λ t. ok (args, t)))
  put_dec-text n args h words =
      let (t, run, text) = dec2str-text n s.dec_string h in
      (s.hex_string, t, rw (run, text) refl, words)
