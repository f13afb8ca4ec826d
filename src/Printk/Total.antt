-- ===== src/Printk/Total.antt =====
-- Which calls of printk end well, and which in a fault.
use vega_os.Base.{
  ℕ, zero, suc, ◌/◌, ◌%◌, ◌^◌, ◌<◌, ◌≡◌, refl, arith, inl, inr, Bool, Bool-cases, true, false, ◌&&◌,
  ◌==◌, List, [], ◌∷◌, max, u8,
}
use native.Mathlib.Nat.{mod-lt}
use vega_os.Log.{Arg, str, num}
use vega_os.Pty.Total.{is_printable, are_printable, AreBytes}
use vega_os.Printk.{ascii_number, VaList, by_reference, by_copy, left_of, as_str}
use vega_os.Printk.Digits.{dec_digit}
use vega_os.Printk.Texts.{numeral, width, hex_text, dec_text}
use vega_os.Printk.Render.{Plan, done, broken, piece, convert, converted}
use vega_os.Printk.Refine.{Kind, is_s, is_c, is_x, is_d, is_other}

-- Every text of the plan can be printed, and it does not break off.
abbrev pub is_whole : Plan → Bool
is_whole done = true
is_whole broken = false
is_whole (piece text color rest) = are_printable text && is_whole rest

abbrev pub PlanBytes : Plan → Type 0
PlanBytes done = Unit {0}
PlanBytes broken = Unit {0}
PlanBytes (piece text color rest) = AreBytes text × PlanBytes rest

abbrev pub ArgBytes : List Arg → Type 0
ArgBytes [] = Unit {0}
ArgBytes (str text ∷ args) = AreBytes text × ArgBytes args
ArgBytes (num n ∷ args) = ArgBytes args

numeral-printable :
    (base : ℕ) (digit : ℕ → ℕ)
    → 0 < base
    → ((d : ℕ) → d < base → is_printable (digit d) ≡ true)
    → (k n : ℕ) → are_printable (numeral base digit k n) ≡ true
numeral-printable base digit pos each zero n = refl
numeral-printable base digit pos each (suc k) n =
    rw (each (n / base ^ k % base) (mod-lt (n / base ^ k) pos))
      (numeral-printable base digit pos each k n)

pub hex_text-printable : (n : ℕ) → are_printable (hex_text n) ≡ true
unfolding hex_text
hex_text-printable n =
    numeral-printable 16 ascii_number (omega arith) (λ d h. ground arith) (max 2 (width 16 16 n)) n

pub dec_text-printable : (n : ℕ) → are_printable (dec_text n) ≡ true
unfolding dec_text
dec_text-printable n =
    numeral-printable 10 dec_digit (omega arith) (λ d h. ground arith) (max 1 (width 10 20 n)) n

pub printable-AreBytes : (text : List ℕ) → are_printable text ≡ true → AreBytes text
printable-AreBytes [] h = tt
printable-AreBytes (c ∷ text) h = (ground arith, printable-AreBytes text (ground arith))

pub as_str-AreBytes : (c : ℕ) → c < 256 → AreBytes (as_str c)
as_str-AreBytes c h = elim (Bool-cases (c == 0)) [ inl e ↦ rw (e) tt | inr e ↦ rw (e) (h, tt) ]

pub converted-PlanBytes :
    (d color : ℕ) (args : List Arg) (rest : List Arg → Plan)
    → ArgBytes args
    → ((left : List Arg) → ArgBytes left → PlanBytes (rest left))
    → Kind d
    → PlanBytes (converted (convert d args) color rest)
unfolding convert
converted-PlanBytes d color [] rest bytes later (is_s e) = rw (e) tt
converted-PlanBytes d color [] rest bytes later (is_c e f) = rw (e, f) tt
converted-PlanBytes d color [] rest bytes later (is_x e f g) = rw (e, f, g) tt
converted-PlanBytes d color [] rest bytes later (is_d e f g h) = rw (e, f, g, h) tt
converted-PlanBytes d color [] rest bytes later (is_other e f g h) =
    rw (e, f, g, h) (tt, later [] bytes)
converted-PlanBytes d color (str text ∷ args) rest bytes later (is_s e) =
    rw (e) (bytes.0, later args bytes.1)
converted-PlanBytes d color (str text ∷ args) rest bytes later (is_c e f) = rw (e, f) tt
converted-PlanBytes d color (str text ∷ args) rest bytes later (is_x e f g) = rw (e, f, g) tt
converted-PlanBytes d color (str text ∷ args) rest bytes later (is_d e f g h) = rw (e, f, g, h) tt
converted-PlanBytes d color (str text ∷ args) rest bytes later (is_other e f g h) =
    rw (e, f, g, h) (tt, later (str text ∷ args) bytes)
converted-PlanBytes d color (num n ∷ args) rest bytes later (is_s e) = rw (e) tt
converted-PlanBytes d color (num n ∷ args) rest bytes later (is_c e f) =
    rw (e, f) (as_str-AreBytes (u8 n) (omega arith), later args bytes)
converted-PlanBytes d color (num n ∷ args) rest bytes later (is_x e f g) =
    rw (e, f, g) (printable-AreBytes (hex_text n) (hex_text-printable n), later args bytes)
converted-PlanBytes d color (num n ∷ args) rest bytes later (is_d e f g h) =
    rw (e, f, g, h) (printable-AreBytes (dec_text n) (dec_text-printable n), later args bytes)
converted-PlanBytes d color (num n ∷ args) rest bytes later (is_other e f g h) =
    rw (e, f, g, h) (tt, later (num n ∷ args) bytes)

pub ArgBytes-left_of :
    (va : VaList) (args left : List Arg)
    → ArgBytes args
    → ArgBytes left
    → ArgBytes (left_of va args left)
ArgBytes-left_of by_reference args left before after = after
ArgBytes-left_of by_copy args left before after = before
