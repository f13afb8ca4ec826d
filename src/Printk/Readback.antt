-- ===== src/Printk/Readback.antt =====
-- The texts of hex2str and dec2str, and that reading them gives the number back.
use native.Mathlib.Nat.{
  mul_comm, pow-zero, pow-suc, div-add-mod, div-div-eq-div-mul, mod-lt, mod-eq_of_lt,
  pow-le-pow_right, lt_of_lt_of_le,
}
use vega_os.Base.{
  ℕ, zero, suc, ◌+◌, ◌-◌, ◌*◌, ◌/◌, ◌%◌, ◌^◌, ◌≤◌, ◌<◌, ◌≡◌, ◌≢◌, ap, ◌∙◌, arith, max, ltb,
  if◌then◌else◌, List, [], ◌∷◌,
}
use vega_os.Memory.{Mem}
use vega_os.Outcome.{ok}
use vega_os.Printk.{ascii_number, hex2str, dec2str, text_of}
use vega_os.Printk.Digits.{dec_digit}
use vega_os.Printk.Numbers.{hex2str-Numeral}
use vega_os.Printk.Decimal.{dec2str-Numeral}
use vega_os.Printk.Texts.{
  numeral, width, hex_text, dec_text, width-lt, width_unique, text_of-cons, text_of-Numeral,
}

ascii_number-nonzero : (d : ℕ) → ascii_number d ≢ 0
ascii_number-nonzero d = ground arith

dec_digit-nonzero : (d : ℕ) → dec_digit d ≢ 0
dec_digit-nonzero d = omega arith

-- hex2str leaves the hexadecimal text of the number in its buffer.
pub hex2str-text :
    (n : ℕ) (b : Mem)
    → n < 2 ^ 64
    → (t : Mem) × (hex2str n b ≡ ok t) × (text_of 80 0 t ≡ ok (hex_text n))
unfolding hex_text
hex2str-text n b h =
    let (c, t, run, few, zero_is, x_is, d) = hex2str-Numeral n b h in
    let count : c ≡ max 2 (width 16 16 n) =
      width_unique 16 (omega arith) 16 n c 2 (omega arith) d.enough (omega arith) d.at_least
        d.no_zeros in
    let start : 2 ≡ 2 + (c - c) = omega arith in
    let digits =
      ap (λ (i : ℕ). text_of 78 i t) start
      ∙ text_of-Numeral 16 2 n 2 c ascii_number b t c 78 d ascii_number-nonzero (omega arith)
          (omega arith)
      ∙ ap (λ (k : ℕ). ok (numeral 16 ascii_number k n)) count in
    (
      t,
      run,
      text_of-cons 79 0 b'0' t _ zero_is (omega arith)
          (text_of-cons 78 1 b'x' t _ x_is (omega arith) digits),
    )

-- dec2str leaves the decimal text.
pub dec2str-text :
    (n : ℕ) (b : Mem)
    → n < 2 ^ 64
    → (t : Mem) × (dec2str n b ≡ ok t) × (text_of 80 0 t ≡ ok (dec_text n))
unfolding dec_text
dec2str-text n b h =
    let (c, t, run, few, d) = dec2str-Numeral n b h in
    let count : c ≡ max 1 (width 10 20 n) =
      width_unique 10 (omega arith) 20 n c 1 (omega arith) d.enough (omega arith) d.at_least
        d.no_zeros in
    let start : 0 ≡ 0 + (c - c) = omega arith in
    (
      t,
      run,
      ap (λ (i : ℕ). text_of 80 i t) start
          ∙ text_of-Numeral 10 1 n 0 c dec_digit b t c 80 d dec_digit-nonzero (omega arith)
              (omega arith)
          ∙ ap (λ (k : ℕ). ok (numeral 10 dec_digit k n)) count,
    )

-- The number that digits spell behind `acc`.
abbrev pub value : ℕ → (ℕ → ℕ) → ℕ → List ℕ → ℕ
value base of_digit acc [] = acc
value base of_digit acc (c ∷ text) = value base of_digit (acc * base + of_digit c) text

abbrev pub of_hex : ℕ → ℕ
of_hex c = if ltb c b'A' then c - b'0' else c - b'A' + 10

abbrev pub of_dec : ℕ → ℕ
of_dec c = c - b'0'

split_digit : (v m k : ℕ) → v % m + m * (v / m % k) ≡ v % (k * m)
split_digit v m k =
    let quotient : v / m / k ≡ v / (k * m) =
      div-div-eq-div-mul v m k ∙ ap (λ (t : ℕ). v / t) (mul_comm m k) in
    omega (
      arith,
      div-add-mod v m,
      ap (λ (t : ℕ). m * t) (div-add-mod (v / m) k),
      div-add-mod v (k * m),
      ap (λ (t : ℕ). m * (k * t)) quotient,
    )

module _ (base : ℕ) (big : 1 < base) (digit of_digit : ℕ → ℕ)
    (back : (d : ℕ) → d < base → of_digit (digit d) ≡ d) where
  value-numeral :
      (k n acc : ℕ)
      → value base of_digit acc (numeral base digit k n) ≡ acc * base ^ k + n % base ^ k
  value-numeral zero n acc =
      let one : base ^ 0 ≡ 1 = pow-zero base in
      omega (arith, ap (λ (t : ℕ). acc * t) one, ap (λ (t : ℕ). n % t) one)
  value-numeral (suc k) n acc =
      let d = n / base ^ k % base in
      let d_back : of_digit (digit d) ≡ d = back d (mod-lt (n / base ^ k) (omega arith)) in
      let split = split_digit n (base ^ k) base in
      ap (λ (t : ℕ). value base of_digit (acc * base + t) (numeral base digit k n)) d_back
      ∙ value-numeral k n (acc * base + d)
      ∙ omega (
        arith,
        split,
        ap (λ (t : ℕ). acc * t) (pow-suc base k),
        ap (λ (t : ℕ). n % t) (pow-suc base k),
        ap (λ (t : ℕ). n % t) (mul_comm base (base ^ k)),
      )

-- The readers know the digits only by their codes.
pub read_hex : List ℕ → ℕ
read_hex (zero_code ∷ x_code ∷ text) = value 16 of_hex 0 text
read_hex (zero_code ∷ []) = 0
read_hex [] = 0

pub read_dec : List ℕ → ℕ
read_dec text = value 10 of_dec 0 text

read_hex-hex_text : (n : ℕ) → n < 2 ^ 64 → read_hex (hex_text n) ≡ n
unfolding read_hex hex_text
read_hex-hex_text n h =
    let w = width 16 16 n in
    let all : n < 16 ^ w = width-lt 16 (omega arith) 16 n (omega arith) in
    let more : 16 ^ w ≤ 16 ^ max 2 w = pow-le-pow_right (omega arith) (omega arith) in
    value-numeral 16 (omega arith) ascii_number of_hex (λ d lt. ground arith) (max 2 w) n 0
    ∙ omega (arith, mod-eq_of_lt (lt_of_lt_of_le all more))

read_dec-dec_text : (n : ℕ) → n < 2 ^ 64 → read_dec (dec_text n) ≡ n
unfolding read_dec dec_text
read_dec-dec_text n h =
    let w = width 10 20 n in
    let all : n < 10 ^ w = width-lt 10 (omega arith) 20 n (omega arith) in
    let more : 10 ^ w ≤ 10 ^ max 1 w = pow-le-pow_right (omega arith) (omega arith) in
    value-numeral 10 (omega arith) dec_digit of_dec (λ d lt. omega arith) (max 1 w) n 0
    ∙ omega (arith, mod-eq_of_lt (lt_of_lt_of_le all more))

-- For every 64-bit number, hex2str and dec2str leave texts in their buffers, whatever stood there
-- before, and reading those texts back gives the number: behind `0x` in base 16, and in base 10.
pub read-str :
    (n : ℕ) (b : Mem)
    → n < 2 ^ 64
    → ((t : Mem) × (text : List ℕ) × (hex2str n b ≡ ok t)
        × (text_of 80 0 t ≡ ok text)
        × (read_hex text ≡ n))
      × ((t : Mem) × (text : List ℕ) × (dec2str n b ≡ ok t)
          × (text_of 80 0 t ≡ ok text)
          × (read_dec text ≡ n))
read-str n b h =
    let (t, run, text) = hex2str-text n b h in
    let (t', run', text') = dec2str-text n b h in
    (
      (t, hex_text n, run, text, read_hex-hex_text n h),
      (t', dec_text n, run', text', read_dec-dec_text n h),
    )
