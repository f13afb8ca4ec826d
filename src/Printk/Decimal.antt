-- ===== src/Printk/Decimal.antt =====
-- dec2str: the text that it leaves in its buffer.
use vega_os.Base.{
  ℕ, zero, suc, ◌+◌, ◌-◌, ◌/◌, ◌%◌, ◌^◌, ◌≤◌, ◌<◌, ◌≡◌, refl, ap, ◌∙◌, arith, inl, false, ◌==◌, u8,
}
use vega_os.Memory.{Mem, write}
use vega_os.Outcome.{ok}
use vega_os.Printk.{dec_loop, swap_loop, dec2str}
use vega_os.Printk.Digits.{swap_loop-mirrored, Digits, dec_loop-Digits, dec_digit}
use vega_os.Printk.Numbers.{Numeral, Stored, Stored-Digits}

dec_tail :
    (n c : ℕ) (b t : Mem)
    → c ≤ 20
    → Stored 10 dec_digit 1 n c b t
    → (r : Mem) × (swap_loop 80 0 (u8 (c + 255)) (write t c 0) ≡ ok r)
      × Numeral 10 dec_digit 1 n 0 c b r
dec_tail n c b t few d =
    let pos : 1 ≤ c = d.at_least in
    let last : u8 (c + 255) ≡ c - 1 = omega arith in
    let (r, run, places) =
      swap_loop-mirrored 79 0 (c - 1) (write t c 0) (omega arith) (omega arith) in
    let digit_at : (k : ℕ) → k < c → r (0 + (c - 1 - k)) ≡ t k = λ k h.
      let back : c - 1 + 0 - (0 + (c - 1 - k)) ≡ k = omega arith in
      places (0 + (c - 1 - k)) ∙ ground (arith, ap t back) in
    (
      r,
      ap (λ (i : ℕ). swap_loop 80 0 i (write t c 0)) last ∙ run,
      record {
        enough = d.enough;
        at_least = d.at_least;
        no_zeros = d.no_zeros;
        digits = λ k h. digit_at k h ∙ d.places k h;
        terminator = places (0 + c) ∙ ground arith;
        outside = λ q h. places q ∙ ground (arith, d.beyond q);
      },
    )

dec2str-suc :
    (m c : ℕ) (b t : Mem)
    → dec_loop 21 (suc m) 0 b ≡ ok (0 + c, t)
    → dec2str (suc m) b ≡ swap_loop 80 0 (u8 (c + 255)) (write t c 0)
unfolding dec2str
dec2str-suc m c b t run =
    dec2str-run ∙ ap (λ (k : ℕ). swap_loop 80 0 (u8 (k + 255)) (write t k 0)) start
  where
    start : 0 + c ≡ c
    start = omega arith

    more : (suc m == 0) ≡ false
    more = ground arith

    dec2str-run : dec2str (suc m) b ≡ swap_loop 80 0 (u8 (0 + c + 255)) (write t (0 + c) 0)
    dec2str-run = rw (more, run) refl

dec2str-zero : (b : Mem) → dec2str 0 b ≡ swap_loop 80 0 (u8 (1 + 255)) (write (write b 0 b'0') 1 0)
unfolding dec2str dec_loop
dec2str-zero b = refl

Stored-zero : (b : Mem) → Stored 10 dec_digit 1 0 1 b (write b 0 b'0')
Stored-zero b = record {
  enough = omega arith;
  at_least = omega arith;
  no_zeros = λ k e. inl refl;
  places = places;
  beyond = λ q h. ground arith;
}
  where
    places : (k : ℕ) → k < 1 → write b 0 b'0' k ≡ dec_digit (0 / 10 ^ k % 10)
    places zero h = refl
    places (suc k) h = omega arith

-- dec2str writes a 64-bit number as its decimal digits from the highest on, and a terminator.
-- There are 1 to 20 digits, with which the number is below 10 to their number, and more than one
-- only when the highest is not 0. Nothing behind the terminator is written, so that the buffer
-- of 80 bytes is large enough.
pub dec2str-Numeral :
    (n : ℕ) (b : Mem)
    → n < 2 ^ 64
    → (c : ℕ) × (t : Mem) × (dec2str n b ≡ ok t) × (c ≤ 20) × Numeral 10 dec_digit 1 n 0 c b t
dec2str-Numeral zero b h =
    let (r, run, numeral) = dec_tail 0 1 b (write b 0 b'0') (omega arith) (Stored-zero b) in
    (1, r, dec2str-zero b ∙ run, omega arith, numeral)
dec2str-Numeral (suc m) b h =
    let (c, t, run, few, d) = dec_loop-Digits 20 (suc m) 0 b (omega arith) (omega arith) in
    finish c t run few d
  where
    finish :
        (c : ℕ) (t : Mem)
        → dec_loop 21 (suc m) 0 b ≡ ok (0 + c, t)
        → c ≤ 20
        → Digits 10 dec_digit (suc m) 0 c b t
        → (c : ℕ) × (t : Mem) × (dec2str (suc m) b ≡ ok t)
          × (c ≤ 20)
          × Numeral 10 dec_digit 1 (suc m) 0 c b t
    finish zero t run few d = absurd (omega (arith, d.enough))
    finish (suc k) t run few d =
        let (r, done, numeral) =
          dec_tail (suc m) (suc k) b t few
            (Stored-Digits 10 dec_digit 1 (suc m) (suc k) b t (omega arith) d) in
        (suc k, r, dec2str-suc m (suc k) b t run ∙ done, few, numeral)
