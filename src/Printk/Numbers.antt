-- ===== src/Printk/Numbers.antt =====
-- hex2str and dec2str: the texts that they leave in their buffers.
use native.Mathlib.Nat.{pow-suc, one-le-pow}
use vega_os.Base.{
  ℕ, zero, suc, ◌+◌, ◌-◌, ◌/◌, ◌%◌, ◌^◌, ◌≤◌, ◌<◌, ◌≡◌, refl, sym, ap, ◌∙◌, arith, ◌⊎◌, inl, inr,
  true, false, ◌==◌, ltb, u8,
}
use vega_os.Memory.{Mem, write}
use vega_os.Outcome.{ok}
use vega_os.Printk.{ascii_number, hex_loop, swap_loop, hex_finish, hex2str}
use vega_os.Printk.Digits.{swap_loop-mirrored, Digits, hex_loop-Digits}

-- The buffer with the prefix, backwards, and the terminator behind `i` digits.
abbrev prefixed : ℕ → Mem → Mem
prefixed i b = write (write (write b i b'x') (i + 1) b'0') (i + 2) 0

-- `c` digits of `n`, all it has and at least `least`.
pub record Numeral (base : ℕ) (digit : ℕ → ℕ) (least n start c : ℕ) (b t : Mem) : Type 0 where
  pub enough : n < base ^ c
  pub at_least : least ≤ c
  pub no_zeros : (k : ℕ) → c ≡ suc k → (c ≡ least) ⊎ (base ^ k ≤ n)
  pub digits : (k : ℕ) → k < c → t (start + (c - 1 - k)) ≡ digit (n / base ^ k % base)
  pub terminator : t (start + c) ≡ 0
  pub outside : (q : ℕ) → start + c < q → t q ≡ b q

-- The digits stored backwards, ready to be turned round.
pub record Stored (base : ℕ) (digit : ℕ → ℕ) (least n c : ℕ) (b t : Mem) : Type 0 where
  pub enough : n < base ^ c
  pub at_least : least ≤ c
  pub no_zeros : (k : ℕ) → c ≡ suc k → (c ≡ least) ⊎ (base ^ k ≤ n)
  pub places : (k : ℕ) → k < c → t k ≡ digit (n / base ^ k % base)
  pub beyond : (q : ℕ) → c < q → t q ≡ b q

hex_tail :
    (n c : ℕ) (b t : Mem)
    → c ≤ 16
    → Stored 16 ascii_number 2 n c b t
    → (r : Mem) × (swap_loop 80 0 (c + 1) (prefixed c t) ≡ ok r)
      × (r 0 ≡ b'0')
      × (r 1 ≡ b'x')
      × Numeral 16 ascii_number 2 n 2 c b r
hex_tail n c b t few d =
    let (r, run, places) =
      swap_loop-mirrored 79 0 (c + 1) (prefixed c t) (omega arith) (omega arith) in
    let digit_at : (k : ℕ) → k < c → r (2 + (c - 1 - k)) ≡ t k = λ k h.
      let back : c + 1 + 0 - (2 + (c - 1 - k)) ≡ k = omega arith in
      places (2 + (c - 1 - k)) ∙ ground (arith, ap t back) in
    (
      r,
      run,
      places 0 ∙ ground arith,
      places 1 ∙ ground arith,
      record {
        enough = d.enough;
        at_least = d.at_least;
        no_zeros = d.no_zeros;
        digits = λ k h. digit_at k h ∙ d.places k h;
        terminator = places (2 + c) ∙ ground arith;
        outside = λ q h. places q ∙ ground (arith, d.beyond q);
      },
    )

hex_finish-padded :
    (n c : ℕ) (t : Mem)
    → n < 16
    → c ≤ 16
    → hex_finish n c t ≡ swap_loop 80 0 (c + 1 + 1) (prefixed (c + 1) (write t c b'0'))
unfolding hex_finish
hex_finish-padded n c t short few =
    let pad : ltb n 16 ≡ true = ground arith in
    let one : u8 (c + 1) ≡ c + 1 = omega arith in
    let two : u8 (c + 1 + 1) ≡ c + 1 + 1 = omega arith in
    let three : u8 (c + 1 + 2) ≡ c + 1 + 2 = omega arith in rw (pad, one, two, three) refl

hex_finish-full :
    (n c : ℕ) (t : Mem) → 16 ≤ n → c ≤ 16 → hex_finish n c t ≡ swap_loop 80 0 (c + 1) (prefixed c t)
unfolding hex_finish
hex_finish-full n c t long few =
    let full : ltb n 16 ≡ false = ground arith in
    let one : u8 (c + 1) ≡ c + 1 = omega arith in
    let two : u8 (c + 2) ≡ c + 2 = omega arith in rw (full, one, two) refl

hex2str-suc :
    (m c : ℕ) (b t : Mem)
    → hex_loop 17 (suc m) 0 b ≡ ok (0 + c, t)
    → hex2str (suc m) b ≡ hex_finish (suc m) c t
unfolding hex2str
hex2str-suc m c b t run = hex2str-run ∙ ap (λ (k : ℕ). hex_finish (suc m) k t) start
  where
    start : 0 + c ≡ c
    start = omega arith

    more : (suc m == 0) ≡ false
    more = ground arith

    hex2str-run : hex2str (suc m) b ≡ hex_finish (suc m) (0 + c) t
    hex2str-run = rw (more, run) refl

hex2str-zero : (b : Mem) → hex2str 0 b ≡ hex_finish 0 1 (write (write b 0 b'0') 1 0)
unfolding hex2str hex_loop
hex2str-zero b = refl

pub Stored-Digits :
    (base : ℕ) (digit : ℕ → ℕ) (least n c : ℕ) (b t : Mem)
    → least ≤ c
    → Digits base digit n 0 c b t
    → Stored base digit least n c b t
Stored-Digits base digit least n c b t at_least d = record {
  enough = d.enough;
  at_least = at_least;
  no_zeros = λ k e. inr (d.needed k e);
  places = λ k h. d.places k ∙ ground arith;
  beyond = λ q h. d.places q ∙ ground arith;
}

-- One digit, and the zero in front of it.
Stored-padded :
    (n : ℕ) (b t : Mem)
    → n < 16
    → Digits 16 ascii_number n 0 1 b t
    → Stored 16 ascii_number 2 n 2 b (write t 1 b'0')
Stored-padded n b t short d = record {
  enough = omega arith;
  at_least = omega arith;
  no_zeros = λ k e. inl refl;
  places = places;
  beyond = λ q h. ground (arith, d.places q);
}
  where
    none : n / 16 ^ 1 % 16 ≡ 0
    none = omega arith

    places : (k : ℕ) → k < 2 → write t 1 b'0' k ≡ ascii_number (n / 16 ^ k % 16)
    places zero h = d.places 0
    places (suc zero) h = ap ascii_number (sym none)
    places (suc (suc k)) h = omega arith

Stored-zero : (b : Mem) → Stored 16 ascii_number 2 0 2 b (write (write (write b 0 b'0') 1 0) 1 b'0')
Stored-zero b = record {
  enough = omega arith;
  at_least = omega arith;
  no_zeros = λ k e. inl refl;
  places = places;
  beyond = λ q h. ground arith;
}
  where
    places :
        (k : ℕ)
        → k < 2
        → write (write (write b 0 b'0') 1 0) 1 b'0' k ≡ ascii_number (0 / 16 ^ k % 16)
    places zero h = refl
    places (suc zero) h = refl
    places (suc (suc k)) h = omega arith

pow-ge : (k : ℕ) → 0 < k → 16 ≤ 16 ^ k
pow-ge zero h = omega arith
pow-ge (suc k) h = omega (arith, pow-suc 16 k, one-le-pow k 16 (omega arith))

-- hex2str writes a 64-bit number as `0x`, its hexadecimal digits from the highest on, and a
-- terminator. There are 2 to 16 digits, with which the number is below 16 to their number, and
-- more than two only when the highest is not 0. Nothing behind the terminator is written, so
-- that the buffer of 80 bytes is large enough.
pub hex2str-Numeral :
    (n : ℕ) (b : Mem)
    → n < 2 ^ 64
    → (c : ℕ) × (t : Mem) × (hex2str n b ≡ ok t)
      × (c ≤ 16)
      × (t 0 ≡ b'0')
      × (t 1 ≡ b'x')
      × Numeral 16 ascii_number 2 n 2 c b t
hex2str-Numeral zero b h =
    let (r, run, zero_is, x_is, numeral) = hex_tail 0 2 b _ (omega arith) (Stored-zero b) in
    (
      2,
      r,
      hex2str-zero b
          ∙ hex_finish-padded 0 1 (write (write b 0 b'0') 1 0) (omega arith) (omega arith)
          ∙ run,
      omega arith,
      zero_is,
      x_is,
      numeral,
    )
hex2str-Numeral (suc m) b h =
    let (c, t, run, few, d) = hex_loop-Digits 16 (suc m) 0 b (omega arith) (omega arith) in
    finish c t run few d
  where
    finish :
        (c : ℕ) (t : Mem)
        → hex_loop 17 (suc m) 0 b ≡ ok (0 + c, t)
        → c ≤ 16
        → Digits 16 ascii_number (suc m) 0 c b t
        → (c : ℕ) × (t : Mem) × (hex2str (suc m) b ≡ ok t)
          × (c ≤ 16)
          × (t 0 ≡ b'0')
          × (t 1 ≡ b'x')
          × Numeral 16 ascii_number 2 (suc m) 2 c b t
    finish zero t run few d = absurd (omega (arith, d.enough))
    finish (suc zero) t run few d =
        let short : suc m < 16 = d.enough in
        let (r, done, zero_is, x_is, numeral) =
          hex_tail (suc m) 2 b (write t 1 b'0') (omega arith) (Stored-padded (suc m) b t short d) in
        (
          2,
          r,
          hex2str-suc m 1 b t run ∙ hex_finish-padded (suc m) 1 t short (omega arith) ∙ done,
          omega arith,
          zero_is,
          x_is,
          numeral,
        )
    finish (suc (suc k)) t run few d =
        let long : 16 ≤ suc m =
          omega (arith, pow-ge (suc k) (omega arith), d.needed (suc k) refl) in
        let c = suc (suc k) in
        let (r, done, zero_is, x_is, numeral) =
          hex_tail (suc m) c b t few
            (Stored-Digits 16 ascii_number 2 (suc m) c b t (omega arith) d) in
        (
          c,
          r,
          hex2str-suc m c b t run ∙ hex_finish-full (suc m) c t long few ∙ done,
          few,
          zero_is,
          x_is,
          numeral,
        )
