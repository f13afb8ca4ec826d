-- ===== src/Printk/Digits.antt =====
-- The loops of hex2str and dec2str: digits are stored from the lowest on, then turned round.
use native.Mathlib.Nat.{
  pow-suc, pow-zero, div-div-eq-div-mul, div-one, div-add-mod, mod-lt, mul-le-mul_left,
}
use vega_os.Base.{
  ℕ, zero, suc, ◌+◌, ◌-◌, ◌*◌, ◌/◌, ◌%◌, ◌^◌, ◌≤◌, ◌<◌, ◌≡◌, refl, sym, ap, ◌∙◌, arith, inl, inr,
  Bool-cases, true, false, ◌&&◌, ◌==◌, ltb, leb, if◌then◌else◌, u8, bit_and,
}
use vega_os.Base.Bits.{bit_and-low}
use vega_os.Memory.{Mem, write}
use vega_os.Outcome.{ok}
use vega_os.Printk.{ascii_number, hex_loop, dec_loop, swap_loop}

-- The buffer with the text from `j` to `i` turned round.
abbrev pub mirrored : ℕ → ℕ → Mem → Mem
mirrored j i b q = if leb j q && leb q i then b (i + j - q) else b q

abbrev swapped : ℕ → ℕ → Mem → Mem
swapped j i b = write (write b j (b i)) i (b j)

swap_step :
    (fuel j i : ℕ) (b : Mem)
    → ltb j i ≡ true
    → i < 200
    → swap_loop (suc fuel) j i b ≡ swap_loop fuel (j + 1) (i - 1) (swapped j i b)
unfolding swap_loop
swap_step fuel j i b on small =
    let up : u8 (j + 1) ≡ j + 1 = ground arith in
    let down : u8 (i + 255) ≡ i - 1 = ground arith in rw (on, up, down) refl

mirrored-over : (j i : ℕ) (b : Mem) → ltb j i ≡ false → (q : ℕ) → b q ≡ mirrored j i b q
mirrored-over j i b over q =
    let same : j ≤ q → q ≤ i → b (i + j - q) ≡ b q = λ low high. ap b (ground arith) in
    ground (arith, same)

mirrored-swapped :
    (j i : ℕ) (b : Mem)
    → ltb j i ≡ true
    → (q : ℕ) → mirrored (j + 1) (i - 1) (swapped j i b) q ≡ mirrored j i b q
mirrored-swapped j i b on q =
    let inner : i - 1 + (j + 1) - q ≡ i + j - q = ground arith in
    let first : q ≡ j → b (i + j - q) ≡ b i = λ e. ap b (ground arith) in
    let last : q ≡ i → b (i + j - q) ≡ b j = λ e. ap b (ground arith) in
    let same = ap b inner in ground (arith, first, last, same)

-- Enough fuel turns the text from `j` to `i` round.
pub swap_loop-mirrored :
    (fuel j i : ℕ) (b : Mem)
    → i ≤ j + fuel
    → i < 200
    → (t : Mem) × (swap_loop (suc fuel) j i b ≡ ok t) × ((q : ℕ) → t q ≡ mirrored j i b q)
unfolding swap_loop
swap_loop-mirrored zero j i b enough small =
    let over : ltb j i ≡ false = ground arith in (b, rw (over) refl, mirrored-over j i b over)
swap_loop-mirrored (suc fuel) j i b enough small = elim (Bool-cases (ltb j i)) [
  | inr over ↦ (b, rw (over) refl, mirrored-over j i b over)
  | inl on ↦
      let (t, run, places) =
        swap_loop-mirrored fuel (j + 1) (i - 1) (swapped j i b) (ground arith) (omega arith) in
      (t, swap_step (suc fuel) j i b on small ∙ run, λ q. places q ∙ mirrored-swapped j i b on q)
]

-- `c` digits in base `base` of `n` from index `i` on, the lowest first, without leading zeros,
-- and nothing else written.
pub record Digits (base : ℕ) (digit : ℕ → ℕ) (n i c : ℕ) (b t : Mem) : Type 0 where
  pub enough : n < base ^ c
  pub needed : (k : ℕ) → c ≡ suc k → base ^ k ≤ n
  pub places :
      (q : ℕ) → t q ≡ (if leb i q && ltb q (i + c) then digit (n / base ^ (q - i) % base) else b q)

Digits-zero : (base : ℕ) (digit : ℕ → ℕ) (i : ℕ) (b : Mem) → Digits base digit 0 i 0 b b
Digits-zero base digit i b = record {
  enough = omega (arith, pow-zero base);
  needed = λ k e. omega arith;
  places = λ q. ground arith;
}

module _ (base n : ℕ) (big : 1 < base) where
  abbrev whole : ℕ
  whole = base * (n / base)

  whole-le : whole ≤ n
  whole-le = omega (arith, div-add-mod n base)

  pub lt-pow : (c : ℕ) → n / base < base ^ c → n < base ^ suc c
  lt-pow c h =
      let scaled : base * suc (n / base) ≤ base * base ^ c = mul-le-mul_left base h in
      let low : n % base < base = mod-lt n (omega arith) in
      omega (arith, scaled, div-add-mod n base, low, pow-suc base c)

  pub pow-le : (k : ℕ) → base ^ k ≤ n / base → base ^ suc k ≤ n
  pow-le k h =
      let scaled : base * base ^ k ≤ whole = mul-le-mul_left base h in
      omega (arith, scaled, whole-le, pow-suc base k)

  next_digit : (m : ℕ) → n / base / base ^ m ≡ n / base ^ suc m
  next_digit m =
      div-div-eq-div-mul n base (base ^ m) ∙ ap (λ (t : ℕ). n / t) (omega (arith, pow-suc base m))

  Digits-suc :
      (digit : ℕ → ℕ) (i c : ℕ) (b t : Mem)
      → 0 < n
      → Digits base digit (n / base) (i + 1) c (write b i (digit (n % base))) t
      → Digits base digit n i (suc c) b t
  Digits-suc digit i c b t pos d = record {
    enough = lt-pow c d.enough;
    needed = needed;
    places = places;
  }
    where
      needed : (k : ℕ) → suc c ≡ suc k → base ^ k ≤ n
      needed zero e = omega (arith, pow-zero base)
      needed (suc k) e = pow-le k (d.needed k (omega arith))

      places :
          (q : ℕ)
          → t q ≡ (if leb i q && ltb q (i + suc c) then digit (n / base ^ (q - i) % base) else b q)
      places q =
          let at : (m : ℕ)
              → q - i ≡ m
              → digit (n / base ^ (q - i) % base) ≡ digit (n / base ^ m % base) =
            λ m e. ap (λ (k : ℕ). digit (n / base ^ k % base)) e in
          let first : digit (n / base ^ 0 % base) ≡ digit (n % base) =
            ap (λ (k : ℕ). digit (k % base)) (ap (λ (k : ℕ). n / k) (pow-zero base) ∙ div-one n) in
          let here : q ≡ i → digit (n / base ^ (q - i) % base) ≡ digit (n % base) =
            λ e. at 0 (omega arith) ∙ first in
          let there : i < q
              → digit (n / base / base ^ (q - (i + 1)) % base) ≡ digit (n / base ^ (q - i) % base) =
            λ h.
              ap (λ (k : ℕ). digit (k % base)) (next_digit (q - (i + 1)))
              ∙ sym (at (suc (q - (i + 1))) (omega arith)) in
          ground (arith, here, there, d.places q)

hex_step :
    (fuel m i : ℕ) (b : Mem)
    → i < 200
    → hex_loop (suc fuel) (suc m) i b
      ≡ hex_loop fuel (suc m / 16) (i + 1) (write b i (ascii_number (suc m % 16)))
unfolding hex_loop
hex_step fuel m i b small =
    let nibble : bit_and (u8 (suc m)) 0xf ≡ suc m % 16 =
      omega (arith, bit_and-low 4 (u8 (suc m))) in
    let next : u8 (i + 1) ≡ i + 1 = omega arith in
    let more : (suc m == 0) ≡ false = ground arith in rw (more, nibble, next) refl

dec_step :
    (fuel m i : ℕ) (b : Mem)
    → i < 200
    → dec_loop (suc fuel) (suc m) i b
      ≡ dec_loop fuel (suc m / 10) (i + 1) (write b i (suc m % 10 + b'0'))
unfolding dec_loop
dec_step fuel m i b small =
    let next : u8 (i + 1) ≡ i + 1 = omega arith in
    let more : (suc m == 0) ≡ false = ground arith in rw (more, next) refl

-- Enough fuel stores all the digits.
pub hex_loop-Digits :
    (fuel n i : ℕ) (b : Mem)
    → n < 16 ^ fuel
    → i + fuel < 200
    → (c : ℕ) × (t : Mem) × (hex_loop (suc fuel) n i b ≡ ok (i + c, t))
      × (c ≤ fuel)
      × Digits 16 ascii_number n i c b t
unfolding hex_loop
hex_loop-Digits fuel zero i b enough small =
    let start : i ≡ i + 0 = omega arith in
    (0, b, ap (λ (k : ℕ). ok (k, b)) start, omega arith, Digits-zero 16 ascii_number i b)
hex_loop-Digits zero (suc m) i b enough small =
    let impossible : suc m < 1 = enough in absurd (omega arith)
hex_loop-Digits (suc fuel) (suc m) i b enough small =
    let n = suc m in
    let (c, t, run, few, d) =
      hex_loop-Digits fuel (n / 16) (i + 1) (write b i (ascii_number (n % 16)))
        (omega (arith, pow-suc 16 fuel)) (omega arith) in
    let moved : i + 1 + c ≡ i + suc c = omega arith in
    (
      suc c,
      t,
      hex_step (suc fuel) m i b (omega arith) ∙ run ∙ ap (λ (k : ℕ). ok (k, t)) moved,
      omega arith,
      Digits-suc 16 n (omega arith) ascii_number i c b t (omega arith) d,
    )

abbrev pub dec_digit : ℕ → ℕ
dec_digit d = d + b'0'

pub dec_loop-Digits :
    (fuel n i : ℕ) (b : Mem)
    → n < 10 ^ fuel
    → i + fuel < 200
    → (c : ℕ) × (t : Mem) × (dec_loop (suc fuel) n i b ≡ ok (i + c, t))
      × (c ≤ fuel)
      × Digits 10 dec_digit n i c b t
unfolding dec_loop
dec_loop-Digits fuel zero i b enough small =
    let start : i ≡ i + 0 = omega arith in
    (0, b, ap (λ (k : ℕ). ok (k, b)) start, omega arith, Digits-zero 10 dec_digit i b)
dec_loop-Digits zero (suc m) i b enough small =
    let impossible : suc m < 1 = enough in absurd (omega arith)
dec_loop-Digits (suc fuel) (suc m) i b enough small =
    let n = suc m in
    let (c, t, run, few, d) =
      dec_loop-Digits fuel (n / 10) (i + 1) (write b i (dec_digit (n % 10)))
        (omega (arith, pow-suc 10 fuel)) (omega arith) in
    let moved : i + 1 + c ≡ i + suc c = omega arith in
    (
      suc c,
      t,
      dec_step (suc fuel) m i b (omega arith) ∙ run ∙ ap (λ (k : ℕ). ok (k, t)) moved,
      omega arith,
      Digits-suc 10 n (omega arith) dec_digit i c b t (omega arith) d,
    )
