-- ===== src/Printk/Texts.antt =====
-- What a number looks like on the console, described without buffers, and the texts that hex2str
-- and dec2str leave in theirs.
use native.Mathlib.Nat.{pow-zero, pow-suc, one-le-pow, pow-le-pow_right, div-lt_iff_lt-mul}
use vega_os.Base.{
  ℕ, zero, suc, ◌+◌, ◌-◌, ◌/◌, ◌%◌, ◌^◌, ◌≤◌, ◌<◌, ◌≡◌, ◌≢◌, refl, ap, ◌∙◌, arith, ◌⊎◌, inl, inr,
  max, Bool-cases, false, ◌==◌, ltb, if◌then◌else◌, List, [], ◌∷◌, ◌++◌,
}
use vega_os.Memory.{Mem}
use vega_os.Outcome.{ok}
use vega_os.Log.{codes}
use vega_os.Printk.{ascii_number, text_of}
use vega_os.Printk.Digits.{dec_digit, lt-pow, pow-le}
use vega_os.Printk.Numbers.{Numeral}

-- The last `count` digits of `n`, the highest first.
abbrev pub numeral : ℕ → (ℕ → ℕ) → ℕ → ℕ → List ℕ
numeral base digit zero n = []
numeral base digit (suc count) n = digit (n / base ^ count % base) ∷ numeral base digit count n

-- How many digits `n` has: none if it is 0. The fuel is the most there may be.
unfoldable pub width : ℕ → ℕ → ℕ → ℕ
width base zero n = 0
width base (suc fuel) n = let rest = width base fuel (n / base) in if n == 0 then 0 else suc rest

-- Two digits at least.
unfoldable pub hex_text : ℕ → List ℕ
hex_text n = codes "0x" ++ numeral 16 ascii_number (max 2 (width 16 16 n)) n

-- One digit at least.
unfoldable pub dec_text : ℕ → List ℕ
dec_text n = numeral 10 dec_digit (max 1 (width 10 20 n)) n

module _ (base : ℕ) (big : 1 < base) where
  -- A number below `base ^ a` has no digit at place `a` or above.
  lt-place : (n a k : ℕ) → n < base ^ a → base ^ k ≤ n → k < a
  lt-place n a k high low = elim (Bool-cases (ltb k a)) [
    | inl below ↦ ground arith
    | inr above ↦
        let grows : base ^ a ≤ base ^ k = pow-le-pow_right (omega arith) (ground arith) in
        absurd (omega arith)
  ]

  width-zero : (fuel : ℕ) → width base fuel 0 ≡ 0
  unfolding width
  width-zero zero = refl
  width-zero (suc fuel) = refl

  width-suc : (fuel m : ℕ) → width base (suc fuel) (suc m) ≡ suc (width base fuel (suc m / base))
  unfolding width
  width-suc fuel m = let more : (suc m == 0) ≡ false = ground arith in rw (more) refl

  -- Enough fuel counts the digits: all of them, without leading zeros.
  pub width-lt : (fuel n : ℕ) → n < base ^ fuel → n < base ^ width base fuel n
  unfolding width
  width-lt zero n h = h
  width-lt (suc fuel) zero h = one-le-pow (width base (suc fuel) 0) base (omega arith)
  width-lt (suc fuel) (suc m) h =
      let small : suc m / base < base ^ fuel = div-lt fuel (suc m) h in
      rw (width-suc fuel m) (
        lt-pow base (suc m) big (width base fuel (suc m / base))
          (width-lt fuel (suc m / base) small))
    where
      div-lt : (fuel n : ℕ) → n < base ^ suc fuel → n / base < base ^ fuel
      div-lt fuel n h = (div-lt_iff_lt-mul (omega arith)).1 (omega (arith, pow-suc base fuel))

  width-le : (fuel n k : ℕ) → width base fuel n ≡ suc k → base ^ k ≤ n
  unfolding width
  width-le zero n k e = omega arith
  width-le (suc fuel) zero k e = omega arith
  width-le (suc fuel) (suc m) zero e = omega (arith, pow-zero base)
  width-le (suc fuel) (suc m) (suc k) e =
      pow-le base (suc m) big k (width-le fuel (suc m / base) k (omega (arith, width-suc fuel m)))

  -- The number of digits, with a least number asked for, is determined.
  pub width_unique :
      (fuel n c least : ℕ)
      → n < base ^ fuel
      → n < base ^ c
      → 0 < least
      → least ≤ c
      → ((k : ℕ) → c ≡ suc k → (c ≡ least) ⊎ (base ^ k ≤ n))
      → c ≡ max least (width base fuel n)
  width_unique fuel n zero least h high pos at_least no_zeros = omega arith
  width_unique fuel n (suc j) least h high pos at_least no_zeros =
      bounds (width base fuel n) (width-lt fuel n h) (width-le fuel n) (no_zeros j refl)
    where
      bounds :
          (w : ℕ)
          → n < base ^ w
          → ((k : ℕ) → w ≡ suc k → base ^ k ≤ n)
          → (suc j ≡ least) ⊎ (base ^ j ≤ n)
          → suc j ≡ max least w
      bounds zero below low (inl least_is) = omega arith
      bounds zero below low (inr place) = omega (arith, lt-place n 0 j below place)
      bounds (suc k) below low (inl least_is) =
          omega (arith, lt-place n (suc j) k high (low k refl))
      bounds (suc k) below low (inr place) =
          omega (arith, lt-place n (suc j) k high (low k refl), lt-place n (suc k) j below place)

-- One character of a text.
pub text_of-cons :
    (room i c : ℕ) (t : Mem) (rest : List ℕ)
    → t i ≡ c
    → c ≢ 0
    → text_of room (i + 1) t ≡ ok rest
    → text_of (suc room) i t ≡ ok (c ∷ rest)
unfolding text_of
text_of-cons room i c t rest here some later =
    let more : (c == 0) ≡ false = ground arith in rw (here, more, later) refl

module _ (base least n start c : ℕ) (digit : ℕ → ℕ) (b t : Mem) where
  -- The text of a buffer from its digit at place `k` down.
  pub text_of-Numeral :
      (k room : ℕ)
      → Numeral base digit least n start c b t
      → ((d : ℕ) → digit d ≢ 0)
      → k ≤ c
      → k < room
      → text_of room (start + (c - k)) t ≡ ok (numeral base digit k n)
  unfolding text_of
  text_of-Numeral k zero d some h room = absurd (omega arith)
  text_of-Numeral zero (suc room) d some h enough =
      let whole : c - 0 ≡ c = omega arith in
      let ends : t (start + (c - 0)) ≡ 0 = ap (λ (i : ℕ). t (start + i)) whole ∙ d.terminator in
      ground arith
  text_of-Numeral (suc k) (suc room) d some h enough =
      let place : start + (c - suc k) ≡ start + (c - 1 - k) = omega arith in
      let next : start + (c - suc k) + 1 ≡ start + (c - k) = omega arith in
      let here : t (start + (c - suc k)) ≡ digit (n / base ^ k % base) =
        ap t place ∙ d.digits k h in
      let rest = text_of-Numeral k room d some (omega arith) (omega arith) in
      text_of-cons room (start + (c - suc k)) (digit (n / base ^ k % base)) t
        (numeral base digit k n) here (some (n / base ^ k % base))
        (ap (λ (i : ℕ). text_of room i t) next ∙ rest)
