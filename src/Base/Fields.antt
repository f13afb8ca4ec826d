-- ===== src/Base/Fields.antt =====
-- Numbers as rows of bits: equality, distribution of `&` over `|`, and shifted fields.
use native.Mathlib.Nat.{pow-suc}
use Prim.Native.Nat.{ℕ, zero, suc, ◌+◌, ◌*◌, ◌/◌, ◌%◌, ◌^◌, ◌≤◌, ◌<◌, min, max, bit_and, bit_or}
use mathlib.Core.Path.{◌≡◌, ap, ap₂, ◌∙◌, sym}
use native.Mathlib.Omega.{arith}
use vega_os.Base.Bits.{bit_at, bit_at-and, bit_at-or, bit_at-zero, or_halves}

-- Numbers with the same bits are equal.
bits_ext_below : (n x y : ℕ) → x ≤ n → y ≤ n → ((k : ℕ) → bit_at x k ≡ bit_at y k) → x ≡ y
bits_ext_below zero x y hx hy same = omega arith
bits_ext_below (suc n) x y hx hy same =
    let halves : x / 2 ≡ y / 2 =
      bits_ext_below n (x / 2) (y / 2) (omega arith) (omega arith) (λ k. same (suc k)) in
    let lowest : x % 2 ≡ y % 2 = same 0 in omega arith

pub bits_ext : (x y : ℕ) → ((k : ℕ) → bit_at x k ≡ bit_at y k) → x ≡ y
bits_ext x y same = bits_ext_below (x + y) x y (omega arith) (omega arith) same

pub or-and-distrib : (a b c : ℕ) → bit_and (bit_or a b) c ≡ bit_or (bit_and a c) (bit_and b c)
or-and-distrib a b c = bits_ext (bit_and (bit_or a b) c) (bit_or (bit_and a c) (bit_and b c)) λ k.
    bit_at-and k (bit_or a b) c
    ∙ ap (λ (t : ℕ). min t (bit_at c k)) (bit_at-or k a b)
    ∙ distrib (bit_at a k) (bit_at b k) (bit_at c k)
    ∙ sym (bit_at-or k (bit_and a c) (bit_and b c) ∙ ap₂ max (bit_at-and k a c) (bit_at-and k b c))
  where
    distrib : (x y z : ℕ) → min (max x y) z ≡ max (min x z) (min y z)
    distrib x y z = omega arith

pub or-zero : (a : ℕ) → bit_or a 0 ≡ a
or-zero a = bits_ext (bit_or a 0) a (λ k. omega (arith, bit_at-or k a 0, bit_at-zero k))

pub zero-or : (a : ℕ) → bit_or 0 a ≡ a
zero-or a = bits_ext (bit_or 0 a) a (λ k. omega (arith, bit_at-or k 0 a, bit_at-zero k))

-- A multiple of `2 ^ w` has no bit below `w`, and a number below `2 ^ w` none from `w` on.
pub bit_at-shifted : (w m j : ℕ) → j < w → bit_at (m * 2 ^ w) j ≡ 0
bit_at-shifted zero m j h = absurd (omega arith)
bit_at-shifted (suc w) m zero h = omega (arith, ap (λ (t : ℕ). m * t) (pow-suc 2 w))
bit_at-shifted (suc w) m (suc j) h =
    let half : m * 2 ^ suc w / 2 ≡ m * 2 ^ w = omega (arith, ap (λ (t : ℕ). m * t) (pow-suc 2 w)) in
    ap (λ (t : ℕ). bit_at t j) half ∙ bit_at-shifted w m j (omega arith)

pub bit_at-above : (w x j : ℕ) → x < 2 ^ w → w ≤ j → bit_at x j ≡ 0
bit_at-above zero x j h le =
    let none_left : x ≡ 0 = omega arith in ap (λ (t : ℕ). bit_at t j) none_left ∙ bit_at-zero j
bit_at-above (suc w) x zero h le = absurd (omega arith)
bit_at-above (suc w) x (suc j) h le =
    bit_at-above w (x / 2) j (omega (arith, pow-suc 2 w)) (omega arith)

-- A union is below a bound that is a power of two and above both parts.
pub or-lt : (w a b : ℕ) → a < 2 ^ w → b < 2 ^ w → bit_or a b < 2 ^ w
or-lt zero a b ha hb =
    let empty : a ≡ 0 = omega arith in omega (arith, ap (λ (t : ℕ). bit_or t b) empty, zero-or b)
or-lt (suc w) a b ha hb =
    let rest = or-lt w (a / 2) (b / 2) (omega (arith, pow-suc 2 w)) (omega (arith, pow-suc 2 w)) in
    omega (arith, or_halves a b, rest, pow-suc 2 w)
