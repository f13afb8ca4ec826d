-- ===== src/Base/Bits.antt =====
-- Single bits of `&`, `|` and the complement, at every position.
use Prim.Native.Nat.{ℕ, zero, suc, ◌+◌, ◌-◌, ◌*◌, ◌/◌, ◌%◌, ◌^◌, ◌≤◌, ◌<◌, min, max}
use Prim.Native.Nat.{bit_and, bit_or, digits, bit_and-bitwise, bit_or-bitwise}
use mathlib.Core.Path.{◌≡◌, refl, ap, ◌∙◌}
use native.Mathlib.Omega.{arith}
use native.Mathlib.Nat.{pow-suc, one-le-pow, mul-one, div-one, div-div-eq-div-mul}
use vega_os.Base.Tests.{if◌then◌else◌, ◌==◌}

-- The digit recursion does not depend on its fuel once there is enough.
digits_enough :
    (z : ℕ → ℕ) (f : ℕ → ℕ → ℕ) (n m a b : ℕ) → a ≤ n → a ≤ m → digits z f n a b ≡ digits z f m a b
digits_enough z f zero zero a b p q = refl
digits_enough z f zero (suc m) zero b p q = refl
digits_enough z f zero (suc m) (suc a) b p q = absurd (omega arith)
digits_enough z f (suc n) zero zero b p q = refl
digits_enough z f (suc n) zero (suc a) b p q = absurd (omega arith)
digits_enough z f (suc n) (suc m) zero b p q = refl
digits_enough z f (suc n) (suc m) (suc a) b p q =
    ap (λ (t : ℕ). t * 2 + f (suc a % 2) (b % 2))
      (digits_enough z f n m (suc a / 2) (b / 2) (omega arith) (omega arith))

and_halves : (a b : ℕ) → bit_and a b ≡ bit_and (a / 2) (b / 2) * 2 + min (a % 2) (b % 2)
and_halves zero b = omega (arith, bit_and-bitwise 0 b, bit_and-bitwise 0 (b / 2))
and_halves (suc a) b = omega (
  arith,
  bit_and-bitwise (suc a) b,
  bit_and-bitwise (suc a / 2) (b / 2),
  digits_enough (λ _. 0) min a (suc a / 2) (suc a / 2) (b / 2) (omega arith) (omega arith),
)

pub or_halves : (a b : ℕ) → bit_or a b ≡ bit_or (a / 2) (b / 2) * 2 + max (a % 2) (b % 2)
or_halves zero b = omega (arith, bit_or-bitwise 0 b, bit_or-bitwise 0 (b / 2))
or_halves (suc a) b = omega (
  arith,
  bit_or-bitwise (suc a) b,
  bit_or-bitwise (suc a / 2) (b / 2),
  digits_enough (λ y. y) max a (suc a / 2) (suc a / 2) (b / 2) (omega arith) (omega arith),
)

bit_and-zero_enough : (n x : ℕ) → x ≤ n → bit_and x 0 ≡ 0
bit_and-zero_enough n zero h = bit_and-bitwise 0 0
bit_and-zero_enough zero (suc x) h = absurd (omega arith)
bit_and-zero_enough (suc n) (suc x) h =
    omega (arith, and_halves (suc x) 0, bit_and-zero_enough n (suc x / 2) (omega arith))

bit_and-zero : (x : ℕ) → bit_and x 0 ≡ 0
bit_and-zero x = bit_and-zero_enough x x (omega arith)

-- The bit of `x` at position `k`, 0 or 1.
abbrev pub bit_at : ℕ → ℕ → ℕ
bit_at x zero = x % 2
bit_at x (suc k) = bit_at (x / 2) k

pub bit_at-and : (k a b : ℕ) → bit_at (bit_and a b) k ≡ min (bit_at a k) (bit_at b k)
bit_at-and zero a b = omega (arith, and_halves a b)
bit_at-and (suc k) a b =
    let half : bit_and a b / 2 ≡ bit_and (a / 2) (b / 2) = omega (arith, and_halves a b) in
    rw half (bit_at-and k (a / 2) (b / 2))

pub bit_at-or : (k a b : ℕ) → bit_at (bit_or a b) k ≡ max (bit_at a k) (bit_at b k)
bit_at-or zero a b = omega (arith, or_halves a b)
bit_at-or (suc k) a b =
    let half : bit_or a b / 2 ≡ bit_or (a / 2) (b / 2) = omega (arith, or_halves a b) in
    rw half (bit_at-or k (a / 2) (b / 2))

pub bit_at-zero : (k : ℕ) → bit_at 0 k ≡ 0
bit_at-zero zero = refl
bit_at-zero (suc k) = bit_at-zero k

pub bit_at-le-one : (k x : ℕ) → bit_at x k ≤ 1
bit_at-le-one zero x = omega arith
bit_at-le-one (suc k) x = bit_at-le-one k (x / 2)

-- `1 << k` has the bit at `k` and no other.
pub bit_at-pow : (k j : ℕ) → bit_at (2 ^ k) j ≡ (if k == j then 1 else 0)
bit_at-pow zero zero = refl
bit_at-pow zero (suc j) = bit_at-zero j ∙ ground arith
bit_at-pow (suc k) zero = ground (arith, pow-suc 2 k)
bit_at-pow (suc k) (suc j) =
    let half : 2 ^ suc k / 2 ≡ 2 ^ k = omega (arith, pow-suc 2 k) in
    rw half (bit_at-pow k j ∙ ground arith)

-- The complement in `w` bits flips each of them.
pub bit_at-complement : (w j x : ℕ) → x < 2 ^ w → j < w → bit_at (2 ^ w - 1 - x) j ≡ 1 - bit_at x j
bit_at-complement zero j x fits h = absurd (omega arith)
bit_at-complement (suc w) zero x fits h = omega (arith, pow-suc 2 w)
bit_at-complement (suc w) (suc j) x fits h =
    let half : (2 ^ suc w - 1 - x) / 2 ≡ 2 ^ w - 1 - x / 2 = omega (arith, pow-suc 2 w) in
    rw half (bit_at-complement w j (x / 2) (omega (arith, pow-suc 2 w)) (omega arith))

half-mod : (x m : ℕ) → 0 < m → x % (m * 2) / 2 ≡ x / 2 % m
half-mod x m h = grind arith

mod-two : (x m : ℕ) → 0 < m → x % (m * 2) % 2 ≡ x % 2
mod-two x m h = grind arith

-- A remainder by `2 ^ w` keeps the bits below `w`.
pub bit_at-mod : (w j x : ℕ) → j < w → bit_at (x % 2 ^ w) j ≡ bit_at x j
bit_at-mod zero j x h = absurd (omega arith)
bit_at-mod (suc w) zero x h = rw (pow-suc 2 w) (mod-two x (2 ^ w) (one-le-pow w 2 (omega arith)))
bit_at-mod (suc w) (suc j) x h =
    rw (pow-suc 2 w, half-mod x (2 ^ w) (one-le-pow w 2 (omega arith)))
      (bit_at-mod w j (x / 2) (omega arith))

-- A mask of low ones is a remainder.
pub bit_and-low : (k x : ℕ) → bit_and x (2 ^ k - 1) ≡ x % 2 ^ k
bit_and-low zero x = omega (arith, and_halves x 0, bit_and-zero x)
bit_and-low (suc k) x =
    let pos : 1 ≤ 2 ^ k = one-le-pow k 2 (omega arith) in
    let half : (2 ^ suc k - 1) / 2 ≡ 2 ^ k - 1 = omega (arith, pow-suc 2 k) in
    let odd : (2 ^ suc k - 1) % 2 ≡ 1 = omega (arith, pow-suc 2 k) in
    and_halves x (2 ^ suc k - 1)
    ∙ rw (half, odd, bit_and-low k (x / 2), pow-suc 2 k)
        (omega (arith, half-mod x (2 ^ k) pos, mod-two x (2 ^ k) pos))

-- A mask with `k` low zeros works on what stands above them.
pub bit_and-shift : (k x m : ℕ) → bit_and x (m * 2 ^ k) ≡ bit_and (x / 2 ^ k) m * 2 ^ k
bit_and-shift zero x m = simp (mul-one, div-one)
bit_and-shift (suc k) x m =
    let half : m * 2 ^ suc k / 2 ≡ m * 2 ^ k = omega (arith, ap (λ (t : ℕ). m * t) (pow-suc 2 k)) in
    let even : m * 2 ^ suc k % 2 ≡ 0 = omega (arith, ap (λ (t : ℕ). m * t) (pow-suc 2 k)) in
    let quarter : x / 2 / 2 ^ k ≡ x / 2 ^ suc k =
      div-div-eq-div-mul x 2 (2 ^ k) ∙ ap (λ (t : ℕ). x / t) (omega (arith, pow-suc 2 k)) in
    and_halves x (m * 2 ^ suc k)
    ∙ rw (half, even, bit_and-shift k (x / 2) m, quarter)
        (omega (arith, ap (λ (t : ℕ). bit_and (x / 2 ^ suc k) m * t) (pow-suc 2 k)))

-- `x & (1 << k)` is the bit at `k`, in its place.
pub bit_and-pow : (k x : ℕ) → bit_and x (2 ^ k) ≡ bit_at x k * 2 ^ k
bit_and-pow zero x = bit_and-low 1 x ∙ omega arith
bit_and-pow (suc k) x =
    let half : 2 ^ suc k / 2 ≡ 2 ^ k = omega (arith, pow-suc 2 k) in
    let even : 2 ^ suc k % 2 ≡ 0 = omega (arith, pow-suc 2 k) in
    and_halves x (2 ^ suc k)
    ∙ rw (half, even, bit_and-pow k (x / 2))
        (omega (arith, ap (λ (t : ℕ). bit_at (x / 2) k * t) (pow-suc 2 k)))
