-- ===== src/Bitmap/Laws.antt =====
-- A bitmap in memory is a set of bit numbers: what each operation does to every bit.
use native.Mathlib.Nat.{one-le-pow, pow-le-pow_right}
use vega_os.Base.{
  ℕ, ◌+◌, ◌-◌, ◌*◌, ◌/◌, ◌%◌, ◌^◌, ◌<◌, ◌≤◌, ◌≡◌, arith, bit_and, bit_or, u8, min, ◌==◌,
  if◌then◌else◌, ap, ◌∙◌, Bool-cases, inl, inr, false,
}
use vega_os.Base.Bits.{
  bit_at, bit_at-and, bit_at-or, bit_at-pow, bit_at-mod, bit_at-complement, bit_at-le-one,
  bit_and-pow,
}
use vega_os.Memory.{Mem, Translation, IsMapped, within, write}
use vega_os.Bitmap.{bitmap_set_bit, bitmap_unset_bit, bitmap_test_bit}

one-shl : (k : ℕ) → 1 * 2 ^ k ≡ 2 ^ k
one-shl k = omega arith

-- A nonzero `b & (1 << k)` is a set bit.
test-bit_at : (b k : ℕ) → (if bit_and b (1 * 2 ^ k) == 0 then 0 else 1) ≡ bit_at b k
test-bit_at b k =
    rw (one-shl k, bit_and-pow k b) (grind (arith, bit_at-le-one k b, one-le-pow k 2 (omega arith)))

-- The new byte of bitmap_set_bit and of bitmap_unset_bit, bit by bit.
set_byte :
    (b k j : ℕ) → j < 8 → bit_at (u8 (bit_or b (1 * 2 ^ k))) j ≡ (if k == j then 1 else bit_at b j)
set_byte b k j h =
    rw (one-shl k, bit_at-mod 8 j (bit_or b (2 ^ k)) h, bit_at-or j b (2 ^ k), bit_at-pow k j)
      (ground (arith, bit_at-le-one j b))

unset_byte :
    (b k j : ℕ)
    → j < 8
    → k < 8
    → bit_at (u8 (bit_and b (2 ^ 32 - 1 - 1 * 2 ^ k))) j ≡ (if k == j then 0 else bit_at b j)
unset_byte b k j h hk =
    let small : 2 ^ k ≤ 2 ^ 7 = pow-le-pow_right (omega arith) {j = 7} (omega arith) in
    ap (λ (t : ℕ). bit_at (u8 (bit_and b (2 ^ 32 - 1 - t))) j) (one-shl k)
    ∙ bit_at-mod 8 j (bit_and b (2 ^ 32 - 1 - 2 ^ k)) h
    ∙ bit_at-and j b (2 ^ 32 - 1 - 2 ^ k)
    ∙ ap (min (bit_at b j)) (
        bit_at-complement 32 j (2 ^ k) (omega arith) (omega arith)
        ∙ ap (λ (t : ℕ). 1 - t) (bit_at-pow k j))
    ∙ ground (arith, bit_at-le-one j b)

module _ (phys : Translation) where
  -- The bit as memory holds it.
  pub bitmap_test_bit_lem :
      (bitmap p n j : ℕ) (m : Mem)
      → IsMapped phys bitmap p n
      → j / 8 < n
      → bitmap_test_bit phys bitmap j m ≡ bit_at (m (p + j / 8)) (j % 8)
  unfolding bitmap_test_bit
  bitmap_test_bit_lem bitmap p n j m is h =
      test-bit_at _ (j % 8) ∙ ap (λ (t : ℕ). bit_at (m t) (j % 8)) (is.at (j / 8) h)

  -- What a store of a new byte for bit `i` does to bit `j`.
  bit_at-write :
      (p i j v w : ℕ) (m : Mem)
      → bit_at v (j % 8) ≡ (if i % 8 == j % 8 then w else bit_at (m (p + i / 8)) (j % 8))
      → bit_at (write m (p + i / 8) v (p + j / 8)) (j % 8)
        ≡ (if i == j then w else bit_at (m (p + j / 8)) (j % 8))
  bit_at-write p i j v w m e = elim (Bool-cases (p + j / 8 == p + i / 8)) [
    | inl same ↦ rw same (e ∙ ground arith)
    | inr other ↦ rw other (ground arith)
  ]

  module _ (bitmap p n i j : ℕ) (m : Mem) (is : IsMapped phys bitmap p n) (hi : i / 8 < n)
      (hj : j / 8 < n) where
    -- Setting bit `i` makes it 1 and leaves every other bit of the bitmap alone.
    pub bitmap_test_bit-set :
        bitmap_test_bit phys bitmap j (bitmap_set_bit phys bitmap i m)
        ≡ (if i == j then 1 else bitmap_test_bit phys bitmap j m)
    unfolding bitmap_set_bit
    bitmap_test_bit-set =
        bitmap_test_bit_lem bitmap p n j (bitmap_set_bit phys bitmap i m) is hj
        ∙ rw (is.at (i / 8) hi, bitmap_test_bit_lem bitmap p n j m is hj)
            (bit_at-write p i j _ 1 m (set_byte (m (p + i / 8)) (i % 8) (j % 8) (omega arith)))

    -- Clearing bit `i` makes it 0 and leaves every other bit of the bitmap alone.
    pub bitmap_test_bit-unset :
        bitmap_test_bit phys bitmap j (bitmap_unset_bit phys bitmap i m)
        ≡ (if i == j then 0 else bitmap_test_bit phys bitmap j m)
    unfolding bitmap_unset_bit
    bitmap_test_bit-unset =
        bitmap_test_bit_lem bitmap p n j (bitmap_unset_bit phys bitmap i m) is hj
        ∙ rw (is.at (i / 8) hi, bitmap_test_bit_lem bitmap p n j m is hj)
            (bit_at-write p i j _ 0 m
              (unset_byte (m (p + i / 8)) (i % 8) (j % 8) (omega arith) (omega arith)))

  module _ (bitmap p n i : ℕ) (m : Mem) (is : IsMapped phys bitmap p n) (hi : i / 8 < n) (q : ℕ)
      (outside : within p n q ≡ false) where
    -- Neither changes a byte outside the bitmap.
    pub bitmap_set_bit_outside : bitmap_set_bit phys bitmap i m q ≡ m q
    unfolding bitmap_set_bit
    bitmap_set_bit_outside = rw (is.at (i / 8) hi) (ground arith)

    pub bitmap_unset_bit_outside : bitmap_unset_bit phys bitmap i m q ≡ m q
    unfolding bitmap_unset_bit
    bitmap_unset_bit_outside = rw (is.at (i / 8) hi) (ground arith)
