-- ===== src/Bitmap.antt =====
-- utils/bitmap.c. A bitmap is the address of its first byte. In `|= (1 << k)` and `&= ~(1 << k)`
-- the right side is an `int`, whose complement has 32 bits, and the store keeps the low byte.
pub mod Laws
mod Examples
use vega_os.Base.{ℕ, ◌+◌, ◌-◌, ◌/◌, ◌%◌, ◌^◌, bit_and, bit_or, u8, ◌<<◌, ◌==◌, if◌then◌else◌}
use vega_os.Memory.{Mem, Translation, load8, store8}

module _ (phys : Translation) where
  unfoldable pub bitmap_set_bit : ℕ → ℕ → Mem → Mem
  bitmap_set_bit bitmap bit m =
      let a = bitmap + bit / 8 in store8 phys m a (u8 (bit_or (load8 phys m a) (1 << (bit % 8))))

  unfoldable pub bitmap_unset_bit : ℕ → ℕ → Mem → Mem
  bitmap_unset_bit bitmap bit m =
      let a = bitmap + bit / 8 in
      store8 phys m a (u8 (bit_and (load8 phys m a) (2 ^ 32 - 1 - (1 << (bit % 8)))))

  unfoldable pub bitmap_test_bit : ℕ → ℕ → Mem → ℕ
  bitmap_test_bit bitmap bit m =
      if bit_and (load8 phys m (bitmap + bit / 8)) (1 << (bit % 8)) == 0 then 0 else 1
