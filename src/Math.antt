-- ===== src/Math.antt =====
-- include/sys/math.h: rounding a 64-bit address to a multiple of a power of two.
use native.Mathlib.Nat.{mod-eq_of_lt}
use vega_os.Base.{ℕ, ◌+◌, ◌-◌, ◌*◌, ◌/◌, ◌^◌, ◌≤◌, ◌<◌, ◌≡◌, arith, bit_and, u64, ap, ◌∙◌}
use vega_os.Base.Bits.{bit_and-shift, bit_and-low}

unfoldable pub align_down : ℕ → ℕ → ℕ
align_down address align = bit_and address (2 ^ 64 - 1 - (align - 1))

unfoldable pub align_up : ℕ → ℕ → ℕ
align_up address align = bit_and (u64 (address + align - 1)) (2 ^ 64 - 1 - (align - 1))

-- The mask of both, at the size of a page.
and_page_mask : (x : ℕ) → x < 2 ^ 64 → bit_and x (2 ^ 64 - 4096) ≡ x / 4096 * 4096
and_page_mask x h =
    bit_and-shift 12 x (2 ^ 52 - 1)
    ∙ ap (λ (t : ℕ). t * 4096) (bit_and-low 52 (x / 4096) ∙ mod-eq_of_lt (omega arith))

pub align_down_page : (x : ℕ) → x < 2 ^ 64 → align_down x 0x1000 ≡ x / 4096 * 4096
unfolding align_down
align_down_page x h = and_page_mask x h

pub align_up_page : (x : ℕ) → x + 0x1000 ≤ 2 ^ 64 → align_up x 0x1000 ≡ (x + 4095) / 4096 * 4096
unfolding align_up
align_up_page x h = and_page_mask (u64 (x + 4096 - 1)) (omega arith) ∙ omega arith
