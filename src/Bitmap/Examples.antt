-- ===== src/Bitmap/Examples.antt =====
-- The bitmap operations on two bytes at address 0x40.
use vega_os.Base.{◌≡◌, refl, if◌then◌else◌, ◌==◌}
use vega_os.Memory.{Mem, Translation}
use vega_os.Bitmap.{bitmap_set_bit, bitmap_unset_bit}

abbrev phys : Translation
phys a = a

abbrev bytes : Mem
bytes q = if q == 0x41 then 0x30 else 0x81

set_then_unset : bitmap_unset_bit phys 0x40 12 (bitmap_set_bit phys 0x40 9 bytes) 0x41 ≡ 0x22
unfolding bitmap_set_bit bitmap_unset_bit
set_then_unset = refl
