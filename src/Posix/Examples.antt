-- ===== src/Posix/Examples.antt =====
-- memset and memcpy at concrete buffers, under a translation that moves every address.
use vega_os.Base.{ℕ, ◌+◌, ◌-◌, ◌≡◌, refl, arith, if◌then◌else◌, inr}
use vega_os.Memory.{Mem, Translation, IsMapped, within}
use vega_os.Posix.{memset, memcpy}
use vega_os.Posix.Laws.{memset-fills, memcpy-copies}

abbrev phys : Translation
phys a = a - 0x1000

abbrev bytes : Mem
bytes q = q

range : (p n : ℕ) → IsMapped phys (0x1000 + p) p n
range p n = record { at = λ i lt. omega arith }

third_byte : (memset phys 0x1004 0xff 3 bytes).1 6 ≡ 0xff
unfolding memset
third_byte = refl

memset-fills_example :
    ((memset phys 0x1004 0xff 3 bytes).0 ≡ 0x1004)
    × ((q : ℕ) → (memset phys 0x1004 0xff 3 bytes).1 q ≡ (if within 4 3 q then 0xff else bytes q))
memset-fills_example = memset-fills phys 0x1004 4 0xff 3 bytes (range 4 3)

memcpy-copies_example :
    ((memcpy phys 0x1010 0x1004 5 bytes).0 ≡ 0x1010)
    × ((q : ℕ)
        → (memcpy phys 0x1010 0x1004 5 bytes).1 q
          ≡ (if within 0x10 5 q then bytes (4 + (q - 0x10)) else bytes q))
memcpy-copies_example =
    memcpy-copies phys 0x1010 0x1004 0x10 4 5 bytes (range 0x10 5) (range 4 5) (inr (omega arith))
