-- ===== src/Mmu/Architecture.antt =====
-- How the processor translates an address, as Arm's manual has it for a granule of 4K and two
-- ranges of 48 bits: the setting of TCR_EL1 that the kernel writes (T0SZ, T1SZ, TG0 and TG1).
use vega_os.Base.{
  ℕ, ◌+◌, ◌-◌, ◌*◌, ◌/◌, ◌%◌, ◌^◌, ◌==◌, ◌&&◌, ◌||◌, ltb, if◌then◌else◌, Option, some, none, List,
  [], ◌∷◌,
}
use vega_os.Base.Bits.{bit_at}
use vega_os.Memory.{Mem}
use vega_os.Word64.{load64}
use vega_os.Mmu.Registers.{Registers}

-- Where an address leads, and the bits of its descriptor that permit accesses.
pub record View : Type 0 where
  pub address : ℕ
  pub read_only : ℕ
  pub user : ℕ
  pub privileged_execute_never : ℕ
  pub user_execute_never : ℕ

-- Bits 12 to 47.
abbrev pub output_address : ℕ → ℕ
output_address d = d / 2 ^ 12 % 2 ^ 36 * 2 ^ 12

-- The descriptors are read from physical memory.
abbrev pub descriptor : Mem → ℕ → ℕ → ℕ
descriptor mem table index = load64 (λ q. q) (table + 8 * index) mem

-- The last descriptor of a walk, of a page or block of 2 ^ shift bytes; one that has not been
-- accessed faults.
unfoldable pub view : ℕ → ℕ → ℕ → Option View
view d shift vaddr =
    if bit_at d 10 == 1
    then some (record {
      address = output_address d / 2 ^ shift * 2 ^ shift + vaddr % 2 ^ shift;
      read_only = bit_at d 7;
      user = bit_at d 6;
      privileged_execute_never = bit_at d 53;
      user_execute_never = bit_at d 54;
    })
    else none

-- A walk through the levels that are left, each with the position of its index in the address.
-- There are blocks at the second and the third level.
unfoldable pub table_walk : Mem → ℕ → ℕ → List ℕ → Option View
table_walk mem vaddr table [] = none
table_walk mem vaddr table (shift ∷ rest) =
    let d = descriptor mem table (vaddr / 2 ^ shift % 512) in
    let below = table_walk mem vaddr (output_address d) rest in
    if d % 4 == 3
    then if shift == 12 then view d shift vaddr else below
    else if d % 4 == 1 && (shift == 30 || shift == 21)
    then view d shift vaddr
    else none

abbrev pub levels : List ℕ
levels = 39 ∷ 30 ∷ 21 ∷ 12 ∷ []

-- The lower range is walked from TTBR0_EL1, the upper one from TTBR1_EL1. The top byte is that of
-- an address without a tag.
unfoldable pub processor_view : Registers → Mem → ℕ → Option View
processor_view r mem vaddr =
    if ltb vaddr (2 ^ 48)
    then table_walk mem vaddr (output_address r.ttbr0_el1) levels
    else if ltb vaddr (2 ^ 64 - 2 ^ 48)
    then none
    else table_walk mem vaddr (output_address r.ttbr1_el1) levels
