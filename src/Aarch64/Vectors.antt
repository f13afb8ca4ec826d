-- ===== src/Aarch64/Vectors.antt =====
-- aarch64/exceptions.s: the table of vectors, and where the processor enters it as its manual has
-- it.
use vega_os.Base.{ℕ, ◌+◌, ◌*◌, ◌/◌, ◌%◌, ◌≡◌, refl, arith, ◌==◌, Option, none, some, if◌then◌else◌}
use Prim.Native.String.{String}
use vega_os.Aarch64.Exceptions.{el1_sp0_sync}

-- Where an exception comes from: the current level on SP_EL0 or on its own stack pointer, or a
-- lower level in 64 or 32 bits.
pub data Source : Type 0 where
  current_sp0 : Source
  current_spx : Source
  lower_64 : Source
  lower_32 : Source

pub data Kind : Type 0 where
  synchronous : Kind
  irq : Kind
  fiq : Kind
  serror : Kind

abbrev source_index : Source → ℕ
source_index current_sp0 = 0
source_index current_spx = 1
source_index lower_64 = 2
source_index lower_32 = 3

abbrev kind_index : Kind → ℕ
kind_index synchronous = 0
kind_index irq = 1
kind_index fiq = 2
kind_index serror = 3

-- The sixteen entries have 128 bytes each.
abbrev pub vector_offset : Source → Kind → ℕ
vector_offset source kind = source_index source * 0x200 + kind_index kind * 0x80

-- The processor ignores the low 11 bits of vbar_el1.
unfoldable pub entry_point : ℕ → Source → Kind → ℕ
entry_point vbar_el1 source kind = vbar_el1 / 0x800 * 0x800 + vector_offset source kind

-- The instruction of `vector_tbl`, which stands at `address`: the handler to which the one that
-- starts at `pc` branches, `none` where the table has no instruction.
unfoldable pub vector_tbl : ℕ → ℕ → Option (ℕ → String)
vector_tbl address pc = if pc == address then some el1_sp0_sync else none

pub vector_tbl-entry_point :
    (address : ℕ) (source : Source) (kind : Kind)
    → address % 0x800 ≡ 0
    → vector_tbl address (entry_point address source kind)
      ≡ (if vector_offset source kind == 0 then some el1_sp0_sync else none)
unfolding vector_tbl entry_point
vector_tbl-entry_point address source kind aligned =
    let entry : (address / 0x800 * 0x800 + vector_offset source kind == address)
        ≡ (vector_offset source kind == 0) =
      ground (arith, aligned) in
    rw (entry) refl
