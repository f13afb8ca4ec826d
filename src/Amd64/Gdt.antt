-- ===== src/Amd64/Gdt.antt =====
-- amd64/gdt.c and include/amd64/gdt.h.
use vega_os.Base.{ℕ, ◌-◌, ◌*◌, List, [], ◌∷◌, get_elem?}
use mathlib.Core.Option.{get_or}

pub record GdtEntry : Type 0 where
  pub limit : ℕ
  pub base_low : ℕ
  pub base_mid : ℕ
  pub access : ℕ
  pub granularity : ℕ
  pub base_hi : ℕ

-- The entries have no base.
abbrev pub entry : ℕ → ℕ → ℕ → GdtEntry
entry limit access granularity = record {
  limit = limit;
  base_low = 0x0000;
  base_mid = 0x00;
  access = access;
  granularity = granularity;
  base_hi = 0x00;
}

abbrev pub initialized : List GdtEntry
initialized =
    entry 0 0 0
    ∷ entry 0xffff 0x9a 0x00
    ∷ entry 0xffff 0x92 0x00
    ∷ entry 0xffff 0x9a 0xcf
    ∷ entry 0xffff 0x92 0xcf
    ∷ entry 0x0000 0x9a 0x20
    ∷ entry 0x0000 0x92 0x00
    ∷ entry 0x0000 0xfa 0xaf
    ∷ entry 0x0000 0xf2 0x00
    ∷ []

-- `gdt[i]` for `i` below 256; what the initializer leaves out is zero.
unfoldable pub gdt : ℕ → GdtEntry
gdt i = get_or (get_elem? initialized i) (entry 0 0 0)

pub record Gdtr : Type 0 where
  pub limit : ℕ
  pub offset : ℕ

-- The operand of `lgdt` in gdt_load; `address` is that of `gdt`.
unfoldable pub gdtr : ℕ → Gdtr
gdtr address = record { limit = 8 * 256 - 1; offset = address }
