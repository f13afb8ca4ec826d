-- ===== src/Mmu/Examples/Supplied.antt =====
-- A memory map of one entry, and which frames it leaves to the allocator.
use vega_os.Base.{ℕ, ◌*◌, ◌<◌, ◌≡◌, refl, arith, [], true}
use vega_os.Pmm.State.{Entry, usable}
use vega_os.Pmm.Size.{get_bitmap_size}
use vega_os.Pmm.Setup.{is_roomy, carve}
use vega_os.Pmm.Cover.{is_covered}
use vega_os.Pmm.Init.{placed_entries}
use vega_os.Pmm.Safety.{IsBootable}
use vega_os.Mmu.Supply.{IsSupplied, IsReserved}
use vega_os.Mmu.Examples.{window, shown}

abbrev pub ram : Entry
ram = record { base = 0x1_0000; length = 0x4000; type = usable }

pub boot : IsBootable window 0x1000 [] [] ram
unfolding carve is_roomy get_bitmap_size
boot = record {
  no_room = tt;
  room = refl;
  sized = refl;
  mapped = record { at = λ i lt. ground arith };
  aligned = refl;
  ends = omega arith;
  in_bitmap = omega arith;
  apart_before = tt;
  apart_after = tt;
  away_before = tt;
  away_after = tt;
}

-- Frames 17, 18 and 19 may be handed out.
covered-lt :
    (page : ℕ) → is_covered 0x1000 (placed_entries 0x1000 [] ram []) page ≡ true → page < 20
unfolding carve is_roomy
covered-lt page covered = ground arith

pub supplied : IsSupplied window 0x1000 [] [] ram
supplied = record {
  small = omega arith;
  direct = λ page covered. record { at = λ i lt. ground (arith, covered-lt page covered) };
  shown = λ page covered. shown (page * 4096) (omega (arith, covered-lt page covered));
}

pub table-IsReserved : (i : ℕ) → i < 16 → IsReserved window 0x1000 [] [] ram (i * 4096)
unfolding carve is_roomy
table-IsReserved i h = record {
  whole = omega arith;
  uncovered = ground arith;
  spared = ground arith;
}

pub frame_17 : is_covered 0x1000 (placed_entries 0x1000 [] ram []) 17 ≡ true
unfolding carve is_roomy
frame_17 = refl
