-- ===== src/Pmm/Examples.antt =====
-- A small machine: its map, and the allocator's theorems on it.
use vega_os.Base.{
  ℕ, ◌+◌, ◌-◌, ◌*◌, ◌/◌, ◌%◌, ◌^◌, ◌≤◌, ◌<◌, ◌≡◌, ◌↔◌, ◌≢◌, ◌⊎◌, refl, arith, if◌then◌else◌, ltb,
  u64, List, [], ◌∷◌, ◌++◌, some, none, true, false,
}
use vega_os.Memory.{IsMapped, within}
use vega_os.Outcome.{ok}
use vega_os.Pmm.State.{Entry, Window, Pmm, usable}
use vega_os.Pmm.Size.{find_highest_mmap_entry, get_bitmap_size}
use vega_os.Pmm.Setup.{is_roomy, carve, init_messages, init_bitmap}
use vega_os.Pmm.Frames.{pmm_alloc, pmm_free}
use vega_os.Pmm.FirstFit.{FirstFit, bit_of, pmm_alloc-FirstFit}
use vega_os.Pmm.Release.{pmm_free-frees, pmm_alloc_repeats}
use vega_os.Pmm.Cover.{is_covered}
use vega_os.Pmm.Init.{
  NoneRoomy, placed_entries, Initialised, init_bitmap-Initialised, init_bitmap-NoneRoomy,
}
use vega_os.Pmm.Highest.{NoneUsable, IsTop, find_highest_mmap_entry-IsTop, get_bitmap_size-covers}
use vega_os.Pmm.Safety.{IsBootable, AreUsable}
use vega_os.Pmm.Reach.{Reach, pmm_alloc-Reach}

abbrev pub higher_half : ℕ
higher_half = 0xffff_8000_0000_0000

abbrev pub window : Window
window = record {
  phys = λ a. if ltb a higher_half then a else a - higher_half;
  higher_half = higher_half;
}

abbrev pub low : Entry
low = record { base = 0x1000; length = 0x800; type = usable }

abbrev pub ram : Entry
ram = record { base = 0x10000; length = 0x4000; type = usable }

abbrev pub firmware : Entry
firmware = record { base = 0x20000; length = 0x2000; type = 1 }

abbrev pub high : Entry
high = record { base = 0x30000; length = 0x3000; type = usable }

abbrev pub before : List Entry
before = low ∷ []

abbrev pub after : List Entry
after = firmware ∷ high ∷ []

abbrev pub entries : List Entry
entries = before ++ ram ∷ after

abbrev off : Pmm
off = record { mmap_resp = none; bitmap = 0; bitmap_start_bit = 0; mem = λ _. 0; log = [] }

-- A bitmap of one page at 0x10000, in which only the frames 5, 6, 7 and 9 to 11 are free.
abbrev on : Pmm
on = record {
  mmap_resp = some entries;
  bitmap = 0x10000 + higher_half;
  bitmap_start_bit = 5;
  mem = λ q.
      if ltb q 0x10000
      then 0
      else if ltb q 0x10001
      then 0x1f
      else if ltb q 0x10002
      then 0xf1
      else 0xff;
  log = [];
}

size_is : get_bitmap_size entries ≡ ok 0x1000
unfolding get_bitmap_size
size_is = refl

highest_is : find_highest_mmap_entry entries ≡ some high
unfolding find_highest_mmap_entry
highest_is = refl

two_frames : pmm_alloc window 2 on ≡ ok (0x5000, on)
unfolding pmm_alloc
two_frames = refl

-- Four frames in a row are free after pmm_free of frame 8.
four_frames :
    pmm_alloc window 4 (pmm_free window 0x8000 1 on) ≡ ok (0x5000, pmm_free window 0x8000 1 on)
unfolding pmm_alloc pmm_free
four_frames = refl

mapped : (n : ℕ) → n ≤ 0x1000 → IsMapped window.phys (u64 (ram.base + higher_half)) ram.base n
mapped n h = record { at = λ i lt. ground arith }

pmm_alloc-FirstFit_example :
    (address : ℕ) × (pmm_alloc window 3 on ≡ ok (address, on))
    × FirstFit window on (0x1000 * 8) 3 address
pmm_alloc-FirstFit_example =
    pmm_alloc-FirstFit window on entries 0x1000 3 refl size_is (omega arith) (omega arith)

pmm_alloc_repeats_example : (on ≡ on) × (pmm_alloc window 2 on ≡ ok (0x5000, on))
pmm_alloc_repeats_example = pmm_alloc_repeats window on 2 0x5000 on two_frames

pmm_free-frees_example :
    ((j : ℕ)
      → j < 0x1000 * 8
      → bit_of window (pmm_free window 0x8000 2 on) j
        ≡ (if within (0x8000 / 0x1000) 2 j then 0 else bit_of window on j))
    × ((q : ℕ) → within 0x10000 0x1000 q ≡ false → (pmm_free window 0x8000 2 on).mem q ≡ on.mem q)
pmm_free-frees_example =
    pmm_free-frees window on 0x10000 0x1000 0x8000 2 (mapped 0x1000 (omega arith)) (omega arith)
      (omega arith)

low_small : is_roomy 0x1000 low ≡ false
unfolding is_roomy
low_small = refl

ram_roomy : is_roomy 0x1000 ram ≡ true
unfolding is_roomy
ram_roomy = refl

pub boot : IsBootable window 0x1000 before after ram
unfolding carve is_roomy
boot = record {
  no_room = (low_small, tt);
  room = ram_roomy;
  sized = size_is;
  mapped = mapped 0x1000 (omega arith);
  aligned = refl;
  ends = omega arith;
  in_bitmap = omega arith;
  apart_before = omega arith;
  apart_after = omega arith;
  away_before = omega arith;
  away_after = omega arith;
}

init_bitmap-Initialised_example :
    (t : Pmm) × (init_bitmap window entries off ≡ ok t)
    × Initialised window off 0x1000 before after ram t
init_bitmap-Initialised_example =
    init_bitmap-Initialised window off 0x1000 before after ram boot.mapped boot.no_room boot.room
      boot.sized boot.in_bitmap

-- A map whose usable entries are smaller than the bitmap of two pages that it asks for.
abbrev cramped : List Entry
cramped = low ∷ firmware ∷ record { base = 0x1000_0000; length = 0x1000; type = usable } ∷ []

cramped_size : get_bitmap_size cramped ≡ ok 0x2000
unfolding get_bitmap_size
cramped_size = refl

none_roomy : NoneRoomy 0x2000 cramped
unfolding is_roomy
none_roomy = (refl, (refl, (refl, tt)))

init_bitmap-NoneRoomy_example :
    init_bitmap window cramped off
    ≡ ok (record off { mmap_resp = some cramped; log = off.log ++ init_messages 0x2000 off.bitmap })
init_bitmap-NoneRoomy_example =
    init_bitmap-NoneRoomy window off 0x2000 cramped none_roomy cramped_size

find_highest_mmap_entry-IsTop_example :
    ((find_highest_mmap_entry entries ≡ none) × NoneUsable entries)
    ⊎ ((e : Entry) × (find_highest_mmap_entry entries ≡ some e) × IsTop entries e)
find_highest_mmap_entry-IsTop_example = find_highest_mmap_entry-IsTop entries

get_bitmap_size-covers_example :
    (size : ℕ) × (get_bitmap_size entries ≡ ok size)
    × (size % 0x1000 ≡ 0)
    × (size ≤ 2 ^ 49)
    × ((51 ≤ size * 8) ↔ ((51 % 8 ≡ 0) ⊎ (51 / 8 % 0x1000 ≢ 0)))
get_bitmap_size-covers_example = get_bitmap_size-covers entries high highest_is (omega arith)

pub frame_17 : is_covered 0x1000 (placed_entries 0x1000 before ram after) 17 ≡ true
unfolding carve is_roomy
frame_17 = refl

pmm_alloc-Reach_example :
    (first : Pmm) × (init_bitmap window entries off ≡ ok first)
    × ((t : Pmm) (frames : ℕ)
        → Reach window 0x1000 before after ram first t
        → 0 < frames
        → (address : ℕ) × (pmm_alloc window frames t ≡ ok (address, t))
          × ((address ≡ 0) ⊎ AreUsable window off 0x1000 before after ram address frames))
pmm_alloc-Reach_example =
    pmm_alloc-Reach window 0x1000 before after ram boot off 17 (omega arith) frame_17
