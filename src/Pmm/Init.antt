-- ===== src/Pmm/Init.antt =====
-- init_bitmap as a whole: the bitmap's place, and what it says of every frame.
use vega_os.Base.{
  ℕ, ◌+◌, ◌*◌, ◌/◌, ◌%◌, ◌<◌, ◌≡◌, refl, arith, if◌then◌else◌, u64, ◌∙◌, ap, true, false, List, [],
  ◌∷◌, ◌++◌, some,
}
use vega_os.Base.Bits.{bit_at, bit_at-complement, bit_at-zero}
use vega_os.Memory.{Mem, IsMapped, within}
use vega_os.Posix.{memset}
use vega_os.Posix.Laws.{memset-fills}
use vega_os.Bitmap.{bitmap_test_bit}
use vega_os.Bitmap.Laws.{bitmap_test_bit_lem}
use vega_os.Outcome.{ok}
use vega_os.Pmm.State.{Entry, Window, Pmm}
use vega_os.Pmm.Size.{get_bitmap_size}
use vega_os.Pmm.Setup.{is_roomy, carve, place_loop, setup_loop, init_messages, init_bitmap}
use vega_os.Pmm.FirstFit.{bit_of}
use vega_os.Pmm.Cover.{is_covered, Fits}
use vega_os.Pmm.Marks.{setup_loop-Cleared}

abbrev pub NoneRoomy : ℕ → List Entry → Type 0
NoneRoomy size [] = Unit {0}
NoneRoomy size (entry ∷ rest) = (is_roomy size entry ≡ false) × NoneRoomy size rest

abbrev pub placed_entries : ℕ → List Entry → Entry → List Entry → List Entry
placed_entries size before target after = before ++ carve size target ∷ after

module _ (w : Window) (size bitmap : ℕ) (m : Mem) (target : Entry) (after : List Entry) where
  -- The first loop gives the bitmap to the first roomy entry.
  place_loop-first :
      (before : List Entry)
      → NoneRoomy size before
      → is_roomy size target ≡ true
      → let address = u64 (target.base + w.higher_half) in
        place_loop w size bitmap m (before ++ target ∷ after) ≡ record {
          entries = placed_entries size before target after;
          bitmap = address;
          mem = (memset w.phys address 0xff size m).1;
        }
  unfolding place_loop
  place_loop-first [] no_room room = rw room
  place_loop-first (entry ∷ before) no_room room =
      rw (no_room.0, place_loop-first before no_room.1 room)

-- With no roomy entry it leaves the bitmap and memory alone.
place_loop-none :
    (w : Window) (size bitmap : ℕ) (m : Mem) (entries : List Entry)
    → NoneRoomy size entries
    → place_loop w size bitmap m entries ≡ record { entries = entries; bitmap = bitmap; mem = m }
unfolding place_loop
place_loop-none w size bitmap m [] none_roomy = refl
place_loop-none w size bitmap m (entry ∷ rest) none_roomy =
    rw (none_roomy.0, place_loop-none w size bitmap m rest none_roomy.1)

-- A byte of ones has each of its bits set.
bit_at-ones : (k : ℕ) → k < 8 → bit_at 0xff k ≡ 1
bit_at-ones k h = omega (arith, bit_at-complement 8 k 0 (omega arith) h, bit_at-zero k)

module _ (w : Window) (s : Pmm) (size : ℕ) (before after : List Entry) (target : Entry) where
  -- The state after init_bitmap: `target` gave the bitmap its first `size` bytes.
  pub record Initialised (t : Pmm) : Type 0 where
    pub mmap_resp : t.mmap_resp ≡ some (placed_entries size before target after)
    pub bitmap : t.bitmap ≡ u64 (target.base + w.higher_half)
    pub bits :
        (b : ℕ)
        → b < size * 8
        → bit_of w t b
          ≡ (if is_covered size (placed_entries size before target after) b then 0 else 1)
    pub outside : (q : ℕ) → within target.base size q ≡ false → t.mem q ≡ s.mem q
    pub log : t.log ≡ s.log ++ init_messages size t.bitmap
    pub start_found :
        (b : ℕ)
        → 0 < b
        → is_covered size (placed_entries size before target after) b ≡ true
        → 0 < t.bitmap_start_bit

  module _ (mapped : IsMapped w.phys (u64 (target.base + w.higher_half)) target.base size) where
    abbrev address : ℕ
    address = u64 (target.base + w.higher_half)

    abbrev filled : Mem
    filled = (memset w.phys address 0xff size s.mem).1

    filled-ones : (b : ℕ) → b < size * 8 → bitmap_test_bit w.phys address b filled ≡ 1
    filled-ones b h =
        bitmap_test_bit_lem w.phys address target.base size b filled mapped (omega arith)
        ∙ ap (λ (t : ℕ). bit_at t (b % 8)) (byte ∙ ground arith)
        ∙ bit_at-ones (b % 8) (omega arith)
      where
        byte : filled (target.base + b / 8) ≡ (
            if within target.base size (target.base + b / 8)
            then 0xff
            else s.mem (target.base + b / 8))
        byte = (memset-fills w.phys address target.base 0xff size s.mem mapped).1 _

    filled-outside : (q : ℕ) → within target.base size q ≡ false → filled q ≡ s.mem q
    filled-outside q out =
        (memset-fills w.phys address target.base 0xff size s.mem mapped).1 q ∙ rw out

    init_bitmap-eq :
        (m : Mem) (start : ℕ)
        → NoneRoomy size before
        → is_roomy size target ≡ true
        → get_bitmap_size (before ++ target ∷ after) ≡ ok size
        → setup_loop w size address
            (placed_entries size before target after)
            filled
            s.bitmap_start_bit
          ≡ ok (m, start)
        → init_bitmap w (before ++ target ∷ after) s
          ≡ ok (record {
            mmap_resp = some (placed_entries size before target after);
            bitmap = address;
            bitmap_start_bit = start;
            mem = m;
            log = s.log ++ init_messages size address;
          })
    unfolding init_bitmap
    init_bitmap-eq m start no_room room sized cleared =
        rw (sized, place_loop-first w size s.bitmap s.mem target after before no_room room, cleared)

    -- init_bitmap succeeds when `target` is the first usable entry as large as the bitmap, the
    -- bitmap's place there is mapped, and the bitmap has a bit for each frame of the roomy
    -- entries. The bitmap is then placed at the start of `target`, which gives these bytes away;
    -- its bits are 0 for exactly the frames that the roomy entries cover; no byte outside it
    -- changes; bitmap_start_bit is not 0 if a frame other than 0 is free; and the size and the
    -- place are printed.
    pub init_bitmap-Initialised :
        NoneRoomy size before
        → is_roomy size target ≡ true
        → get_bitmap_size (before ++ target ∷ after) ≡ ok size
        → Fits size size (placed_entries size before target after)
        → (t : Pmm) × (init_bitmap w (before ++ target ∷ after) s ≡ ok t) × Initialised t
    init_bitmap-Initialised no_room room sized fits =
        let (m, start, cleared, c) =
          setup_loop-Cleared w address target.base size mapped size
            (placed_entries size before target after) filled s.bitmap_start_bit fits in
        (
          record {
            mmap_resp = some (placed_entries size before target after);
            bitmap = address;
            bitmap_start_bit = start;
            mem = m;
            log = s.log ++ init_messages size address;
          },
          init_bitmap-eq m start no_room room sized cleared,
          record {
            mmap_resp = refl;
            bitmap = refl;
            bits = λ b h. c.bits b h ∙ rw (filled-ones b h);
            outside = λ q out. c.outside q out ∙ filled-outside q out;
            start_found = c.start_found;
            log = refl;
          },
        )

module _ (w : Window) (s : Pmm) (size : ℕ) where
  setup_loop-none :
      (bitmap : ℕ) (m : Mem) (start : ℕ) (entries : List Entry)
      → NoneRoomy size entries
      → setup_loop w size bitmap entries m start ≡ ok (m, start)
  unfolding setup_loop
  setup_loop-none bitmap m start [] none_roomy = refl
  setup_loop-none bitmap m start (entry ∷ rest) none_roomy =
      rw (none_roomy.0, setup_loop-none bitmap m start rest none_roomy.1)

  -- When no usable entry is large enough for the bitmap, init_bitmap still succeeds: the bitmap
  -- stays the pointer that it was, memory, the map and bitmap_start_bit stay as they were, and
  -- the message about the space found is printed all the same.
  pub init_bitmap-NoneRoomy :
      (entries : List Entry)
      → NoneRoomy size entries
      → get_bitmap_size entries ≡ ok size
      → init_bitmap w entries s
        ≡ ok (record s { mmap_resp = some entries; log = s.log ++ init_messages size s.bitmap })
  unfolding init_bitmap
  init_bitmap-NoneRoomy entries none_roomy sized = rw (
    sized,
    place_loop-none w size s.bitmap s.mem entries none_roomy,
    setup_loop-none s.bitmap s.mem s.bitmap_start_bit entries none_roomy,
  )
