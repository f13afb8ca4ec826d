-- ===== src/Pmm/Setup.antt =====
-- init_bitmap and pmm_init.
use vega_os.Base.{
  ℕ, zero, suc, ◌+◌, ◌-◌, ◌/◌, Bool, ◌&&◌, Option, none, some, List, [], ◌∷◌, ◌++◌, ltb, leb, ◌==◌,
  if◌then◌else◌, u64,
}
use vega_os.Memory.{Mem}
use vega_os.Posix.{memset}
use vega_os.Bitmap.{bitmap_unset_bit}
use vega_os.Log.{Call, codes, num, kinfo}
use vega_os.Outcome.{Outcome, ok, fault, out_of_fuel, ◌>>=◌}
use vega_os.Pmm.State.{Entry, usable, Window, Pmm}
use vega_os.Pmm.Size.{get_bitmap_size}

-- `type == LIMINE_MEMMAP_USABLE && length >= bitmap_size`, which both loops test.
unfoldable pub is_roomy : ℕ → Entry → Bool
is_roomy bitmap_size entry = entry.type == usable && leb bitmap_size entry.length

-- The entries, the bitmap and memory once the first loop is done.
pub record Placed : Type 0 where
  pub entries : List Entry
  pub bitmap : ℕ
  pub mem : Mem

-- An entry that gives its first bytes to the bitmap.
unfoldable pub carve : ℕ → Entry → Entry
carve bitmap_size entry = record entry {
  base = u64 (entry.base + bitmap_size);
  length = entry.length - bitmap_size;
}

abbrev pub this_module : List ℕ
this_module = codes "pmm"

-- What init_bitmap prints: the size, then the address (of the bitmap, or NULL).
unfoldable pub init_messages : ℕ → ℕ → List Call
unfolding kinfo
init_messages bitmap_size bitmap =
    kinfo this_module (codes "Required bitmap size: %d bytes\n") (num bitmap_size ∷ [])
    ++ kinfo this_module (codes "Found space for bitmap at %x\n") (num bitmap ∷ [])

module _ (w : Window) where
  -- The first loop: the first roomy entry takes the bitmap, all ones.
  unfoldable pub place_loop : ℕ → ℕ → Mem → List Entry → Placed
  unfolding is_roomy carve memset
  place_loop bitmap_size bitmap m [] = record { entries = []; bitmap = bitmap; mem = m }
  place_loop bitmap_size bitmap m (entry ∷ rest) =
      let address = u64 (entry.base + w.higher_half) in
      let placed : Placed = record {
        entries = carve bitmap_size entry ∷ rest;
        bitmap = address;
        mem = (memset w.phys address 0xff bitmap_size m).1;
      } in
      let later = place_loop bitmap_size bitmap m rest in
      if is_roomy bitmap_size entry
      then placed
      else record { entries = entry ∷ later.entries; bitmap = later.bitmap; mem = later.mem }

  -- `for (j = ...; j < entry->length; j += 0x1000)`, over memory and bitmap_start_bit.
  unfoldable pub unset_loop : ℕ → ℕ → Entry → ℕ → Mem → ℕ → Outcome (Mem × ℕ)
  unfolding bitmap_unset_bit
  unset_loop zero bitmap entry j m start = out_of_fuel
  unset_loop (suc fuel) bitmap entry j m start =
      let bit = u64 (entry.base + j) / 0x1000 in
      let rest =
        unset_loop fuel bitmap entry (u64 (j + 0x1000)) (bitmap_unset_bit w.phys bitmap bit m)
          (if start == 0 then bit else start) in
      if ltb j entry.length then rest else ok (m, start)

  -- The second loop: every roomy entry is marked free, frame by frame.
  unfoldable pub setup_loop : ℕ → ℕ → List Entry → Mem → ℕ → Outcome (Mem × ℕ)
  unfolding is_roomy unset_loop
  setup_loop bitmap_size bitmap [] m start = ok (m, start)
  setup_loop bitmap_size bitmap (entry ∷ rest) m start = do
    (m, start) ←
        (if is_roomy bitmap_size entry
          then unset_loop (entry.length / 0x1000 + 2) bitmap entry 0 m start
          else ok (m, start))
    setup_loop bitmap_size bitmap rest m start

  unfoldable pub init_bitmap : List Entry → Pmm → Outcome Pmm
  unfolding get_bitmap_size place_loop setup_loop init_messages
  init_bitmap entries s = do
    bitmap_size ← get_bitmap_size entries
    let placed = place_loop bitmap_size s.bitmap s.mem entries
    (m, start) ← setup_loop bitmap_size placed.bitmap placed.entries placed.mem s.bitmap_start_bit
    ok (record {
      mmap_resp = some placed.entries;
      bitmap = placed.bitmap;
      bitmap_start_bit = start;
      mem = m;
      log = s.log ++ init_messages bitmap_size placed.bitmap;
    })

  -- `response` is what the boot loader answered.
  unfoldable pub pmm_init : Option (List Entry) → Pmm → Outcome Pmm
  unfolding init_bitmap
  pmm_init none s = fault
  pmm_init (some entries) s = init_bitmap entries s
