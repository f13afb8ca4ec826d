-- ===== src/Pmm/Size.antt =====
-- The entry with the highest base, and the bytes that a bitmap of all frames up to its end takes.
use vega_os.Base.{
  ℕ, ◌+◌, ◌*◌, ◌/◌, ◌%◌, ◌^◌, ◌≤◌, ◌≡◌, arith, Option, none, some, List, [], ◌∷◌, ltb, ◌==◌,
  if◌then◌else◌, u64,
}
use vega_os.Log.{codes}
use vega_os.Math.{align_up, align_up_page}
use vega_os.Outcome.{Outcome, ok, panicked}
use vega_os.Pmm.State.{Entry, usable}

-- The step of the loop: a usable entry replaces the one kept if its base is higher.
unfoldable pub higher : Option Entry → Entry → Option Entry
higher none current = some current
higher (some entry) current = if ltb entry.base current.base then some current else some entry

unfoldable pub highest_loop : Option Entry → List Entry → Option Entry
unfolding higher
highest_loop entry [] = entry
highest_loop entry (current ∷ rest) =
    highest_loop (if current.type == usable then higher entry current else entry) rest

unfoldable pub find_highest_mmap_entry : List Entry → Option Entry
unfolding highest_loop
find_highest_mmap_entry entries = highest_loop none entries

-- The rest of get_bitmap_size, from the highest entry or NULL.
unfoldable pub size_up_to : Option Entry → Outcome ℕ
unfolding align_up
size_up_to none =
    panicked (record { fmt = codes "pmm: Could not find highest entry!\n"; args = [] })
size_up_to (some highest_entry) =
    let highest_address = u64 (highest_entry.base + highest_entry.length) in
    ok (align_up (highest_address / 0x1000 / 8) 0x1000)

unfoldable pub get_bitmap_size : List Entry → Outcome ℕ
unfolding find_highest_mmap_entry size_up_to
get_bitmap_size entries = size_up_to (find_highest_mmap_entry entries)

size_up_to-bounds :
    (highest : Option Entry) (size : ℕ)
    → size_up_to highest ≡ ok size
    → (size % 0x1000 ≡ 0) × (size ≤ 2 ^ 49)
unfolding size_up_to
size_up_to-bounds none size h = cc
size_up_to-bounds (some e) size h =
    let bytes = u64 (e.base + e.length) / 0x1000 / 8 in
    let rounded : size ≡ (bytes + 4095) / 4096 * 4096 = cc (h, align_up_page bytes (omega arith)) in
    omega arith

-- The size is a whole number of pages, and small enough for the frames' addresses to fit 64 bits.
pub get_bitmap_size-bounds :
    (entries : List Entry) (size : ℕ)
    → get_bitmap_size entries ≡ ok size
    → (size % 0x1000 ≡ 0) × (size ≤ 2 ^ 49)
unfolding get_bitmap_size
get_bitmap_size-bounds entries size h = size_up_to-bounds (find_highest_mmap_entry entries) size h
