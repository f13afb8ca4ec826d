-- ===== src/Pmm/Frames.antt =====
-- pmm_alloc and pmm_free.
use vega_os.Base.{ℕ, zero, suc, ◌+◌, ◌*◌, ◌/◌, List, ltb, leb, ◌==◌, if◌then◌else◌, u64}
use vega_os.Memory.{Mem}
use vega_os.Bitmap.{bitmap_test_bit, bitmap_unset_bit}
use vega_os.Outcome.{Outcome, ok, out_of_fuel, ◌>>=◌, deref}
use vega_os.Pmm.State.{Entry, Window, Pmm}
use vega_os.Pmm.Size.{get_bitmap_size}

module _ (w : Window) where
  -- The search at `current_bit`. The size of the bitmap is computed again in each round.
  unfoldable pub alloc_loop : ℕ → List Entry → Pmm → ℕ → ℕ → ℕ → ℕ → Outcome ℕ
  unfolding get_bitmap_size bitmap_test_bit
  alloc_loop zero entries s frames current_bit bit frames_found = out_of_fuel
  alloc_loop (suc fuel) entries s frames current_bit bit frames_found = do
    size ← get_bitmap_size entries
    let bit' = if bit == 0 then current_bit else bit
    let found' = u64 (frames_found + 1)
    let next = u64 (current_bit + 1)
    let extended = alloc_loop fuel entries s frames next bit' found'
    let restarted = alloc_loop fuel entries s frames next 0 0
    let is_free = bitmap_test_bit w.phys s.bitmap current_bit s.mem == 0
    let on_free = if leb frames found' then ok (u64 (bit' * 0x1000)) else extended
    let round = if is_free then on_free else restarted
    if ltb current_bit (u64 (size * 8)) then round else ok 0

  unfoldable pub alloc_in : ℕ → Pmm → List Entry → Outcome (ℕ × Pmm)
  unfolding alloc_loop
  alloc_in frames s entries = do
    size ← get_bitmap_size entries
    address ← alloc_loop (u64 (size * 8) + 1) entries s frames s.bitmap_start_bit 0 0
    ok (address, s)

  -- The address of the frames, 0 for none, and the state after the call.
  unfoldable pub pmm_alloc : ℕ → Pmm → Outcome (ℕ × Pmm)
  unfolding alloc_in
  pmm_alloc frames s = deref s.mmap_resp >>= alloc_in frames s

  -- `for (i = 0; i < frames; ++i)` with `frames - i` rounds left.
  unfoldable pub free_loop : ℕ → ℕ → ℕ → Mem → Mem
  unfolding bitmap_unset_bit
  free_loop zero bitmap ptr m = m
  free_loop (suc frames) bitmap ptr m =
      free_loop frames bitmap (u64 (ptr + 0x1000)) (bitmap_unset_bit w.phys bitmap (ptr / 0x1000) m)

  unfoldable pub pmm_free : ℕ → ℕ → Pmm → Pmm
  unfolding free_loop
  pmm_free ptr frames s = record s { mem = free_loop frames s.bitmap ptr s.mem }
