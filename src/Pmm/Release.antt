-- ===== src/Pmm/Release.antt =====
-- What pmm_free does to the bitmap, and that pmm_alloc does nothing to it.
use vega_os.Base.{
  ℕ, zero, suc, ◌+◌, ◌*◌, ◌/◌, ◌^◌, ◌≤◌, ◌<◌, ◌≡◌, refl, arith, if◌then◌else◌, u64, ◌∙◌, false,
}
use vega_os.Memory.{Mem, IsMapped, within}
use vega_os.Bitmap.{bitmap_test_bit, bitmap_unset_bit}
use vega_os.Bitmap.Laws.{bitmap_test_bit-unset, bitmap_unset_bit_outside}
use vega_os.Outcome.{Outcome, ok, panicked, halted, fault, out_of_fuel, ◌>>=◌, deref, >>=-parts}
use vega_os.Pmm.Size.{get_bitmap_size}
use vega_os.Pmm.State.{Window, Pmm}
use vega_os.Pmm.Frames.{alloc_in, pmm_alloc, free_loop, pmm_free}
use vega_os.Pmm.FirstFit.{bit_of}

module _ (w : Window) (bitmap p n : ℕ) (is : IsMapped w.phys bitmap p n) where
  free_loop-bit :
      (frames ptr j : ℕ) (m : Mem)
      → ptr + frames * 0x1000 < 2 ^ 64
      → ptr / 0x1000 + frames ≤ n * 8
      → j < n * 8
      → bitmap_test_bit w.phys bitmap j (free_loop w frames bitmap ptr m)
        ≡ (if within (ptr / 0x1000) frames j then 0 else bitmap_test_bit w.phys bitmap j m)
  unfolding free_loop
  free_loop-bit zero ptr j m top fits h = ground arith
  free_loop-bit (suc frames) ptr j m top fits h =
      let next : u64 (ptr + 0x1000) ≡ ptr + 0x1000 = omega arith in
      let page : (ptr + 0x1000) / 0x1000 ≡ ptr / 0x1000 + 1 = omega arith in
      let m' = bitmap_unset_bit w.phys bitmap (ptr / 0x1000) m in
      rw next (
        free_loop-bit frames (ptr + 0x1000) j m' (omega arith) (omega arith) h
        ∙ rw
            (
              page,
              bitmap_test_bit-unset w.phys bitmap p n (ptr / 0x1000) j m is (omega arith)
                  (omega arith),
            )
            (ground arith))

  free_loop_outside :
      (frames ptr q : ℕ) (m : Mem)
      → ptr + frames * 0x1000 < 2 ^ 64
      → ptr / 0x1000 + frames ≤ n * 8
      → within p n q ≡ false
      → free_loop w frames bitmap ptr m q ≡ m q
  unfolding free_loop
  free_loop_outside zero ptr q m top fits out = refl
  free_loop_outside (suc frames) ptr q m top fits out =
      let next : u64 (ptr + 0x1000) ≡ ptr + 0x1000 = omega arith in
      let m' = bitmap_unset_bit w.phys bitmap (ptr / 0x1000) m in
      rw next (
        free_loop_outside frames (ptr + 0x1000) q m' (omega arith) (omega arith) out
        ∙ bitmap_unset_bit_outside w.phys bitmap p n (ptr / 0x1000) m is (omega arith) q out)

module _ (w : Window) (s : Pmm) where
  -- pmm_free marks exactly the `frames` frames from that of `ptr` on as free, and changes no byte
  -- of memory outside the bitmap, when the bitmap is mapped and covers those frames, and they end
  -- below 2 ^ 64.
  pub pmm_free-frees :
      (p n ptr frames : ℕ)
      → IsMapped w.phys s.bitmap p n
      → ptr + frames * 0x1000 < 2 ^ 64
      → ptr / 0x1000 + frames ≤ n * 8
      → ((j : ℕ)
          → j < n * 8
          → bit_of w (pmm_free w ptr frames s) j
            ≡ (if within (ptr / 0x1000) frames j then 0 else bit_of w s j))
        × ((q : ℕ) → within p n q ≡ false → (pmm_free w ptr frames s).mem q ≡ s.mem q)
  unfolding pmm_free
  pmm_free-frees p n ptr frames is top fits = (
    λ j h. free_loop-bit w s.bitmap p n is frames ptr j s.mem top fits h,
    λ q out. free_loop_outside w s.bitmap p n is frames ptr q s.mem top fits out,
  )

  -- What hands out an address beside the state `s` ends in `s`.
  state_of_answer :
      (search : Outcome ℕ) (address : ℕ) (t : Pmm)
      → ◌>>=◌ {B = ℕ × Pmm} search (λ a. ok (a, s)) ≡ ok (address, t)
      → t ≡ s
  state_of_answer (ok a) address t h = cc
  state_of_answer (panicked c) address t h = cc
  state_of_answer halted address t h = cc
  state_of_answer fault address t h = cc
  state_of_answer out_of_fuel address t h = cc

  pub pmm_alloc_state :
      (frames address : ℕ) (t : Pmm) → pmm_alloc w frames s ≡ ok (address, t) → t ≡ s
  unfolding pmm_alloc alloc_in
  pmm_alloc_state frames address t h =
      let (entries, in_map, mapped) = >>=-parts (alloc_in w frames s) (deref s.mmap_resp) h in
      let (size, searched, sized) = >>=-parts _ (get_bitmap_size entries) in_map in
      state_of_answer _ address t searched

  -- A successful pmm_alloc, whatever the state, does not mark its frames as used: the state after
  -- it is the state before it, so that the same request again is answered with the same address.
  pub pmm_alloc_repeats :
      (frames address : ℕ) (t : Pmm)
      → pmm_alloc w frames s ≡ ok (address, t)
      → (t ≡ s) × (pmm_alloc w frames t ≡ ok (address, s))
  pmm_alloc_repeats frames address t h =
      let same = pmm_alloc_state frames address t h in (same, rw same (h ∙ rw same))
