-- ===== src/Pmm/Same.antt =====
-- pmm_alloc reads memory through the bits of the bitmap alone.
use vega_os.Base.{
  ℕ, zero, suc, ◌+◌, ◌*◌, ◌/◌, ◌%◌, ◌<◌, ◌≡◌, refl, sym, ap, ◌∙◌, arith, inl, inr, Bool-cases, true,
  some, ltb, u64, ◌==◌, if◌then◌else◌, List, Option,
}
use vega_os.Base.Bits.{bit_at}
use vega_os.Memory.{Mem, IsMapped, within}
use vega_os.Bitmap.Laws.{bitmap_test_bit_lem}
use vega_os.Outcome.{Outcome, ok, panicked, halted, fault, out_of_fuel, ok-injective, ◌>>=◌, deref}
use vega_os.Pmm.State.{Entry, Window, Pmm}
use vega_os.Pmm.Size.{get_bitmap_size}
use vega_os.Pmm.Frames.{alloc_loop, alloc_in, pmm_alloc}
use vega_os.Pmm.FirstFit.{bit_of}

module _ (w : Window) (s : Pmm) (m : Mem) where
  abbrev changed : Pmm
  changed = record s { mem = m }

  bit_of-same :
      (p size b : ℕ)
      → IsMapped w.phys s.bitmap p size
      → ((q : ℕ) → within p size q ≡ true → m q ≡ s.mem q)
      → b < size * 8
      → bit_of w changed b ≡ bit_of w s b
  bit_of-same p size b is same h =
      bitmap_test_bit_lem w.phys s.bitmap p size b m is (omega arith)
      ∙ ap (λ (v : ℕ). bit_at v (b % 8)) (same (p + b / 8) (ground arith))
      ∙ sym (bitmap_test_bit_lem w.phys s.bitmap p size b s.mem is (omega arith))

  module _ (entries : List Entry) (size frames : ℕ) (sized : get_bitmap_size entries ≡ ok size)
      (same : (b : ℕ) → b < u64 (size * 8) → bit_of w changed b ≡ bit_of w s b) where
    alloc_loop-same :
        (fuel current bit found : ℕ)
        → alloc_loop w fuel entries changed frames current bit found
          ≡ alloc_loop w fuel entries s frames current bit found
    unfolding alloc_loop
    alloc_loop-same zero current bit found = refl
    alloc_loop-same (suc fuel) current bit found =
        elim (Bool-cases (ltb current (u64 (size * 8)))) [
          | inl inside ↦ rw (
            sized,
            inside,
            same current (ground arith),
            alloc_loop-same fuel (u64 (current + 1)) (if bit == 0 then current else bit)
                (u64 (found + 1)),
            alloc_loop-same fuel (u64 (current + 1)) 0 0,
          )
          | inr outside ↦ rw (sized, outside)
        ]

-- An address that is handed out beside one state is handed out beside another.
answer_beside :
    (search : Outcome ℕ) (address : ℕ) (s t : Pmm)
    → ◌>>=◌ {B = ℕ × Pmm} search (λ a. ok (a, s)) ≡ ok (address, s)
    → ◌>>=◌ {B = ℕ × Pmm} search (λ a. ok (a, t)) ≡ ok (address, t)
answer_beside (ok a) address s t h = ap (λ (r : ℕ × Pmm). ok (r.0, t)) (ok-injective h)
answer_beside (panicked c) address s t h = cc
answer_beside halted address s t h = cc
answer_beside fault address s t h = cc
answer_beside out_of_fuel address s t h = cc

-- A request with the memory map and the size of the bitmap in hand.
pmm_alloc_search :
    (w : Window) (s : Pmm) (entries : List Entry) (size frames : ℕ)
    → s.mmap_resp ≡ some entries
    → get_bitmap_size entries ≡ ok size
    → pmm_alloc w frames s
      ≡ ◌>>=◌ {B = ℕ × Pmm}
          (alloc_loop w (u64 (size * 8) + 1) entries s frames s.bitmap_start_bit 0 0)
          (λ a. ok (a, s))
unfolding pmm_alloc alloc_in
pmm_alloc_search w s entries size frames in_map sized =
    ap (λ (o : Option (List Entry)). deref o >>= alloc_in w frames s) in_map
    ∙ ap
        (λ (o : Outcome ℕ). ◌>>=◌ {B = ℕ × Pmm} o (λ n.
          alloc_loop w (u64 (n * 8) + 1) entries s frames s.bitmap_start_bit 0 0
          >>= (λ a. ok (a, s))))
        sized

-- Where the bitmap is mapped at `p` and the change of memory spares it, a request is answered as
-- before.
pub pmm_alloc-same :
    (w : Window) (s : Pmm) (m : Mem) (entries : List Entry) (size p frames address : ℕ)
    → s.mmap_resp ≡ some entries
    → get_bitmap_size entries ≡ ok size
    → IsMapped w.phys s.bitmap p size
    → ((q : ℕ) → within p size q ≡ true → m q ≡ s.mem q)
    → pmm_alloc w frames s ≡ ok (address, s)
    → pmm_alloc w frames (record s { mem = m }) ≡ ok (address, record s { mem = m })
pmm_alloc-same w s m entries size p frames address in_map sized is same run =
    let fuel = u64 (size * 8) + 1 in
    let bits : (b : ℕ) → b < u64 (size * 8) → bit_of w (record s { mem = m }) b ≡ bit_of w s b =
      λ b h. bit_of-same w s m p size b is same (omega arith) in
    let searched = sym (pmm_alloc_search w s entries size frames in_map sized) ∙ run in
    pmm_alloc_search w (record s { mem = m }) entries size frames in_map sized
    ∙ rw (alloc_loop-same w s m entries size frames sized bits fuel s.bitmap_start_bit 0 0) (
        answer_beside (alloc_loop w fuel entries s frames s.bitmap_start_bit 0 0) address s
          (record s { mem = m }) searched)
