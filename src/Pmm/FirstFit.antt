-- ===== src/Pmm/FirstFit.antt =====
-- What pmm_alloc promises: the first run of free frames at or above bitmap_start_bit.
use vega_os.Base.{
  ℕ, zero, suc, ◌+◌, ◌-◌, ◌*◌, ◌^◌, ◌≤◌, ◌<◌, ◌≡◌, ◌≢◌, ◌⊎◌, inl, inr, ltb, leb, ◌==◌,
  if◌then◌else◌, u64, some, List, arith, refl, true, false, Bool-cases, ap, ◌∙◌,
}
use vega_os.Bitmap.{bitmap_test_bit}
use vega_os.Outcome.{ok, deref, ◌>>=◌}
use vega_os.Pmm.State.{Entry, Window, Pmm}
use vega_os.Pmm.Size.{get_bitmap_size, get_bitmap_size-bounds}
use vega_os.Pmm.Frames.{alloc_loop, alloc_in, pmm_alloc}

module _ (w : Window) (s : Pmm) where
  abbrev pub bit_of : ℕ → ℕ
  bit_of j = bitmap_test_bit w.phys s.bitmap j s.mem

  -- The `n` frames from `b` on are free.
  abbrev pub IsFreeRun : ℕ → ℕ → Type 0
  IsFreeRun b n = (i : ℕ) → i < n → bit_of (b + i) ≡ 0

  -- `address` is that of the lowest free run below `limit`.
  pub record Found (limit frames address : ℕ) : Type 0 where
    pub bit : ℕ
    pub address_eq : address ≡ bit * 0x1000
    pub above : s.bitmap_start_bit ≤ bit
    pub below : bit + frames ≤ limit
    pub run : IsFreeRun bit frames
    pub lowest : (c : ℕ) → s.bitmap_start_bit ≤ c → c < bit → ¬ IsFreeRun c frames

  -- There is no free run, and the answer is 0.
  pub record NotFound (limit frames address : ℕ) : Type 0 where
    pub address_eq : address ≡ 0
    pub no_run : (c : ℕ) → s.bitmap_start_bit ≤ c → c + frames ≤ limit → ¬ IsFreeRun c frames

  abbrev pub FirstFit : ℕ → ℕ → ℕ → Type 0
  FirstFit limit frames address = Found limit frames address ⊎ NotFound limit frames address

  -- The loop's invariant: the last `found` bits are free, and no run starts before them.
  record Search (frames current bit found : ℕ) : Type 0 where
    room : s.bitmap_start_bit + found ≤ current
    few : found < frames
    bit_eq : ((found ≡ 0) × (bit ≡ 0)) ⊎ ((0 < found) × (bit + found ≡ current))
    run : IsFreeRun (current - found) found
    no_run : (c : ℕ) → s.bitmap_start_bit ≤ c → c + found < current → ¬ IsFreeRun c frames

  module _ (frames current bit found : ℕ) (positive : 0 < s.bitmap_start_bit)
      (inv : Search frames current bit found) where
    run_start : (if bit == 0 then current else bit) ≡ current - found
    run_start = ground (arith, inv.bit_eq, inv.room)

    run-suc : bit_of current ≡ 0 → IsFreeRun (current - found) (found + 1)
    run-suc free i h = elim (Bool-cases (ltb i found)) [
      | inl old ↦ inv.run i (ground arith)
      | inr last ↦
          let here : current - found + i ≡ current = ground (arith, inv.room) in
          ap bit_of here ∙ free
    ]

    Search-used : bit_of current ≢ 0 → Search frames (current + 1) 0 0
    Search-used used = record {
      room = omega (arith, inv.room);
      few = omega (arith, inv.few);
      bit_eq = inl (refl, refl);
      run = λ i h. absurd (omega arith);
      no_run = λ c above before run. elim (Bool-cases (ltb (c + found) current)) [
        | inl early ↦ inv.no_run c above (ground arith) run
        | inr late ↦
            let here : current ≡ c + (current - c) = omega arith in
            used (ap bit_of here ∙ run (current - c) (ground (arith, inv.few)))
      ];
    }

    Search-free :
        bit_of current ≡ 0
        → found + 1 < frames
        → Search frames (current + 1) (current - found) (found + 1)
    Search-free free few = record {
      room = omega (arith, inv.room);
      few = few;
      bit_eq = inr (omega arith, omega (arith, inv.room));
      run = λ i h.
          let same : current + 1 - (found + 1) + i ≡ current - found + i = omega arith in
          ap bit_of same ∙ run-suc free i h;
      no_run = λ c above before. inv.no_run c above (omega arith);
    }

    Search-Found :
        (limit : ℕ)
        → bit_of current ≡ 0
        → frames ≤ found + 1
        → current < limit
        → Found limit frames ((current - found) * 0x1000)
    Search-Found limit free enough h = record {
      bit = current - found;
      address_eq = refl;
      above = omega (arith, inv.room);
      below = omega (arith, inv.room, inv.few);
      run = λ i lt. run-suc free i (omega arith);
      lowest = λ c above before. inv.no_run c above (omega arith);
    }

    Search-NotFound : (limit : ℕ) → limit ≤ current → NotFound limit frames 0
    Search-NotFound limit h = record {
      address_eq = refl;
      no_run = λ c above fits. inv.no_run c above (omega (arith, inv.few));
    }

  module _ (entries : List Entry) (size frames : ℕ) (positive : 0 < s.bitmap_start_bit)
      (sized : get_bitmap_size entries ≡ ok size) (fits : size * 8 * 0x1000 ≤ 2 ^ 64) where
    -- One round of the loop, by its three tests.
    alloc_loop-exit :
        (fuel current bit found : ℕ)
        → size * 8 ≤ current
        → alloc_loop w (suc fuel) entries s frames current bit found ≡ ok 0
    unfolding alloc_loop
    alloc_loop-exit fuel current bit found h =
        let past : ltb current (u64 (size * 8)) ≡ false = ground arith in rw (sized, past)

    alloc_loop-used :
        (fuel current bit found : ℕ)
        → current < size * 8
        → bit_of current ≢ 0
        → alloc_loop w (suc fuel) entries s frames current bit found
          ≡ alloc_loop w fuel entries s frames (current + 1) 0 0
    unfolding alloc_loop
    alloc_loop-used fuel current bit found h used =
        let before : ltb current (u64 (size * 8)) ≡ true = ground arith in
        let not_free : (bit_of current == 0) ≡ false = ground arith in
        let next : u64 (current + 1) ≡ current + 1 = omega arith in
        rw (sized, before, not_free, next)

    alloc_loop-free :
        (fuel current bit found : ℕ)
        → current < size * 8
        → bit_of current ≡ 0
        → Search frames current bit found
        → alloc_loop w (suc fuel) entries s frames current bit found ≡ (
            if leb frames (found + 1)
            then ok ((current - found) * 0x1000)
            else alloc_loop w fuel entries s frames (current + 1) (current - found) (found + 1))
    unfolding alloc_loop
    alloc_loop-free fuel current bit found h free inv =
        let before : ltb current (u64 (size * 8)) ≡ true = ground arith in
        let next : u64 (current + 1) ≡ current + 1 = omega arith in
        let longer : u64 (found + 1) ≡ found + 1 = omega (arith, inv.room) in
        let address : u64 ((current - found) * 0x1000) ≡ (current - found) * 0x1000 =
          omega (arith, inv.room) in
        rw (
          sized,
          before,
          free,
          next,
          longer,
          run_start frames current bit found positive inv,
          address,
        )

    alloc_loop-FirstFit :
        (fuel current bit found : ℕ)
        → Search frames current bit found
        → size * 8 < fuel + current
        → 0 < fuel
        → (address : ℕ) × (alloc_loop w fuel entries s frames current bit found ≡ ok address)
          × FirstFit (size * 8) frames address
    alloc_loop-FirstFit zero current bit found inv enough some_fuel = absurd (omega arith)
    alloc_loop-FirstFit (suc fuel) current bit found inv enough some_fuel =
        elim (Bool-cases (ltb current (size * 8))) [
          | inr past ↦ (
            0,
            alloc_loop-exit fuel current bit found (ground arith),
            inr (Search-NotFound frames current bit found positive inv (size * 8) (ground arith)),
          )
          | inl before ↦
              let h : current < size * 8 = ground arith in
              elim (Bool-cases (bit_of current == 0)) [
                | inr not_free ↦
                    let used : bit_of current ≢ 0 = ground arith in
                    rw (alloc_loop-used fuel current bit found h used) (
                      alloc_loop-FirstFit fuel (current + 1) 0 0
                        (Search-used frames current bit found positive inv used) (omega arith)
                        (omega arith))
                | inl zero_bit ↦
                    let free : bit_of current ≡ 0 = ground arith in
                    rw (alloc_loop-free fuel current bit found h free inv)
                      (elim (Bool-cases (leb frames (found + 1))) [
                        | inl done ↦
                            let end =
                              Search-Found frames current bit found positive inv (size * 8) free
                                (ground arith) h in
                            rw done ((current - found) * 0x1000, refl, inl end)
                        | inr more ↦ rw more (
                            alloc_loop-FirstFit fuel (current + 1) (current - found) (found + 1)
                              (Search-free frames current bit found positive inv free
                                (ground arith))
                              (omega arith) (omega arith))
                      ])
              ]
        ]

  alloc_in-ok :
      (entries : List Entry) (size frames : ℕ)
      → get_bitmap_size entries ≡ ok size
      → size * 8 * 0x1000 ≤ 2 ^ 64
      → (address : ℕ)
      → alloc_loop w (size * 8 + 1) entries s frames s.bitmap_start_bit 0 0 ≡ ok address
      → alloc_in w frames s entries ≡ ok (address, s)
  unfolding alloc_in
  alloc_in-ok entries size frames sized fits address answer =
      let whole : u64 (size * 8) ≡ size * 8 = omega arith in rw (sized, whole, answer)

  -- pmm_alloc of one frame or more returns without panic or fault, leaves the allocator's state as
  -- it was, and answers with the lowest run of that many free frames at or above bitmap_start_bit
  -- and below the end of the bitmap, or with 0 if there is none. Conditions: there is a memory
  -- map with a usable entry, and bitmap_start_bit is not 0.
  pub pmm_alloc-FirstFit :
      (entries : List Entry) (size frames : ℕ)
      → s.mmap_resp ≡ some entries
      → get_bitmap_size entries ≡ ok size
      → 0 < s.bitmap_start_bit
      → 0 < frames
      → (address : ℕ) × (pmm_alloc w frames s ≡ ok (address, s))
        × FirstFit (size * 8) frames address
  unfolding pmm_alloc
  pmm_alloc-FirstFit entries size frames mapped sized positive some_frames =
      let fits : size * 8 * 0x1000 ≤ 2 ^ 64 =
        omega (arith, get_bitmap_size-bounds entries size sized) in
      let start : Search frames s.bitmap_start_bit 0 0 = record {
        room = omega arith;
        few = some_frames;
        bit_eq = inl (refl, refl);
        run = λ i h. absurd (omega arith);
        no_run = λ c above before run. omega arith;
      } in
      let (address, answer, fit) =
        alloc_loop-FirstFit entries size frames positive sized fits (size * 8 + 1)
          s.bitmap_start_bit 0 0 start (omega arith) (omega arith) in
      (
        address,
        ap (λ r. deref r >>= alloc_in w frames s) mapped
            ∙ alloc_in-ok entries size frames sized fits address answer,
        fit,
      )
