-- ===== src/Pmm/Cover.antt =====
-- Which frames the second loop of init_bitmap marks as free.
use vega_os.Base.{
  ℕ, zero, suc, ◌+◌, ◌-◌, ◌*◌, ◌/◌, ◌%◌, ◌^◌, ◌≤◌, ◌<◌, ◌≡◌, refl, arith, ◌==◌, if◌then◌else◌, u64,
  ◌∙◌, ◌&&◌, ◌||◌, Bool, true, false, ltb, List, [], ◌∷◌, Bool-cases, inl, inr,
}
use vega_os.Memory.{Mem, IsMapped, within}
use vega_os.Bitmap.{bitmap_test_bit, bitmap_unset_bit}
use vega_os.Bitmap.Laws.{bitmap_test_bit-unset, bitmap_unset_bit_outside}
use vega_os.Outcome.{Outcome, ok}
use vega_os.Pmm.State.{Entry, Window}
use vega_os.Pmm.Setup.{is_roomy, unset_loop}

-- The pages of an entry, a last part of a page included.
abbrev pub page_count : ℕ → ℕ
page_count bytes = (bytes + 0xfff) / 0x1000

-- Frame `b` is one of those that the loop counts to a usable entry of at least `size` bytes: the
-- frame of its base and, from there on, one for each page of its length that it has started.
abbrev pub is_covered : ℕ → List Entry → ℕ → Bool
is_covered size [] b = false
is_covered size (entry ∷ rest) b =
    (is_roomy size entry && within (entry.base / 0x1000) (page_count entry.length) b)
    || is_covered size rest b

-- The roomy entries end below 2 ^ 64 and within a bitmap of `n` bytes.
abbrev pub Fits : ℕ → ℕ → List Entry → Type 0
Fits n size [] = Unit {0}
Fits n size (entry ∷ rest) =
    (is_roomy size entry ≡ true
      → (entry.base + entry.length + 0x1000 < 2 ^ 64)
        × (entry.base / 0x1000 + page_count entry.length ≤ n * 8))
    × Fits n size rest

module _ (w : Window) (bitmap p n : ℕ) where
  -- Memory and bitmap_start_bit after the bits in `marked` have been cleared.
  pub record Cleared (marked : ℕ → Bool) (m : Mem) (start : ℕ) (m' : Mem) (start' : ℕ)
      : Type 0 where
    pub bits :
        (b : ℕ)
        → b < n * 8
        → bitmap_test_bit w.phys bitmap b m'
          ≡ (if marked b then 0 else bitmap_test_bit w.phys bitmap b m)
    pub outside : (q : ℕ) → within p n q ≡ false → m' q ≡ m q
    pub start_kept : 0 < start → start' ≡ start
    pub start_found : (b : ℕ) → 0 < b → marked b ≡ true → 0 < start'

  abbrev pub ClearsTo : (ℕ → Bool) → Mem → ℕ → Outcome (Mem × ℕ) → Type 0
  ClearsTo marked m start r =
      (m' : Mem) × (start' : ℕ) × (r ≡ ok (m', start')) × Cleared marked m start m' start'

  module _ (is : IsMapped w.phys bitmap p n) where
    unset_loop-suc :
        (fuel : ℕ) (entry : Entry) (j : ℕ) (m : Mem) (start : ℕ)
        → entry.base + entry.length + 0x1000 < 2 ^ 64
        → j < entry.length
        → let bit = (entry.base + j) / 0x1000 in
          unset_loop w (suc fuel) bitmap entry j m start
          ≡ unset_loop w fuel bitmap entry
              (j + 0x1000)
              (bitmap_unset_bit w.phys bitmap bit m)
              (if start == 0 then bit else start)
    unfolding unset_loop
    unset_loop-suc fuel entry j m start top h =
        let before : ltb j entry.length ≡ true = ground arith in
        let here : u64 (entry.base + j) ≡ entry.base + j = omega arith in
        let next : u64 (j + 0x1000) ≡ j + 0x1000 = omega arith in rw (before, here, next)

    unset_loop-end :
        (fuel : ℕ) (entry : Entry) (j : ℕ) (m : Mem) (start : ℕ)
        → ltb j entry.length ≡ false
        → unset_loop w (suc fuel) bitmap entry j m start ≡ ok (m, start)
    unfolding unset_loop
    unset_loop-end fuel entry j m start past = rw past

    Cleared-one :
        {marked : ℕ → Bool} {m m' : Mem} {start start' : ℕ} (bit : ℕ)
        → bit < n * 8
        → Cleared marked
            (bitmap_unset_bit w.phys bitmap bit m)
            (if start == 0 then bit else start)
            m'
            start'
        → Cleared (λ b. (bit == b) || marked b) m start m' start'
    Cleared-one {marked} {m} {start} bit h c = record {
      bits = λ b hb. ground (
        arith,
        c.bits b hb,
        bitmap_test_bit-unset w.phys bitmap p n bit b m is (omega arith) (omega arith),
      );
      outside = λ q out.
          c.outside q out ∙ bitmap_unset_bit_outside w.phys bitmap p n bit m is (omega arith) q out;
      start_kept = λ positive. ground (arith, c.start_kept);
      start_found = λ b positive hit. ground (arith, c.start_kept, c.start_found b positive);
    }

    pub Cleared-none : (m : Mem) (start : ℕ) → Cleared (λ _. false) m start m start
    Cleared-none m start = record {
      bits = λ b hb. refl;
      outside = λ q out. refl;
      start_kept = λ positive. refl;
      start_found = λ b positive hit. cc;
    }

    pub Cleared-ext :
        {marked marked' : ℕ → Bool} {m m' : Mem} {start start' : ℕ}
        → Cleared marked m start m' start'
        → ((b : ℕ) → marked' b ≡ marked b)
        → Cleared marked' m start m' start'
    Cleared-ext c same = record {
      bits = λ b hb. ground (arith, c.bits b hb, same b);
      outside = c.outside;
      start_kept = c.start_kept;
      start_found = λ b positive hit. ground (arith, c.start_found b positive, same b);
    }

    pub Cleared-both :
        {first second : ℕ → Bool} {m m' m'' : Mem} {start start' start'' : ℕ}
        → Cleared first m start m' start'
        → Cleared second m' start' m'' start''
        → Cleared (λ b. first b || second b) m start m'' start''
    Cleared-both {first} {second} c d = record {
      bits = λ b hb. ground (arith, c.bits b hb, d.bits b hb);
      outside = λ q out. d.outside q out ∙ c.outside q out;
      start_kept = λ positive. ground (arith, c.start_kept, d.start_kept);
      start_found = λ b positive hit.
          ground (arith, c.start_found b positive, d.start_found b positive, d.start_kept);
    }

    pub unset_loop-Cleared :
        (fuel : ℕ) (entry : Entry) (j : ℕ) (m : Mem) (start : ℕ)
        → entry.base + entry.length + 0x1000 < 2 ^ 64
        → entry.base / 0x1000 + page_count entry.length ≤ n * 8
        → j % 0x1000 ≡ 0
        → j < entry.length + 0x1000
        → entry.length / 0x1000 + 2 ≤ j / 0x1000 + fuel
        → ClearsTo
            (within ((entry.base + j) / 0x1000) (page_count (entry.length - j)))
            m
            start
            (unset_loop w fuel bitmap entry j m start)
    unset_loop-Cleared zero entry j m start top fits page near enough = absurd (omega arith)
    unset_loop-Cleared (suc fuel) entry j m start top fits page near enough =
        elim (Bool-cases (ltb j entry.length)) [
          | inr past ↦ (
            m,
            start,
            unset_loop-end fuel entry j m start past,
            Cleared-ext (Cleared-none m start) (λ b. ground arith),
          )
          | inl before ↦
              let bit = (entry.base + j) / 0x1000 in
              let in_bitmap : bit < n * 8 = ground arith in
              let (m', start', ends, c) =
                unset_loop-Cleared fuel entry (j + 0x1000) (bitmap_unset_bit w.phys bitmap bit m)
                  (if start == 0 then bit else start) top fits (omega arith) (ground arith)
                  (omega arith) in
              (
                m',
                start',
                unset_loop-suc fuel entry j m start top (ground arith) ∙ ends,
                Cleared-ext (Cleared-one bit in_bitmap c) (λ b. ground arith),
              )
        ]
