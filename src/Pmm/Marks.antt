-- ===== src/Pmm/Marks.antt =====
-- The second loop of init_bitmap: which bits are clear when it is done.
use vega_os.Base.{
  ℕ, ◌+◌, ◌/◌, ◌^◌, ◌≤◌, ◌<◌, ◌*◌, ◌≡◌, refl, arith, if◌then◌else◌, ◌∙◌, ap, ◌&&◌, Bool, true, List,
  [], ◌∷◌, Bool-cases, inl, inr,
}
use vega_os.Memory.{Mem, IsMapped, within}
use vega_os.Outcome.{Outcome, ok, ◌>>=◌}
use vega_os.Pmm.State.{Entry, Window}
use vega_os.Pmm.Setup.{is_roomy, unset_loop, setup_loop}
use vega_os.Pmm.Cover.{
  page_count, is_covered, Fits, ClearsTo, Cleared-none, Cleared-ext, Cleared-both,
  unset_loop-Cleared,
}

module _ (w : Window) (bitmap p n : ℕ) (is : IsMapped w.phys bitmap p n) where
  abbrev entry_step : ℕ → Entry → Mem → ℕ → Outcome (Mem × ℕ)
  entry_step size entry m start =
      if is_roomy size entry
      then unset_loop w (entry.length / 0x1000 + 2) bitmap entry 0 m start
      else ok (m, start)

  abbrev entry_covers : ℕ → Entry → ℕ → Bool
  entry_covers size entry b =
      is_roomy size entry && within (entry.base / 0x1000) (page_count entry.length) b

  entry_step-Cleared :
      (size : ℕ) (entry : Entry) (m : Mem) (start : ℕ)
      → (is_roomy size entry ≡ true
          → (entry.base + entry.length + 0x1000 < 2 ^ 64)
            × (entry.base / 0x1000 + page_count entry.length ≤ n * 8))
      → ClearsTo w bitmap p n (entry_covers size entry) m start (entry_step size entry m start)
  entry_step-Cleared size entry m start fits = elim (Bool-cases (is_roomy size entry)) [
    | inr small ↦ rw small (
      m,
      start,
      refl,
      Cleared-ext w bitmap p n is (Cleared-none w bitmap p n is m start) (λ b. ground arith),
    )
    | inl roomy ↦
        let (top, in_bitmap) = fits roomy in
        let (m', start', ends, c) =
          unset_loop-Cleared w bitmap p n is (entry.length / 0x1000 + 2) entry 0 m start top
            in_bitmap (omega arith) (omega arith) (omega arith) in
        rw roomy (m', start', ends, Cleared-ext w bitmap p n is c (λ b. ground arith))
  ]

  pub setup_loop-Cleared :
      (size : ℕ) (entries : List Entry) (m : Mem) (start : ℕ)
      → Fits n size entries
      → ClearsTo w bitmap p n
          (is_covered size entries)
          m
          start
          (setup_loop w size bitmap entries m start)
  unfolding setup_loop
  setup_loop-Cleared size [] m start fits = (m, start, refl, Cleared-none w bitmap p n is m start)
  setup_loop-Cleared size (entry ∷ rest) m start fits =
      let (m', start', first, c) = entry_step-Cleared size entry m start fits.0 in
      let (m'', start'', later, d) = setup_loop-Cleared size rest m' start' fits.1 in
      (
        m'',
        start'',
        ap (λ r. r >>= λ (m, start). setup_loop w size bitmap rest m start) first ∙ later,
        Cleared-both w bitmap p n is c d,
      )
