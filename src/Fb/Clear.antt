-- ===== src/Fb/Clear.antt =====
-- fb_clear: the loops over columns and rows.
use native.Mathlib.Nat.{div-add-mod}
use vega_os.Base.{
  ℕ, zero, suc, ◌+◌, ◌-◌, ◌*◌, ◌/◌, ◌%◌, ◌≤◌, ◌<◌, ◌≡◌, ◌⊎◌, Bool-cases, inl, inr, refl, ap, sym,
  ◌∙◌, arith, Bool, false, ◌&&◌, ◌==◌, ltb, leb, if◌then◌else◌, u32,
}
use vega_os.Memory.{Mem, write}
use vega_os.Outcome.{ok}
use vega_os.Fb.{Framebuffer, row_loop, clear_loop, fb_clear, fb_get_width, fb_get_height}
use vega_os.Fb.Laws.{
  screen, width, height, stride, IsAddressable, fb_putpix-on, index-row, index-column,
}

module _ (f : Framebuffer) (color : ℕ) (is : IsAddressable f) where
  -- Row `y` from column `x` on.
  row_loop-fills :
      (fuel x y : ℕ) (m : Mem)
      → width f ≤ x + fuel
      → x ≤ width f
      → y < height f
      → (t : Mem) × (row_loop (suc fuel) x y color (screen f m) ≡ ok (screen f t))
        × ((q : ℕ)
            → t q
              ≡ (if leb (x + y * stride f) q && ltb q (width f + y * stride f) then color else m q))
  unfolding row_loop fb_get_width
  row_loop-fills zero x y m enough within row =
      let over : ltb x (width f) ≡ false = ground arith in (m, rw (over) refl, λ q. ground arith)
  row_loop-fills (suc fuel) x y m enough within row = elim (Bool-cases (ltb x (width f))) [
    | inr over ↦ (m, rw (over) refl, λ q. ground arith)
    | inl on ↦
        let next : u32 (x + 1) ≡ x + 1 = ground arith in
        let (t, run, words) =
          row_loop-fills fuel (x + 1) y (write m (x + y * stride f) color) (ground arith)
            (ground arith) row in
        (
          t,
          rw (on, fb_putpix-on f x y color m is (ground arith) row, next) run,
          λ q. ground (arith, words q),
        )
  ]

  -- The word is that of a pixel on the screen, in row `y` or below.
  abbrev is_pixel_from : ℕ → ℕ → Bool
  is_pixel_from y q =
      leb y (q / stride f) && (ltb (q / stride f) (height f) && ltb (q % stride f) (width f))

  in_row :
      (y q : ℕ)
      → 0 < stride f
      → (leb (0 + y * stride f) q && ltb q (width f + y * stride f))
        ≡ (q / stride f == y && ltb (q % stride f) (width f))
  in_row y q h =
      let c = q - y * stride f in
      let row = index-row f c y in
      let column = index-column f c y in
      let split = div-add-mod q (stride f) in
      let into : y * stride f ≤ q
          → q < width f + y * stride f
          → (q / stride f ≡ y) × (q % stride f < width f) =
        λ low high.
          let q_is : c + y * stride f ≡ q = omega arith in
          let small : c < width f = omega arith in
          (
            sym (ap (λ (t : ℕ). t / stride f) q_is) ∙ row (omega (arith, is.wide)),
            omega (arith, ap (λ (t : ℕ). t % stride f) q_is, column (omega (arith, is.wide))),
          ) in
      let back : q / stride f ≡ y → q ≡ q % stride f + y * stride f =
        λ e. omega (arith, split, ap (λ (t : ℕ). stride f * t) e) in
      ground (arith, into, back)

  clear_loop-fills :
      (fuel y : ℕ) (m : Mem)
      → 0 < stride f
      → height f ≤ y + fuel
      → y ≤ height f
      → (t : Mem) × (clear_loop (suc fuel) y color (screen f m) ≡ ok (screen f t))
        × ((q : ℕ) → t q ≡ (if is_pixel_from y q then color else m q))
  unfolding clear_loop fb_get_width fb_get_height
  clear_loop-fills zero y m pos enough within =
      let over : ltb y (height f) ≡ false = ground arith in (m, rw (over) refl, λ q. ground arith)
  clear_loop-fills (suc fuel) y m pos enough within = elim (Bool-cases (ltb y (height f))) [
    | inr over ↦ (m, rw (over) refl, λ q. ground arith)
    | inl on ↦
        let next : u32 (y + 1) ≡ y + 1 = ground arith in
        let (row, painted, row_words) =
          row_loop-fills (width f) 0 y m (omega arith) (omega arith) (ground arith) in
        let (t, run, words) = clear_loop-fills fuel (y + 1) row pos (ground arith) (ground arith) in
        (t, rw (on, painted, next) run, λ q. ground (arith, words q, row_words q, in_row y q pos))
  ]

  -- fb_clear returns on a framebuffer whose rows are not empty and at least as long as the screen
  -- is wide, and whose words have 32-bit indices: every pixel of the screen then has the colour,
  -- and all other words of the framebuffer, such as those between the end of a row and the start
  -- of the next, are as they were.
  pub fb_clear-fills :
      (m : Mem)
      → 0 < stride f
      → (t : Mem) × (fb_clear color (screen f m) ≡ ok (screen f t))
        × ((x y : ℕ) → x < width f → y < height f → t (x + y * stride f) ≡ color)
        × ((q : ℕ) → (height f ≤ q / stride f) ⊎ (width f ≤ q % stride f) → t q ≡ m q)
  unfolding fb_clear fb_get_height
  fb_clear-fills m pos =
      let (t, run, words) = clear_loop-fills (height f) 0 m pos (omega arith) (omega arith) in
      (
        t,
        run,
        λ x y hx hy. ground (
          arith,
          words (x + y * stride f),
          index-row f x y (omega (arith, is.wide)),
          index-column f x y (omega (arith, is.wide)),
        ),
        λ q off. ground (arith, words q),
      )
