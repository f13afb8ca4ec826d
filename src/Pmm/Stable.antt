-- ===== src/Pmm/Stable.antt =====
-- pmm_alloc computes the bitmap's size anew after init_bitmap has moved the base of an entry: the
-- size is the same as before.
use vega_os.Base.{
  ℕ, ◌+◌, ◌^◌, ◌≤◌, ◌<◌, ◌≡◌, refl, sym, arith, if◌then◌else◌, ◌∙◌, ap, ltb, ◌==◌, List, [], ◌∷◌,
  ◌++◌, Option, some, none, Bool-cases, inl, inr, ◌⊎◌, true, false,
}
use vega_os.Pmm.State.{Entry, usable}
use vega_os.Pmm.Size.{higher, highest_loop, find_highest_mmap_entry, size_up_to, get_bitmap_size}
use vega_os.Pmm.Setup.{carve}
use vega_os.Pmm.Init.{placed_entries}

-- The step of the search.
abbrev kept_after : Option Entry → Entry → Option Entry
kept_after kept e = if e.type == usable then higher kept e else kept

highest_loop-append :
    (kept : Option Entry) (xs ys : List Entry)
    → highest_loop kept (xs ++ ys) ≡ highest_loop (highest_loop kept xs) ys
unfolding highest_loop
highest_loop-append kept [] ys = refl
highest_loop-append kept (x ∷ xs) ys = highest_loop-append (kept_after kept x) xs ys

module _ (size : ℕ) (target : Entry) where
  -- A base outside the `size` bytes that `target` gives away.
  abbrev pub IsAway : Entry → Type 0
  IsAway e = (e.base < target.base) ⊎ (target.base + size < e.base)

  abbrev pub AllAway : List Entry → Type 0
  AllAway [] = Unit {0}
  AllAway (e ∷ rest) = (e.type ≡ usable → IsAway e) × AllAway rest

  abbrev KeptAway : Option Entry → Type 0
  KeptAway none = Unit {0}
  KeptAway (some k) = IsAway k

  module _ (is_usable : target.type ≡ usable) (fits : target.base + size < 2 ^ 64)
      (room : size ≤ target.length) where
    used_base : (carve size target).base ≡ target.base + size
    unfolding carve
    used_base = omega arith

    -- The two searches hold the same entry, or `target` and what is left of it.
    Agree : Option Entry → Option Entry → Type 0
    Agree r r' = (r ≡ r') ⊎ ((r ≡ some target) × (r' ≡ some (carve size target)))

    Agree-size : (r r' : Option Entry) → Agree r r' → size_up_to r ≡ size_up_to r'
    unfolding Agree carve
    Agree-size r r' (inl same) = ap size_up_to same
    Agree-size r r' (inr (whole, part)) = ap size_up_to whole ∙ ends ∙ sym (ap size_up_to part)
      where
        ends : size_up_to (some target) ≡ size_up_to (some (carve size target))
        ends =
            let sum : (carve size target).base + (carve size target).length
                ≡ target.base + target.length =
              omega (arith, used_base) in
            unfold size_up_to in rw sum

    used_type : (carve size target).type ≡ usable
    unfolding carve
    used_type = is_usable

    higher-Agree :
        (e : Entry)
        → IsAway e
        → Agree (higher (some target) e) (higher (some (carve size target)) e)
    unfolding higher Agree
    higher-Agree e (inl below) =
        let first : ltb target.base e.base ≡ false = ground arith in
        let second : ltb (carve size target).base e.base ≡ false = ground (arith, used_base) in
        rw (first, second) (inr (refl, refl))
    higher-Agree e (inr above) =
        let first : ltb target.base e.base ≡ true = ground arith in
        let second : ltb (carve size target).base e.base ≡ true = ground (arith, used_base) in
        rw (first, second) (inl refl)

    Agree-step :
        (e : Entry) (r r' : Option Entry)
        → (e.type ≡ usable → IsAway e)
        → Agree r r'
        → Agree (kept_after r e) (kept_after r' e)
    unfolding Agree
    Agree-step e r r' away (inl same) = inl (ap (λ k. kept_after k e) same)
    Agree-step e r r' away (inr (whole, part)) = elim (Bool-cases (e.type == usable)) [
      | inr other ↦ rw other (inr (whole, part))
      | inl is ↦ rw (is, whole, part) (higher-Agree e (away (ground arith)))
    ]

    highest_loop-Agree :
        (entries : List Entry) (r r' : Option Entry)
        → AllAway entries
        → Agree r r'
        → Agree (highest_loop r entries) (highest_loop r' entries)
    unfolding highest_loop
    highest_loop-Agree [] r r' away agree = agree
    highest_loop-Agree (e ∷ rest) r r' away agree =
        highest_loop-Agree rest (kept_after r e) (kept_after r' e) away.1
          (Agree-step e r r' away.0 agree)

    kept_after-Away :
        (kept : Option Entry) (e : Entry)
        → KeptAway kept
        → (e.type ≡ usable → IsAway e)
        → KeptAway (kept_after kept e)
    unfolding higher
    kept_after-Away none e kept_away away = elim (Bool-cases (e.type == usable)) [
      | inr other ↦ rw other tt
      | inl is ↦ rw is (away (ground arith))
    ]
    kept_after-Away (some k) e kept_away away = elim (Bool-cases (e.type == usable)) [
      | inr other ↦ rw other kept_away
      | inl is ↦ rw is (elim (Bool-cases (ltb k.base e.base)) [
        | inr lower ↦ rw lower kept_away
        | inl up ↦ rw up (away (ground arith))
      ])
    ]

    highest_loop-Away :
        (kept : Option Entry) (entries : List Entry)
        → KeptAway kept
        → AllAway entries
        → KeptAway (highest_loop kept entries)
    unfolding highest_loop
    highest_loop-Away kept [] kept_away away = kept_away
    highest_loop-Away kept (e ∷ rest) kept_away away =
        highest_loop-Away (kept_after kept e) rest (kept_after-Away kept e kept_away away.0) away.1

    target-Agree :
        (kept : Option Entry)
        → KeptAway kept
        → Agree (kept_after kept target) (kept_after kept (carve size target))
    unfolding higher Agree
    target-Agree none away =
        let first : (target.type == usable) ≡ true = ground arith in
        let second : ((carve size target).type == usable) ≡ true = ground (arith, used_type) in
        rw (first, second) (inr (refl, refl))
    target-Agree (some k) away =
        let first : (target.type == usable) ≡ true = ground arith in
        let second : ((carve size target).type == usable) ≡ true = ground (arith, used_type) in
        rw (first, second)
          (elim away [
            | inl below ↦
                let old : ltb k.base target.base ≡ true = ground arith in
                let new : ltb k.base (carve size target).base ≡ true = ground (arith, used_base) in
                rw (old, new) (inr (refl, refl))
            | inr above ↦
                let old : ltb k.base target.base ≡ false = ground arith in
                let new : ltb k.base (carve size target).base ≡ false = ground (arith, used_base) in
                rw (old, new) (inl refl)
          ])

    -- The bitmap's size is the same before and after `target` gives its first `size` bytes away,
    -- when no other usable entry has its base in or right behind them.
    pub get_bitmap_size-stable :
        (before after : List Entry)
        → AllAway before
        → AllAway after
        → get_bitmap_size (placed_entries size before target after)
          ≡ get_bitmap_size (before ++ target ∷ after)
    unfolding get_bitmap_size find_highest_mmap_entry highest_loop
    get_bitmap_size-stable before after away_before away_after =
        let kept = highest_loop none before in
        let agree =
          highest_loop-Agree after (kept_after kept target) (kept_after kept (carve size target))
            away_after (target-Agree kept (highest_loop-Away none before tt away_before)) in
        rw
          (
            highest_loop-append none before (carve size target ∷ after),
            highest_loop-append none before (target ∷ after),
          )
          (sym (Agree-size _ _ agree))
