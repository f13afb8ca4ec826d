-- ===== src/Pmm/Highest.antt =====
-- The entry that find_highest_mmap_entry picks, and how far the bitmap of get_bitmap_size reaches.
use vega_os.Base.{
  ℕ, suc, ◌+◌, ◌*◌, ◌/◌, ◌%◌, ◌^◌, ◌≤◌, ◌<◌, ◌≡◌, ◌≢◌, ◌↔◌, refl, arith, if◌then◌else◌, u64, ◌∙◌,
  sym, List, [], ◌∷◌, Option, some, none, get_elem?, Bool-cases, inl, inr, ◌⊎◌, ◌==◌, ap, ltb, ◌&&◌,
}
use vega_os.Math.{align_up_page}
use vega_os.Outcome.{ok}
use vega_os.Pmm.State.{Entry, usable}
use vega_os.Pmm.Size.{highest_loop, find_highest_mmap_entry, size_up_to, get_bitmap_size}

-- `e` stands in the map.
abbrev pub Lists : List Entry → Entry → Type 0
Lists entries e = (i : ℕ) × (get_elem? entries i ≡ some e)

-- No usable entry has a base above `top`.
abbrev pub AllBelow : ℕ → List Entry → Type 0
AllBelow top [] = Unit {0}
AllBelow top (e ∷ rest) = (e.type ≡ usable → e.base ≤ top) × AllBelow top rest

abbrev pub NoneUsable : List Entry → Type 0
NoneUsable [] = Unit {0}
NoneUsable (e ∷ rest) = (e.type ≢ usable) × NoneUsable rest

-- The entry kept after `current` when `k` was kept before it.
abbrev pick : Entry → Entry → Entry
pick k current = if current.type == usable && ltb k.base current.base then current else k

highest_loop-some :
    (k current : Entry) (rest : List Entry)
    → highest_loop (some k) (current ∷ rest) ≡ highest_loop (some (pick k current)) rest
unfolding highest_loop
highest_loop-some k current rest = elim (Bool-cases (current.type == usable)) [
  | inr other ↦ rw other
  | inl is ↦
      rw is (elim (Bool-cases (ltb k.base current.base)) [ inl up ↦ rw up | inr down ↦ rw down ])
]

-- `e` is in the map and usable, and no usable entry has a higher base.
pub record IsTop (entries : List Entry) (e : Entry) : Type 0 where
  pub listed : Lists entries e
  pub is_usable : e.type ≡ usable
  pub highest : AllBelow e.base entries

record Picked (k : Entry) (entries : List Entry) (e : Entry) : Type 0 where
  above : k.base ≤ e.base
  highest : AllBelow e.base entries
  source : (e ≡ k) ⊎ (Lists entries e × (e.type ≡ usable))

Picked-step :
    (k current : Entry) (rest : List Entry) {e : Entry}
    → Picked (pick k current) rest e
    → Picked k (current ∷ rest) e
Picked-step k current rest {e} picked = record {
  above = ground (arith, picked.above);
  highest = (λ is. ground (arith, picked.above), picked.highest);
  source = elim picked.source [
    | inr (later, is) ↦ inr ((suc later.0, later.1), is)
    | inl same ↦ from_pick same
  ];
}
  where
    from_pick : e ≡ pick k current → (e ≡ k) ⊎ (Lists (current ∷ rest) e × (e.type ≡ usable))
    from_pick same = elim (Bool-cases (current.type == usable && ltb k.base current.base)) [
      | inr kept ↦ inl (same ∙ rw kept)
      | inl taken ↦
          let here : e ≡ current = same ∙ rw taken in
          let is : current.type ≡ usable = ground arith in
          inr ((0, ap some (sym here)), ap (λ (x : Entry). x.type) here ∙ is)
    ]

highest_loop-Picked :
    (k : Entry) (entries : List Entry)
    → (e : Entry) × (highest_loop (some k) entries ≡ some e) × Picked k entries e
highest_loop-Picked k [] = (
  k,
  unfold highest_loop in refl,
  record { above = omega arith; highest = tt; source = inl refl },
)
highest_loop-Picked k (current ∷ rest) =
    let (e, found, picked) = highest_loop-Picked (pick k current) rest in
    (e, highest_loop-some k current rest ∙ found, Picked-step k current rest picked)

-- The search from the start.
abbrev Searched : List Entry → Option Entry → Type 0
Searched entries found =
    ((found ≡ none) × NoneUsable entries) ⊎ ((e : Entry) × (found ≡ some e) × IsTop entries e)

Searched-first :
    (current : Entry) (rest : List Entry)
    → current.type ≡ usable
    → Searched (current ∷ rest) (highest_loop (some current) rest)
Searched-first current rest is =
    let (e, found, picked) = highest_loop-Picked current rest in
    inr (
      e,
      found,
      record {
        listed = elim picked.source [
          | inl same ↦ (0, ap some (sym same))
          | inr (later, _) ↦ (suc later.0, later.1)
        ];
        is_usable = elim picked.source [
          | inl same ↦ ap (λ (x : Entry). x.type) same ∙ is
          | inr (_, also) ↦ also
        ];
        highest = (λ _. picked.above, picked.highest);
      },
    )

Searched-skip :
    (current : Entry) (rest : List Entry) (found : Option Entry)
    → current.type ≢ usable
    → Searched rest found
    → Searched (current ∷ rest) found
Searched-skip current rest found not (inl (missing, none_usable)) =
    inl (missing, (not, none_usable))
Searched-skip current rest found not (inr (e, yes_found, h)) = inr (
  e,
  yes_found,
  record {
    listed = (suc h.listed.0, h.listed.1);
    is_usable = h.is_usable;
    highest = (λ is. absurd (not is), h.highest);
  },
)

highest_loop-Searched : (entries : List Entry) → Searched entries (highest_loop none entries)
unfolding highest_loop
highest_loop-Searched [] = inl (refl, tt)
highest_loop-Searched (current ∷ rest) = elim (Bool-cases (current.type == usable)) [
  | inl is ↦ rw is (Searched-first current rest (ground arith))
  | inr other ↦ rw other (Searched-skip current rest _ (ground arith) (highest_loop-Searched rest))
]

-- find_highest_mmap_entry answers NULL when no entry is usable, and else with a usable entry of
-- the map whose base no other usable entry exceeds.
pub find_highest_mmap_entry-IsTop :
    (entries : List Entry)
    → ((find_highest_mmap_entry entries ≡ none) × NoneUsable entries)
      ⊎ ((e : Entry) × (find_highest_mmap_entry entries ≡ some e) × IsTop entries e)
unfolding find_highest_mmap_entry
find_highest_mmap_entry-IsTop entries = highest_loop-Searched entries

pub get_bitmap_size-eq :
    (entries : List Entry) (e : Entry)
    → find_highest_mmap_entry entries ≡ some e
    → e.base + e.length < 2 ^ 64
    → get_bitmap_size entries ≡ ok (((e.base + e.length) / 0x1000 / 8 + 4095) / 4096 * 4096)
unfolding get_bitmap_size size_up_to
get_bitmap_size-eq entries e found top =
    let whole : u64 (e.base + e.length) ≡ e.base + e.length = omega arith in
    ap size_up_to found ∙ rw (whole, align_up_page ((e.base + e.length) / 0x1000 / 8) (omega arith))

-- The bytes of bits for `frames` frames, and where they fall short.
pages_of_bits :
    (frames : ℕ)
    → let size = (frames / 8 + 4095) / 4096 * 4096 in
      (frames ≤ size * 8) ↔ ((frames % 8 ≡ 0) ⊎ (frames / 8 % 4096 ≢ 0))
pages_of_bits frames = (
  λ fits. elim (Bool-cases (frames % 8 == 0)) [
    | inl whole ↦ inl (ground arith)
    | inr part ↦ inr (λ full. ground arith)
  ],
  λ either. elim either [ inl whole ↦ omega arith | inr room ↦ omega arith ],
)

-- The bitmap's size is a whole number of pages, at most 2 ^ 49 bytes. It has a bit for each of the
-- frames below the end of the highest entry exactly when those frames are a multiple of eight, or
-- their whole bytes of bits do not fill their last page. Condition: the highest entry ends below
-- 2 ^ 64.
pub get_bitmap_size-covers :
    (entries : List Entry) (e : Entry)
    → find_highest_mmap_entry entries ≡ some e
    → e.base + e.length < 2 ^ 64
    → let frames = (e.base + e.length) / 0x1000 in
      (size : ℕ) × (get_bitmap_size entries ≡ ok size)
      × (size % 0x1000 ≡ 0)
      × (size ≤ 2 ^ 49)
      × ((frames ≤ size * 8) ↔ ((frames % 8 ≡ 0) ⊎ (frames / 8 % 0x1000 ≢ 0)))
get_bitmap_size-covers entries e found top =
    let frames = (e.base + e.length) / 0x1000 in
    (
      (frames / 8 + 4095) / 4096 * 4096,
      get_bitmap_size-eq entries e found top,
      omega arith,
      omega arith,
      pages_of_bits frames,
    )
