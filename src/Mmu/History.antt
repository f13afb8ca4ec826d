-- ===== src/Mmu/History.antt =====
-- Any sequence of mappings and unmappings under one last table, against a function from the table's
-- indices to pages.
use vega_os.Base.{
  ℕ, ◌-◌, ◌*◌, ◌+◌, ◌^◌, ◌<◌, ◌≡◌, ◌≢◌, refl, sym, ap, ◌∙◌, arith, bit_and, inl, inr, Bool-cases,
  ◌==◌, if◌then◌else◌, List, [], ◌∷◌,
}
use vega_os.Word64.{load64, store64, load64-store64}
use vega_os.Outcome.{Outcome, ok, ◌>>=◌}
use vega_os.Pmm.State.{Window}
use vega_os.Mmu.State.{pte_addr_mask, Pagemap, Mmu}
use vega_os.Mmu.Walk.{ttbr_index, level_index, entry_at}
use vega_os.Mmu.Pages.{
  leaf, store_pte, invalidate_page, aarch64_translate_vaddr, aarch64_map_page, aarch64_unmap_page,
}
use vega_os.Mmu.Entries.{leaf-address, leaf-lt}
use vega_os.Mmu.Tables.{Leads, Walk, translate-Walk, map-Walk, unmap-Walk}
use vega_os.Mmu.Roundtrip.{
  Apart, IsShown, level_index-lt, entry_at-IsMapped, load64-stored, Leads-stored,
}

-- Mapping an address to a page, with flags, and unmapping one.
pub data Operation : Type 0 where
  map_page : ℕ → ℕ → ℕ → Operation
  unmap_page : ℕ → Operation

-- The operations, one after another.
unfoldable pub run_all : Window → Pagemap → List Operation → Mmu → Outcome Mmu
run_all w p [] s = ok s
run_all w p (map_page vaddr page flags ∷ rest) s =
    aarch64_map_page w p vaddr (page * 4096) flags s >>= run_all w p rest
run_all w p (unmap_page vaddr ∷ rest) s = aarch64_unmap_page w p vaddr s >>= run_all w p rest

abbrev update : (ℕ → ℕ) → ℕ → ℕ → ℕ → ℕ
update f i v k = if k == i then v else f k

-- What they mean for the pages of a table: the last operation on an index decides.
abbrev pub meaning : List Operation → (ℕ → ℕ) → ℕ → ℕ
meaning [] f = f
meaning (map_page vaddr page flags ∷ rest) f =
    meaning rest (update f (level_index 12 vaddr) (page * 4096))
meaning (unmap_page vaddr ∷ rest) f = meaning rest (update f (level_index 12 vaddr) 0)

-- An address with this root and these indices in the first three tables.
pub record IsUnder (half i1 i2 i3 vaddr : ℕ) : Type 0 where
  pub half_is : ttbr_index vaddr ≡ half
  pub first_is : level_index 39 vaddr ≡ i1
  pub second_is : level_index 30 vaddr ≡ i2
  pub third_is : level_index 21 vaddr ≡ i3

-- Operations on such addresses, and pages below 2 ^ 48.
abbrev pub AreUnder : ℕ → ℕ → ℕ → ℕ → List Operation → Type 0
AreUnder half i1 i2 i3 [] = Unit {0}
AreUnder half i1 i2 i3 (map_page vaddr page flags ∷ rest) =
    IsUnder half i1 i2 i3 vaddr × (page < 2 ^ 36) × AreUnder half i1 i2 i3 rest
AreUnder half i1 i2 i3 (unmap_page vaddr ∷ rest) =
    IsUnder half i1 i2 i3 vaddr × AreUnder half i1 i2 i3 rest

module _ (w : Window) (p : Pagemap) (half i1 i2 i3 l1 l2 l3 : ℕ) where
  abbrev root : ℕ
  root = p.ttbr half

  -- The root is aligned; the window shows the last table and those above it, from which it is apart.
  pub record IsLaidOut : Type 0 where
    pub aligned : bit_and root (2 ^ 64 - 0x200) ≡ root
    pub first_lt : i1 < 512
    pub second_lt : i2 < 512
    pub third_lt : i3 < 512
    pub root_shown : IsShown w root
    pub l1_shown : IsShown w l1
    pub l2_shown : IsShown w l2
    pub l3_shown : IsShown w l3
    pub root_apart : Apart l3 root
    pub l1_apart : Apart l3 l1
    pub l2_apart : Apart l3 l2

  -- The tables are linked, and the entries of the last one lead to the pages of `f`.
  pub record Represents (s : Mmu) (f : ℕ → ℕ) : Type 0 where
    pub first : Leads w s.pmm.mem root i1 l1
    pub second : Leads w s.pmm.mem l1 i2 l2
    pub third : Leads w s.pmm.mem l2 i3 l3
    pub pages :
        (k : ℕ) → k < 512 → bit_and (load64 w.phys (entry_at w l3 k) s.pmm.mem) pte_addr_mask ≡ f k

  module _ (s : Mmu) (f : ℕ → ℕ) (vaddr : ℕ) (rep : Represents s f)
      (under : IsUnder half i1 i2 i3 vaddr) where
    pub under-Walk : Walk w s.pmm.mem (p.ttbr (ttbr_index vaddr)) vaddr l1 l2 l3
    under-Walk = record {
      first = rw (under.half_is, under.first_is) rep.first;
      second = rw (under.second_is) rep.second;
      third = rw (under.third_is) rep.third;
    }

    translate-Represents :
        bit_and root (2 ^ 64 - 0x200) ≡ root
        → aarch64_translate_vaddr w p vaddr s ≡ ok (f (level_index 12 vaddr), s)
    translate-Represents aligned =
        let aligned' : bit_and (p.ttbr (ttbr_index vaddr)) (2 ^ 64 - 0x200)
            ≡ p.ttbr (ttbr_index vaddr) =
          rw (under.half_is) aligned in
        translate-Walk w p vaddr l1 l2 l3 s aligned' under-Walk
        ∙ ap (λ (a : ℕ). ok (a, s)) (rep.pages (level_index 12 vaddr) (level_index-lt 12 vaddr))

    pub store_pte-Represents :
        (value page : ℕ)
        → IsLaidOut
        → value < 2 ^ 64
        → bit_and value pte_addr_mask ≡ page
        → Represents (store_pte w l3 vaddr value s) (update f (level_index 12 vaddr) page)
    unfolding store_pte invalidate_page
    store_pte-Represents value page laid small masked =
        let i = level_index 12 vaddr in
        let i_lt = level_index-lt 12 vaddr in
        let m = s.pmm.mem in
        record {
          first =
              Leads-stored w m l3 i value laid.l3_shown i_lt root i1 l1 laid.root_shown
                laid.first_lt laid.root_apart rep.first;
          second =
              Leads-stored w m l3 i value laid.l3_shown i_lt l1 i2 l2 laid.l1_shown laid.second_lt
                laid.l1_apart rep.second;
          third =
              Leads-stored w m l3 i value laid.l3_shown i_lt l2 i3 l3 laid.l2_shown laid.third_lt
                laid.l2_apart rep.third;
          pages = λ k h. elim (Bool-cases (k == i)) [
            | inl e ↦
                let here : i ≡ k = ground (arith, e) in
                let stored =
                  load64-store64 w.phys (entry_at w l3 i) (l3 + 8 * i) m
                    (entry_at-IsMapped w l3 i laid.l3_shown i_lt) value small in
                rw (e) (
                  ap
                    (λ (j : ℕ).
                      bit_and
                        (load64 w.phys (entry_at w l3 j) (store64 w.phys (entry_at w l3 i) value m))
                        pte_addr_mask)
                    (sym here)
                  ∙ ap (λ (v : ℕ). bit_and v pte_addr_mask) stored
                  ∙ masked)
            | inr e ↦
                let other : k ≢ i = ground (arith, e) in
                rw (e) (
                  ap (λ (v : ℕ). bit_and v pte_addr_mask)
                    (load64-stored w m l3 i value laid.l3_shown i_lt l3 k laid.l3_shown h
                      (inr (refl, other)))
                  ∙ rep.pages k h)
          ];
        }

  module _ (laid : IsLaidOut) where
    run_all-Represents :
        (ops : List Operation) (s : Mmu) (f : ℕ → ℕ)
        → AreUnder half i1 i2 i3 ops
        → Represents s f
        → (t : Mmu) × (run_all w p ops s ≡ ok t) × Represents t (meaning ops f)
    unfolding run_all
    run_all-Represents [] s f under rep = (s, refl, rep)
    run_all-Represents (map_page vaddr page flags ∷ rest) s f under rep =
        let value = leaf (page * 4096) flags in
        let address : bit_and value pte_addr_mask ≡ page * 4096 =
          leaf-address flags (page * 4096) ∙ omega (arith, under.1) in
        let next =
          store_pte-Represents s f vaddr rep under.0 value (page * 4096) laid
            (leaf-lt flags (page * 4096) (omega (arith, under.1))) address in
        let (t, run, rep') =
          run_all-Represents rest (store_pte w l3 vaddr value s) _ under.2 next in
        let first =
          map-Walk w p vaddr l1 l2 l3 s (page * 4096) flags (under-Walk s f vaddr rep under.0) in
        (t, ap (λ (o : Outcome Mmu). o >>= run_all w p rest) first ∙ run, rep')
    run_all-Represents (unmap_page vaddr ∷ rest) s f under rep =
        let next = store_pte-Represents s f vaddr rep under.0 0 0 laid (omega arith) refl in
        let (t, run, rep') = run_all-Represents rest (store_pte w l3 vaddr 0 s) _ under.1 next in
        let first = unmap-Walk w p vaddr l1 l2 l3 s (under-Walk s f vaddr rep under.0) in
        (t, ap (λ (o : Outcome Mmu). o >>= run_all w p rest) first ∙ run, rep')

    -- Any sequence of mappings to pages below 2 ^ 48 and of unmappings succeeds, of addresses that
    -- share their root and their three tables, which are linked and shown by the kernel's window,
    -- the root aligned and the last table apart from the others: afterwards each such address
    -- translates to the page that the last operation on its index gave it, to 0 if that was an
    -- unmapping, and to what it translated to before if there was none.
    pub run_all-meaning :
        (ops : List Operation) (s : Mmu) (f : ℕ → ℕ)
        → AreUnder half i1 i2 i3 ops
        → Represents s f
        → (t : Mmu) × (run_all w p ops s ≡ ok t)
          × ((vaddr : ℕ)
              → IsUnder half i1 i2 i3 vaddr
              → (aarch64_translate_vaddr w p vaddr s ≡ ok (f (level_index 12 vaddr), s))
                × (aarch64_translate_vaddr w p vaddr t
                    ≡ ok (meaning ops f (level_index 12 vaddr), t)))
    run_all-meaning ops s f under rep =
        let (t, run, rep') = run_all-Represents ops s f under rep in
        (
          t,
          run,
          λ vaddr here. (
            translate-Represents s f vaddr rep here laid.aligned,
            translate-Represents t (meaning ops f) vaddr rep' here laid.aligned,
          ),
        )
