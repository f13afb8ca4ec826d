-- ===== src/Amd64/Delivery.antt =====
-- How the processor goes from an exception to its handler, as the manuals of amd64 have it, and
-- where it goes with the kernel's tables.
use vega_os.Base.{
  ℕ, ◌+◌, ◌-◌, ◌*◌, ◌/◌, ◌%◌, ◌^◌, ◌<◌, ◌≡◌, refl, arith, ◌==◌, ◌&&◌, ◌||◌, ltb, leb, if◌then◌else◌,
  Bool, Bool-cases, inl, inr, true, Option, some, none,
}
use vega_os.Amd64.Gdt.{GdtEntry, Gdtr, gdt, gdtr}
use vega_os.Amd64.Idt.{IdtEntry, Idt, Idtr, idt_zero, idtr, desc}
use vega_os.Amd64.Exceptions.{isr_table, exceptions_init}
use vega_os.Amd64.Gates.{target, has_isr, is_kernel_code, desc-IsTrapGate, exceptions_init-eq}

-- An address whose upper bits repeat bit 47.
abbrev pub is_canonical : ℕ → Bool
is_canonical a = ltb a (2 ^ 47) || (leb (2 ^ 64 - 2 ^ 47) a && ltb a (2 ^ 64))

-- A present interrupt or trap gate.
abbrev pub is_gate : IdtEntry → Bool
is_gate e = ((e.type == 0xe) || (e.type == 0xf)) && (e.p == 1)

-- What stands at an address where a table of `count` elements of `size` bytes starts at `base`:
-- `none` where no element of it starts.
unfoldable pub element_at {ℓ} : {A : Type ℓ} → ℕ → ℕ → ℕ → (ℕ → A) → ℕ → Option A
element_at base size count table address =
    if leb base address && ltb (address - base) (count * size) && ((address - base) % size == 0)
    then some (table ((address - base) / size))
    else none

pub data Delivery : Type 0 where
  -- The processor goes on at an address.
  goes_to : ℕ → Delivery
  raises_another : Delivery
  -- It reads a descriptor where none of the table is.
  reads_elsewhere : Delivery

-- The segment of a gate: the selector is that of a global table, within its limit; the descriptor
-- there is of kernel code; and the handler's address is canonical.
unfoldable pub into_segment : Gdtr → (ℕ → Option GdtEntry) → IdtEntry → Delivery
into_segment segments segment_at e =
    if leb (e.cs / 8 * 8 + 7) segments.limit && (e.cs / 4 % 2 == 0)
    then elim (segment_at (segments.offset + e.cs / 8 * 8)) [
      | none ↦ reads_elsewhere
      | some d ↦
          if is_kernel_code d && is_canonical (target e) then goes_to (target e) else raises_another
    ]
    else raises_another

-- The gate of a vector is read at the address that the register has, 16 bytes for each vector.
unfoldable pub delivery : Gdtr → (ℕ → Option GdtEntry) → Idtr → (ℕ → Option IdtEntry) → ℕ → Delivery
delivery segments segment_at gates gate_at vector =
    if leb (vector * 16 + 15) gates.limit
    then elim (gate_at (gates.offset + vector * 16)) [
      | none ↦ reads_elsewhere
      | some e ↦ if is_gate e then into_segment segments segment_at e else raises_another
    ]
    else raises_another

element_at-index {ℓ} :
    {A : Type ℓ} (base size count : ℕ) (table : ℕ → A) (i : ℕ)
    → i * size < count * size
    → i * size % size ≡ 0
    → i * size / size ≡ i
    → element_at base size count table (base + i * size) ≡ some (table i)
unfolding element_at
element_at-index base size count table i h starts quotient =
    let offset : base + i * size - base ≡ i * size = omega arith in
    let after : leb base (base + i * size) ≡ true = ground arith in
    let inside : ltb (i * size) (count * size) ≡ true = ground arith in
    rw (offset, after, inside, starts, quotient) refl

-- The kernel's two tables: `gdt` at `a`, and `idt` at `b`.
abbrev pub segments_at : ℕ → ℕ → Option GdtEntry
segments_at a = element_at a 8 256 gdt

abbrev pub gates_at : ℕ → Idt → ℕ → Option IdtEntry
gates_at b idt = element_at b 16 256 idt

is_gate-desc : (isr : ℕ) → is_gate (desc isr 0x8f) ≡ true
unfolding desc
is_gate-desc isr = refl

into_segment-desc :
    (a isr : ℕ)
    → isr < 2 ^ 64
    → is_canonical isr ≡ true
    → into_segment (gdtr a) (segments_at a) (desc isr 0x8f) ≡ goes_to isr
unfolding into_segment gdtr gdt desc
into_segment-desc a isr wide canonical =
    let leads : target (desc isr 0x8f) ≡ isr = (desc-IsTrapGate isr wide).leads in
    let code : segments_at a (a + 40) ≡ some (gdt 5) =
      element_at-index a 8 256 gdt 5 (omega arith) refl refl in
    rw (code, leads, canonical) refl

module _ (a b : ℕ) (isr : ℕ → ℕ) (idt : Idt) (v : ℕ) where
  -- With the kernel's tables at the addresses that the kernel loads into the two registers, and an
  -- empty interrupt table before, exceptions_init leads the processor from each of the 256 vectors
  -- that has a handler to that handler; for every other vector it raises another exception.
  -- Condition: the handlers' addresses are canonical.
  pub exceptions_init-delivery :
      ((u : ℕ) → is_canonical (isr u) ≡ true)
      → ((u : ℕ) → idt u ≡ idt_zero u)
      → v < 256
      → delivery (gdtr a) (segments_at a) (idtr b) (gates_at b (exceptions_init isr idt)) v
        ≡ (if has_isr isr_table v then goes_to (isr v) else raises_another)
  unfolding delivery idtr
  exceptions_init-delivery wide empty h =
      let entry = exceptions_init-eq isr idt v in
      let read =
        element_at-index b 16 256 (exceptions_init isr idt) v (omega arith) (omega arith)
          (omega arith) in
      let in_table : leb (v * 16 + 15) 4095 ≡ true = ground arith in
      elim (Bool-cases (has_isr isr_table v)) [
        | inl has ↦
            rw (in_table, read, entry, has, is_gate-desc (isr v))
              (into_segment-desc a (isr v) (ground (arith, wide v)) (wide v))
        | inr lacks ↦ rw (in_table, read, entry, lacks, empty v) refl
      ]
