-- ===== src/Memory.antt =====
-- The bytes of physical memory, and the kernel's accesses through virtual addresses. The page
-- tables under which the kernel starts are the boot loader's, so the translation of a virtual
-- address is a parameter, `phys`.
use vega_os.Base.{ℕ, ◌+◌, ◌≤◌, ◌<◌, ◌≡◌, ap, ◌∙◌, ◌==◌, if◌then◌else◌, arith, Bool, ◌&&◌, leb, ltb}

abbrev pub Mem : Type 0
Mem = ℕ → ℕ

abbrev pub Translation : Type 0
Translation = ℕ → ℕ

abbrev pub write : Mem → ℕ → ℕ → Mem
write m p v q = if q == p then v else m q

-- `*(uint8_t *)a` and `*(uint8_t *)a = v`; `v` is a byte.
abbrev pub load8 : Translation → Mem → ℕ → ℕ
load8 phys m a = m (phys a)

abbrev pub store8 : Translation → Mem → ℕ → ℕ → Mem
store8 phys m a v = write m (phys a) v

-- The `n` virtual addresses from `v` on stand for the physical ones from `p` on, in order.
pub record IsMapped (phys : Translation) (v p n : ℕ) : Type 0 where
  pub at : (i : ℕ) → i < n → phys (v + i) ≡ p + i

-- `q` is one of the `n` addresses from `p` on.
abbrev pub within : ℕ → ℕ → ℕ → Bool
within p n q = leb p q && ltb q (p + n)

pub IsMapped-head : {phys : Translation} {v p n : ℕ} → IsMapped phys v p n → 0 < n → phys v ≡ p
IsMapped-head {phys} {v} {p} is h =
    let start : v + 0 ≡ v = omega arith in omega (arith, is.at 0 h, ap phys start)

pub IsMapped-tail :
    {phys : Translation} {v p n k : ℕ}
    → IsMapped phys v p n
    → k + 1 ≤ n
    → IsMapped phys (v + 1) (p + 1) k
IsMapped-tail {phys} {v} is h = record {
  at = λ i lt.
      let shifted : v + 1 + i ≡ v + (i + 1) = omega arith in
      ap phys shifted ∙ is.at (i + 1) (omega arith) ∙ omega arith;
}

-- A part of a mapped range is mapped.
pub IsMapped-slice :
    {phys : Translation} {v p n : ℕ} (d k : ℕ)
    → IsMapped phys v p n
    → d + k ≤ n
    → IsMapped phys (v + d) (p + d) k
IsMapped-slice {phys} {v} d k is h = record {
  at = λ i lt.
      let shifted : v + d + i ≡ v + (d + i) = omega arith in
      ap phys shifted ∙ is.at (d + i) (omega arith) ∙ omega arith;
}
