-- ===== src/Posix/Laws.antt =====
-- What memset and memcpy write, byte by byte of physical memory.
use vega_os.Base.{ℕ, zero, suc, ◌+◌, ◌-◌, ◌≤◌, ◌≡◌, ◌⊎◌, refl, arith, if◌then◌else◌, ◌∙◌}
use vega_os.Memory.{Mem, Translation, IsMapped, IsMapped-head, IsMapped-tail, within, write}
use vega_os.Posix.{memset, memset_loop, memcpy, memcpy_loop}

module _ (phys : Translation) where
  memset_loop-eq :
      (left ptr p val i n : ℕ) (m : Mem)
      → IsMapped phys ptr p n
      → i + left ≡ n
      → (q : ℕ) → memset_loop phys left ptr val i m q ≡ (if within (p + i) left q then val else m q)
  unfolding memset_loop
  memset_loop-eq zero ptr p val i n m is e q = ground arith
  memset_loop-eq (suc left) ptr p val i n m is e q =
      memset_loop-eq left ptr p val (i + 1) n (write m (phys (ptr + i)) val) is (omega arith) q
      ∙ ground (arith, is.at i (omega arith))

  -- memset fills the `n` bytes at `ptr` with `val`, changes no other byte of memory, and returns
  -- `ptr`, when the range is mapped.
  pub memset-fills :
      (ptr p val n : ℕ) (m : Mem)
      → IsMapped phys ptr p n
      → ((memset phys ptr val n m).0 ≡ ptr)
        × ((q : ℕ) → (memset phys ptr val n m).1 q ≡ (if within p n q then val else m q))
  unfolding memset
  memset-fills ptr p val n m is =
      (refl, λ q. memset_loop-eq n ptr p val 0 n m is (omega arith) q ∙ ground arith)

  memcpy_loop-eq :
      (n t f pt pf : ℕ) (m : Mem)
      → IsMapped phys t pt n
      → IsMapped phys f pf n
      → (pt ≤ pf) ⊎ (pf + n ≤ pt)
      → (q : ℕ) → memcpy_loop phys n t f m q ≡ (if within pt n q then m (pf + (q - pt)) else m q)
  unfolding memcpy_loop
  memcpy_loop-eq zero t f pt pf m tm fm safe q = ground arith
  memcpy_loop-eq (suc n) t f pt pf m tm fm safe q =
      memcpy_loop-eq n (t + 1) (f + 1) (pt + 1) (pf + 1) (write m (phys t) (m (phys f)))
        (IsMapped-tail tm (omega arith)) (IsMapped-tail fm (omega arith)) (omega arith) q
      ∙ ground (arith, IsMapped-head tm (omega arith), IsMapped-head fm (omega arith))

  -- memcpy copies the `n` bytes at `s2` as they were before the call to `s1`, changes no other
  -- byte and returns `s1`, when both ranges are mapped and the target does not start inside the
  -- source behind its first byte.
  pub memcpy-copies :
      (s1 s2 p1 p2 n : ℕ) (m : Mem)
      → IsMapped phys s1 p1 n
      → IsMapped phys s2 p2 n
      → (p1 ≤ p2) ⊎ (p2 + n ≤ p1)
      → ((memcpy phys s1 s2 n m).0 ≡ s1)
        × ((q : ℕ)
            → (memcpy phys s1 s2 n m).1 q ≡ (if within p1 n q then m (p2 + (q - p1)) else m q))
  unfolding memcpy
  memcpy-copies s1 s2 p1 p2 n m is1 is2 safe =
      (refl, λ q. memcpy_loop-eq n s1 s2 p1 p2 m is1 is2 safe q)
