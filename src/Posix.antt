-- ===== src/Posix.antt =====
-- posix/memset.c and posix/memcpy.c. Pointers are addresses; both functions return their first
-- argument, beside the new memory.
pub mod Laws
mod Examples
use vega_os.Base.{ℕ, zero, suc, ◌+◌}
use vega_os.Memory.{Mem, Translation, load8, store8}

module _ (phys : Translation) where
  -- `for (i = ...; i < length; ++i)` with `length - i` rounds left.
  pub memset_loop : ℕ → ℕ → ℕ → ℕ → Mem → Mem
  memset_loop zero ptr val i m = m
  memset_loop (suc left) ptr val i m =
      memset_loop left ptr val (i + 1) (store8 phys m (ptr + i) val)

  unfoldable pub memset : ℕ → ℕ → ℕ → Mem → ℕ × Mem
  unfolding memset_loop
  memset ptr val length m = (ptr, memset_loop length ptr val 0 m)

  -- `while (n-- > 0) *t++ = *f++;`
  pub memcpy_loop : ℕ → ℕ → ℕ → Mem → Mem
  memcpy_loop zero t f m = m
  memcpy_loop (suc n) t f m = memcpy_loop n (t + 1) (f + 1) (store8 phys m t (load8 phys m f))

  unfoldable pub memcpy : ℕ → ℕ → ℕ → Mem → ℕ × Mem
  unfolding memcpy_loop
  memcpy s1 s2 n m = (s1, memcpy_loop n s1 s2 m)
