-- ===== src/Word64.antt =====
-- 64-bit loads and stores: eight bytes, the lowest first.
use native.Mathlib.Nat.{pow-suc, one-le-pow}
use vega_os.Base.{
  ℕ, zero, suc, ◌+◌, ◌*◌, ◌/◌, ◌%◌, ◌^◌, ◌≤◌, ◌<◌, ◌≡◌, refl, arith, ◌∙◌, ap, sym, ◌⊎◌, false, true,
}
use vega_os.Memory.{
  Mem, Translation, load8, store8, write, within, IsMapped, IsMapped-head, IsMapped-tail,
}

module _ (phys : Translation) where
  -- The `n` bytes from `a` on as a number.
  unfoldable pub load_bytes : ℕ → ℕ → Mem → ℕ
  load_bytes zero a m = 0
  load_bytes (suc n) a m = load8 phys m a + 256 * load_bytes n (a + 1) m

  unfoldable pub store_bytes : ℕ → ℕ → ℕ → Mem → Mem
  store_bytes zero a v m = m
  store_bytes (suc n) a v m = store_bytes n (a + 1) (v / 256) (store8 phys m a (v % 256))

  unfoldable pub load64 : ℕ → Mem → ℕ
  unfolding load_bytes
  load64 a m = load_bytes 8 a m

  unfoldable pub store64 : ℕ → ℕ → Mem → Mem
  unfolding store_bytes
  store64 a v m = store_bytes 8 a v m

  store_bytes_outside :
      (n a p v q : ℕ) (m : Mem)
      → IsMapped phys a p n
      → within p n q ≡ false
      → store_bytes n a v m q ≡ m q
  unfolding store_bytes
  store_bytes_outside zero a p v q m is out = refl
  store_bytes_outside (suc n) a p v q m is out =
      store_bytes_outside n (a + 1) (p + 1) (v / 256) q (write m (phys a) (v % 256))
        (IsMapped-tail is (omega arith)) (ground arith)
      ∙ ground (arith, IsMapped-head is (omega arith))

  load_bytes_cong :
      (n a p : ℕ) (m m' : Mem)
      → IsMapped phys a p n
      → ((q : ℕ) → within p n q ≡ true → m q ≡ m' q)
      → load_bytes n a m ≡ load_bytes n a m'
  unfolding load_bytes
  load_bytes_cong zero a p m m' is same = refl
  load_bytes_cong (suc n) a p m m' is same =
      let head : phys a ≡ p = IsMapped-head is (omega arith) in
      let rest =
        load_bytes_cong n (a + 1) (p + 1) m m' (IsMapped-tail is (omega arith))
          (λ q hit. same q (ground arith)) in
      omega (arith, rest, ap m head ∙ same p (ground arith), ap m' head)

  digit_mod : (v k : ℕ) → 0 < k → v % 256 + 256 * (v / 256 % k) ≡ v % (k * 256)
  digit_mod v k h = grind arith

  load_bytes-store_bytes :
      (n a p v : ℕ) (m : Mem)
      → IsMapped phys a p n
      → load_bytes n a (store_bytes n a v m) ≡ v % 256 ^ n
  unfolding load_bytes store_bytes
  load_bytes-store_bytes zero a p v m is = omega arith
  load_bytes-store_bytes (suc n) a p v m is =
      let m' = write m (phys a) (v % 256) in
      let head : phys a ≡ p = IsMapped-head is (omega arith) in
      let tail : IsMapped phys (a + 1) (p + 1) n = IsMapped-tail is (omega arith) in
      let kept : store_bytes n (a + 1) (v / 256) m' (phys a) ≡ v % 256 =
        store_bytes_outside n (a + 1) (p + 1) (v / 256) (phys a) m' tail (ground arith)
        ∙ ground arith in
      let digits =
        digit_mod v (256 ^ n) (one-le-pow n 256 (omega arith))
        ∙ ap (λ (t : ℕ). v % t) (sym (pow-suc 256 n)) in
      omega (arith, kept, load_bytes-store_bytes n (a + 1) (p + 1) (v / 256) m' tail, digits)

  module _ (a p : ℕ) (m : Mem) (is : IsMapped phys a p 8) where
    -- A load finds what was stored.
    pub load64-store64 : (v : ℕ) → v < 2 ^ 64 → load64 a (store64 a v m) ≡ v
    unfolding load64 store64
    load64-store64 v h = load_bytes-store_bytes 8 a p v m is ∙ omega arith

    pub store64_outside : (v q : ℕ) → within p 8 q ≡ false → store64 a v m q ≡ m q
    unfolding store64
    store64_outside v q out = store_bytes_outside 8 a p v q m is out

    pub load64_cong :
        (m' : Mem) → ((q : ℕ) → within p 8 q ≡ true → m q ≡ m' q) → load64 a m ≡ load64 a m'
    unfolding load64
    load64_cong m' same = load_bytes_cong 8 a p m m' is same

  -- A load elsewhere finds what it found before the store.
  pub load64-store64_ne :
      (a p a' p' v : ℕ) (m : Mem)
      → IsMapped phys a p 8
      → IsMapped phys a' p' 8
      → (p + 8 ≤ p') ⊎ (p' + 8 ≤ p)
      → load64 a' (store64 a v m) ≡ load64 a' m
  load64-store64_ne a p a' p' v m is is' apart =
      load64_cong a' p' (store64 a v m) is' m (λ q hit. store64_outside a p m is v q (ground arith))

  load_bytes-lt : (n a : ℕ) (m : Mem) → ((q : ℕ) → m q < 256) → load_bytes n a m < 256 ^ n
  unfolding load_bytes
  load_bytes-lt zero a m bytes = omega arith
  load_bytes-lt (suc n) a m bytes =
      omega (arith, bytes (phys a), load_bytes-lt n (a + 1) m bytes, pow-suc 256 n)

load_bytes-IsMapped :
    (phys : Translation) (n a p : ℕ) (m : Mem)
    → IsMapped phys a p n
    → load_bytes phys n a m ≡ load_bytes (λ q. q) n p m
unfolding load_bytes
load_bytes-IsMapped phys zero a p m is = refl
load_bytes-IsMapped phys (suc n) a p m is =
    let rest = load_bytes-IsMapped phys n (a + 1) (p + 1) m (IsMapped-tail is (omega arith)) in
    omega (arith, rest, ap m (IsMapped-head is (omega arith)))

-- A load through a mapping finds what is in physical memory.
pub load64-IsMapped :
    (phys : Translation) (a p : ℕ) (m : Mem)
    → IsMapped phys a p 8
    → load64 phys a m ≡ load64 (λ q. q) p m
unfolding load64
load64-IsMapped phys a p m is = load_bytes-IsMapped phys 8 a p m is
