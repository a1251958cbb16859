-- ===== src/Base/Bytes.antt =====
-- Byte-addressed memory, and little-endian loads and stores of a fixed width.
use Prim.Native.Nat.{ℕ, zero, suc, ◌+◌, ◌*◌, ◌/◌, ◌%◌, ◌^◌, ◌≤◌, ◌<◌}
use mathlib.Core.Path.{◌≡◌, refl, ap, ◌∙◌}
use mathlib.Core.Logic.{◌≢◌, ◌⊎◌}
use native.Mathlib.Nat.{pow-suc}
use native.Mathlib.Omega.{arith}
use twos.Base.Tests.{◌==◌, if◌then◌else◌}

abbrev pub Memory : Type 0
Memory = ℕ → ℕ

abbrev pub update {ℓ} : {A : Type ℓ} → (ℕ → A) → ℕ → A → ℕ → A
update f a v b = if b == a then v else f b

-- The number that the `n` bytes at `a` spell, lowest first.
unfoldable pub load : ℕ → ℕ → Memory → ℕ
load zero a mem = 0
load (suc n) a mem = mem a + 256 * load n (a + 1) mem

unfoldable pub store : ℕ → ℕ → ℕ → Memory → Memory
store zero a v mem = mem
store (suc n) a v mem = store n (a + 1) (v / 256) (update mem a (v % 256))

-- A store changes no byte outside its `n`.
pub store_outside :
    (n a v : ℕ) (mem : Memory) (b : ℕ) → (b < a) ⊎ (a + n ≤ b) → store n a v mem b ≡ mem b
unfolding store
store_outside zero a v mem b h = refl
store_outside (suc n) a v mem b h =
    store_outside n (a + 1) (v / 256) (update mem a (v % 256)) b (omega arith) ∙ ground arith

pub load_ext :
    (n a : ℕ) (mem mem' : Memory)
    → ((b : ℕ) → a ≤ b → b < a + n → mem' b ≡ mem b)
    → load n a mem' ≡ load n a mem
unfolding load
load_ext zero a mem mem' h = refl
load_ext (suc n) a mem mem' h = omega (
  arith,
  h a (omega arith) (omega arith),
  load_ext n (a + 1) mem mem' (λ b p q. h b (omega arith) (omega arith)),
)

-- A load next to a store reads what was there.
pub load-store_apart :
    (n a k b v : ℕ) (mem : Memory)
    → (a + n ≤ b) ⊎ (b + k ≤ a)
    → load n a (store k b v mem) ≡ load n a mem
load-store_apart n a k b v mem h =
    load_ext n a mem (store k b v mem) (λ c p q. store_outside k b v mem c (omega arith))

-- A load of what was stored reads it back, cut to the width.
pub load-store_self : (n a v : ℕ) (mem : Memory) → v < 256 ^ n → load n a (store n a v mem) ≡ v
unfolding load store
load-store_self zero a v mem h = omega arith
load-store_self (suc n) a v mem h = omega (
  arith,
  store_outside n (a + 1) (v / 256) (update mem a (v % 256)) a (omega arith) ∙ head,
  load-store_self n (a + 1) (v / 256) (update mem a (v % 256)) (omega (arith, pow-suc 256 n)),
)
  where
    head : update mem a (v % 256) a ≡ v % 256
    head = ground arith

pub update_ne {ℓ} : {A : Type ℓ} (f : ℕ → A) (a b : ℕ) (v : A) → b ≢ a → update f a v b ≡ f b
update_ne f a b v h = ground arith

pub update_self {ℓ} : {A : Type ℓ} (f : ℕ → A) (a b : ℕ) (v : A) → b ≡ a → update f a v b ≡ v
update_self f a b v h = ground arith

-- Changing the byte at `b`, three places above `a`, in a number of eight bytes.
pub load-update_third :
    (a b v : ℕ) (mem : Memory)
    → b ≡ a + 3
    → load 8 a (update mem b v) + 256 ^ 3 * mem b ≡ load 8 a mem + 256 ^ 3 * v
unfolding load
load-update_third a b v mem e = omega (
  arith,
  update_ne mem b a v (omega arith),
  update_ne mem b (a + 1) v (omega arith),
  update_ne mem b (a + 1 + 1) v (omega arith),
  update_self mem b (a + 1 + 1 + 1) v (omega arith),
  update_ne mem b (a + 1 + 1 + 1 + 1) v (omega arith),
  update_ne mem b (a + 1 + 1 + 1 + 1 + 1) v (omega arith),
  update_ne mem b (a + 1 + 1 + 1 + 1 + 1 + 1) v (omega arith),
  update_ne mem b (a + 1 + 1 + 1 + 1 + 1 + 1 + 1) v (omega arith),
  same,
)
  where
    same : mem (a + 1 + 1 + 1) ≡ mem b
    same = ap mem (omega arith)
