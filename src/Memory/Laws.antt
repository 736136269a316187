-- ===== src/Memory/Laws.antt =====
-- What a store changes, and what a load returns after it.
use challenges.Common.{
  ℕ, zero, suc, ◌+◌, ◌*◌, ◌/◌, ◌%◌, ◌^◌, ◌≤◌, ◌<◌, ◌≡◌, ◌≢◌, refl, ◌⊎◌, inl, inr, arith, ◌∙◌,
}
use native.Mathlib.Nat.{pow-suc, pow-succ'}
use challenges.Memory.{Mem, IsBytes, put, load_bytes, store_bytes, load_pointer, store_pointer}

-- `q` is none of the `n` addresses from `p`.
abbrev pub Outside : ℕ → ℕ → ℕ → Type 0
Outside p n q = (q < p) ⊎ (p + n ≤ q)

pub put-IsBytes : {m : Mem} (p v : ℕ) → IsBytes m → IsBytes (put m p v)
unfolding put
put-IsBytes p v h a = ground (arith, h a)

pub put_self : (m : Mem) (p v : ℕ) → put m p v p ≡ v % 256
unfolding put
put_self m p v = ground arith

pub put_ne : (m : Mem) (p v q : ℕ) → q ≢ p → put m p v q ≡ m q
unfolding put
put_ne m p v q h = ground arith

store_bytes-IsBytes : (n : ℕ) {m : Mem} (p v : ℕ) → IsBytes m → IsBytes (store_bytes n m p v)
unfolding store_bytes
store_bytes-IsBytes zero p v h = h
store_bytes-IsBytes (suc n) p v h = store_bytes-IsBytes n (p + 1) (v / 256) (put-IsBytes p v h)

pub store_bytes-Outside :
    (n : ℕ) (m : Mem) (p v q : ℕ) → Outside p n q → store_bytes n m p v q ≡ m q
unfolding store_bytes
store_bytes-Outside zero m p v q h = refl
store_bytes-Outside (suc n) m p v q h =
    ground (arith, store_bytes-Outside n (put m p v) (p + 1) (v / 256) q)

-- A load depends on its own addresses only.
pub load_bytes-cong :
    (n : ℕ) (m m' : Mem) (p : ℕ)
    → ((q : ℕ) → p ≤ q → q < p + n → m q ≡ m' q)
    → load_bytes n m p ≡ load_bytes n m' p
unfolding load_bytes
load_bytes-cong zero m m' p h = refl
load_bytes-cong (suc n) m m' p h = omega (
  arith,
  h p (omega arith) (omega arith),
  load_bytes-cong n m m' (p + 1) λ q a b. h q (omega arith) (omega arith),
)

split_digit : (v m : ℕ) → 1 ≤ m → v % 256 + 256 * (v / 256 % m) ≡ v % (256 * m)
split_digit v m h = grind arith

pow_pos : (n : ℕ) → 1 ≤ 256 ^ n
pow_pos zero = omega arith
pow_pos (suc n) = omega (arith, pow-suc 256 n, pow_pos n)

-- Bytes that lie apart from those that are stored stay as they are.
pub load_bytes-apart :
    (n k : ℕ) (m : Mem) (p q v : ℕ)
    → (p + n ≤ q) ⊎ (q + k ≤ p)
    → load_bytes n (store_bytes k m q v) p ≡ load_bytes n m p
load_bytes-apart n k m p q v (inl before) =
    load_bytes-cong n _ m p
      (λ x low high. store_bytes-Outside k m q v x (inl (omega (arith, before, high))))
load_bytes-apart n k m p q v (inr behind) =
    load_bytes-cong n _ m p
      (λ x low high. store_bytes-Outside k m q v x (inr (omega (arith, behind, low))))

pub load_bytes-store_bytes :
    (n : ℕ) (m : Mem) (p v : ℕ) → load_bytes n (store_bytes n m p v) p ≡ v % 256 ^ n
unfolding load_bytes store_bytes
load_bytes-store_bytes zero m p v = omega arith
load_bytes-store_bytes (suc n) m p v = rw pow-succ' (
    omega (
      arith,
      store_bytes-Outside n (put m p v) (p + 1) (v / 256) p (inl (omega arith)),
      put_self m p v,
      load_bytes-store_bytes n (put m p v) (p + 1) (v / 256),
      split_digit v (256 ^ n) (pow_pos n),
    ))

pub load_bytes-lt : (n : ℕ) {m : Mem} (p : ℕ) → IsBytes m → load_bytes n m p < 256 ^ n
unfolding load_bytes
load_bytes-lt zero p h = omega arith
load_bytes-lt (suc n) p h = rw pow-succ' (omega (arith, h p, load_bytes-lt n (p + 1) h))

pub store_pointer-IsBytes : {m : Mem} (p v : ℕ) → IsBytes m → IsBytes (store_pointer m p v)
unfolding store_pointer
store_pointer-IsBytes = store_bytes-IsBytes 8

pub store_pointer-Outside : (m : Mem) (p v q : ℕ) → Outside p 8 q → store_pointer m p v q ≡ m q
unfolding store_pointer
store_pointer-Outside = store_bytes-Outside 8

pub load_pointer-cong :
    (m m' : Mem) (p : ℕ)
    → ((q : ℕ) → p ≤ q → q < p + 8 → m q ≡ m' q)
    → load_pointer m p ≡ load_pointer m' p
unfolding load_pointer
load_pointer-cong = load_bytes-cong 8

load_bytes-zero : (n : ℕ) (m : Mem) (p : ℕ) → ((q : ℕ) → p ≤ q → m q ≡ 0) → load_bytes n m p ≡ 0
unfolding load_bytes
load_bytes-zero zero m p h = refl
load_bytes-zero (suc n) m p h =
    omega (arith, h p (omega arith), load_bytes-zero n m (p + 1) λ q l. h q (omega arith))

-- Blank memory reads as NULL.
pub load_pointer-zero : (m : Mem) (p : ℕ) → ((q : ℕ) → p ≤ q → m q ≡ 0) → load_pointer m p ≡ 0
unfolding load_pointer
load_pointer-zero = load_bytes-zero 8

-- A pointer is read back as it was stored.
pub load_pointer-store_pointer :
    (m : Mem) (p v : ℕ) → v < 2 ^ 64 → load_pointer (store_pointer m p v) p ≡ v
unfolding load_pointer store_pointer
load_pointer-store_pointer m p v h = load_bytes-store_bytes 8 m p v ∙ omega arith

pub load_pointer-lt : {m : Mem} (p : ℕ) → IsBytes m → load_pointer m p < 2 ^ 64
unfolding load_pointer
load_pointer-lt p h = load_bytes-lt 8 p h

-- The lowest byte of a stored pointer lies at its own address.
pub store_pointer-low : (m : Mem) (p v : ℕ) → store_pointer m p v p ≡ v % 256
unfolding store_pointer put
store_pointer-low m p v = ground arith
