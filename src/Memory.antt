-- ===== src/Memory.antt =====
-- The memory that the C code of kmalloc/original/kmalloc.c and rgoffi/go/gocruntime works on: one
-- byte at each address, pointers as eight bytes with the lowest first (x86-64), and 64-bit and
-- 32-bit words with their wrap-around. The block functions of the C library stand here too.
pub mod Laws
pub mod Words
use challenges.Common.{
  ℕ, zero, suc, ◌+◌, ◌-◌, ◌*◌, ◌/◌, ◌%◌, ◌<◌, Bool, ◌&&◌, ltb, leb, ◌==◌, if◌then◌else◌,
}

-- Every byte is below 256: see `IsBytes`.
abbrev pub Mem : Type 0
Mem = ℕ → ℕ

abbrev pub IsBytes : Mem → Type 0
IsBytes m = (a : ℕ) → m a < 256

abbrev pub null : ℕ
null = 0

-- sizeof (void *)
abbrev pub pointer_size : ℕ
pointer_size = 8

-- `*(uint8_t *) p = v`
unfoldable pub put : Mem → ℕ → ℕ → Mem
put m p v q = if q == p then v % 256 else m q

unfoldable pub load_bytes : ℕ → Mem → ℕ → ℕ
load_bytes zero m p = 0
load_bytes (suc n) m p = m p + 256 * load_bytes n m (p + 1)

unfoldable pub store_bytes : ℕ → Mem → ℕ → ℕ → Mem
unfolding put
store_bytes zero m p v = m
store_bytes (suc n) m p v = store_bytes n (put m p v) (p + 1) (v / 256)

-- `*(void **) p`
unfoldable pub load_pointer : Mem → ℕ → ℕ
unfolding load_bytes
load_pointer m p = load_bytes pointer_size m p

-- `*(void **) p = v`
unfoldable pub store_pointer : Mem → ℕ → ℕ → Mem
unfolding store_bytes
store_pointer m p v = store_bytes pointer_size m p v

abbrev pub within : ℕ → ℕ → ℕ → Bool
within p n q = leb p q && ltb q (p + n)

-- memset (p, 0, n)
unfoldable pub clear_bytes : Mem → ℕ → ℕ → Mem
clear_bytes m p n q = if within p n q then 0 else m q

-- bcopy (src, dst, n): the ranges may overlap, and the bytes are those from before the call.
unfoldable pub copy_bytes : Mem → (src dst n : ℕ) → Mem
copy_bytes m src dst n q = if within dst n q then m (src + (q - dst)) else m q
