-- ===== src/Atomic/Words.antt =====
-- The operations on 32-bit words of rgoffi/go/gocruntime/atomic.c.
use challenges.Common.{ℕ, ◌^◌, ◌<◌, ◌≡◌, ◌≢◌, sym, ◌∙◌, arith}
use challenges.Memory.{Mem}
use challenges.Memory.Laws.{Outside, load_bytes-store_bytes}
use challenges.Atomic.Amd64.{exchange, load}
use challenges.Atomic.{load_uint32, store_int32, load_int32}

-- The memory outside the `n` bytes at `p` is the same.
abbrev pub Elsewhere : ℕ → ℕ → Mem → Mem → Type 0
Elsewhere n p m m' = (q : ℕ) → Outside p n q → m' q ≡ m q

-- After `store_int32` of a value of 32 bits that is not 0 the memory holds it, and `load_int32`
-- returns something else.
pub load_int32-store_int32 :
    (m : Mem) (p v : ℕ)
    → v < 2 ^ 32
    → v ≢ 0
    → (load_uint32 (store_int32 m p v) p ≡ v) × (load_int32 (store_int32 m p v) p ≢ v)
unfolding exchange load
load_int32-store_int32 m p v small some_bit =
    (load_bytes-store_bytes 4 m p v ∙ omega arith, λ e. some_bit (sym e))
