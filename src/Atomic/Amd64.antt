-- ===== src/Atomic/Amd64.antt =====
-- The routines of rgoffi/go/gocruntime/atomic_amd64.s and atomic_amd64.c that atomic.c calls. Each is
-- one access to the memory, locked where it writes, so that it is one step of the machine. A value is
-- the bit pattern of its type.
use challenges.Common.{ℕ, ◌+◌, ◌%◌, ◌^◌, ◌==◌, if◌then◌else◌}
use challenges.Memory.{Mem, load_bytes, store_bytes}

-- `lock xadd` on `n` bytes at `ptr`, and `add` to the old word it returns: the new word.
unfoldable pub exchange_add : (n : ℕ) → Mem → (ptr delta : ℕ) → ℕ × Mem
unfolding load_bytes store_bytes
exchange_add n m ptr delta =
    let sum : ℕ = (load_bytes n m ptr + delta) % 256 ^ n in (sum, store_bytes n m ptr sum)

-- `lock cmpxchg` on `n` bytes at `ptr`: the flag that `sete` reads, and the memory.
unfoldable pub compare_exchange : (n : ℕ) → Mem → (ptr old new : ℕ) → ℕ × Mem
unfolding load_bytes store_bytes
compare_exchange n m ptr old new =
    if load_bytes n m ptr == old then (1, store_bytes n m ptr new) else (0, m)

-- `xchg` on `n` bytes at `ptr`: the word before, and the memory.
unfoldable pub exchange : (n : ℕ) → Mem → (ptr new : ℕ) → ℕ × Mem
unfolding load_bytes store_bytes
exchange n m ptr new = (load_bytes n m ptr, store_bytes n m ptr new)

abbrev pub cas : Mem → (ptr old new : ℕ) → ℕ × Mem
cas = compare_exchange 4

-- The instruction names the register of `old`, not that of `val`.
abbrev pub casp1 : Mem → (val old new : ℕ) → ℕ × Mem
casp1 m val old new = compare_exchange 8 m old old new

abbrev pub cas64 : Mem → (val old new : ℕ) → ℕ × Mem
cas64 = compare_exchange 8

abbrev pub xadd : Mem → (val delta : ℕ) → ℕ × Mem
xadd = exchange_add 4

abbrev pub xadd64 : Mem → (val delta : ℕ) → ℕ × Mem
xadd64 = exchange_add 8

abbrev pub xchg : Mem → (ptr new : ℕ) → ℕ × Mem
xchg = exchange 4

abbrev pub xchg64 : Mem → (ptr new : ℕ) → ℕ × Mem
xchg64 = exchange 8

abbrev pub xchgp : Mem → (ptr new : ℕ) → ℕ × Mem
xchgp = xchg64

abbrev pub store : Mem → (ptr val : ℕ) → Mem
store m ptr val = (exchange 4 m ptr val).1

abbrev pub store64 : Mem → (ptr val : ℕ) → Mem
store64 m ptr val = (exchange 8 m ptr val).1

abbrev pub storep : Mem → (ptr val : ℕ) → Mem
storep = store64

unfoldable pub load : Mem → ℕ → ℕ
unfolding load_bytes
load m ptr = load_bytes 4 m ptr

unfoldable pub load64 : Mem → ℕ → ℕ
unfolding load_bytes
load64 m ptr = load_bytes 8 m ptr

abbrev pub loadp : Mem → ℕ → ℕ
loadp = load64
