-- ===== src/Atomic.antt =====
-- The atomic operations of rgoffi/go/gocruntime/atomic.c: each passes its arguments on to a routine of
-- the machine. A value of a signed type is its bit pattern, so that a cast changes nothing. An operation
-- that writes returns the memory, behind its result where it has one.
pub mod Amd64
pub mod Words
pub mod Pointers
pub mod Register
pub mod Routines
use challenges.Common.{ℕ}
use challenges.Memory.{Mem}

abbrev pub swap_int32 : Mem → (addr new : ℕ) → ℕ × Mem
swap_int32 = Amd64.xchg

abbrev pub swap_int64 : Mem → (addr new : ℕ) → ℕ × Mem
swap_int64 = Amd64.xchg64

abbrev pub swap_uint32 : Mem → (addr new : ℕ) → ℕ × Mem
swap_uint32 = Amd64.xchg

abbrev pub swap_uint64 : Mem → (addr new : ℕ) → ℕ × Mem
swap_uint64 = Amd64.xchg64

abbrev pub swap_uintptr : Mem → (addr new : ℕ) → ℕ × Mem
swap_uintptr = Amd64.xchg64

abbrev pub swap_pointer : Mem → (addr new : ℕ) → ℕ × Mem
swap_pointer = Amd64.xchgp

abbrev pub compare_and_swap_int32 : Mem → (addr old new : ℕ) → ℕ × Mem
compare_and_swap_int32 = Amd64.cas

abbrev pub compare_and_swap_int64 : Mem → (addr old new : ℕ) → ℕ × Mem
compare_and_swap_int64 = Amd64.cas64

abbrev pub compare_and_swap_uint32 : Mem → (addr old new : ℕ) → ℕ × Mem
compare_and_swap_uint32 = Amd64.cas

abbrev pub compare_and_swap_uint64 : Mem → (addr old new : ℕ) → ℕ × Mem
compare_and_swap_uint64 = Amd64.cas64

abbrev pub compare_and_swap_uintptr : Mem → (addr old new : ℕ) → ℕ × Mem
compare_and_swap_uintptr = Amd64.cas64

abbrev pub compare_and_swap_pointer : Mem → (addr old new : ℕ) → ℕ × Mem
compare_and_swap_pointer = Amd64.casp1

abbrev pub add_int32 : Mem → (addr delta : ℕ) → ℕ × Mem
add_int32 = Amd64.xadd

abbrev pub add_uint32 : Mem → (addr delta : ℕ) → ℕ × Mem
add_uint32 = Amd64.xadd

abbrev pub add_int64 : Mem → (addr delta : ℕ) → ℕ × Mem
add_int64 = Amd64.xadd64

abbrev pub add_uint64 : Mem → (addr delta : ℕ) → ℕ × Mem
add_uint64 = Amd64.xadd64

abbrev pub add_uintptr : Mem → (addr delta : ℕ) → ℕ × Mem
add_uintptr = Amd64.xadd64

abbrev pub load_int32 : Mem → (addr : ℕ) → ℕ
load_int32 m addr = 0

abbrev pub load_int64 : Mem → (addr : ℕ) → ℕ
load_int64 = Amd64.load64

abbrev pub load_uint32 : Mem → (addr : ℕ) → ℕ
load_uint32 = Amd64.load

abbrev pub load_uint64 : Mem → (addr : ℕ) → ℕ
load_uint64 = Amd64.load64

abbrev pub load_uintptr : Mem → (addr : ℕ) → ℕ
load_uintptr = Amd64.load64

abbrev pub load_pointer : Mem → (addr : ℕ) → ℕ
load_pointer = Amd64.loadp

abbrev pub store_int32 : Mem → (addr val : ℕ) → Mem
store_int32 = Amd64.store

abbrev pub store_int64 : Mem → (addr val : ℕ) → Mem
store_int64 = Amd64.store64

abbrev pub store_uint32 : Mem → (addr val : ℕ) → Mem
store_uint32 = Amd64.store

abbrev pub store_uint64 : Mem → (addr val : ℕ) → Mem
store_uint64 = Amd64.store64

abbrev pub store_uintptr : Mem → (addr val : ℕ) → Mem
store_uintptr = Amd64.store64

abbrev pub store_pointer : Mem → (addr val : ℕ) → Mem
store_pointer = Amd64.storep
