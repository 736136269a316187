-- ===== src/Atomic/Register.antt =====
-- Every operation of rgoffi/go/gocruntime/atomic.c against a register of its width.
use native.Mathlib.Nat.{mod-eq_of_lt, mod-mod}
use challenges.Common.{
  ℕ, ◌+◌, ◌%◌, ◌^◌, ◌<◌, ◌≡◌, refl, ◌∙◌, Option, none, some, ◌==◌, if◌then◌else◌, Bool-cases, inl,
  inr,
}
use challenges.Memory.{Mem, load_bytes}
use challenges.Memory.Laws.{load_bytes-store_bytes, store_bytes-Outside}
use challenges.Atomic.Amd64.{exchange, compare_exchange, exchange_add, load, load64}
use challenges.Atomic.Words.{Elsewhere}
use challenges.Atomic

-- The types of the words, and what can be done with them.
pub data Kind : Type 0 where
  int32 : Kind
  int64 : Kind
  uint32 : Kind
  uint64 : Kind
  uintptr : Kind
  pointer : Kind

pub data Call : Type 0 where
  swaps : (new : ℕ) → Call
  compares : (old new : ℕ) → Call
  adds : (delta : ℕ) → Call
  loads : Call
  stores : (val : ℕ) → Call

abbrev pub size_of : Kind → ℕ
size_of int32 = 4
size_of int64 = 8
size_of uint32 = 4
size_of uint64 = 8
size_of uintptr = 8
size_of pointer = 8

-- The operation of the program for it; a pointer cannot be added to. A store returns nothing.
abbrev pub perform : Kind → Call → Mem → (addr : ℕ) → Option (ℕ × Mem)
perform int32 (swaps new) m addr = some (Atomic.swap_int32 m addr new)
perform int32 (compares old new) m addr = some (Atomic.compare_and_swap_int32 m addr old new)
perform int32 (adds delta) m addr = some (Atomic.add_int32 m addr delta)
perform int32 loads m addr = some (Atomic.load_int32 m addr, m)
perform int32 (stores val) m addr = some (0, Atomic.store_int32 m addr val)
perform int64 (swaps new) m addr = some (Atomic.swap_int64 m addr new)
perform int64 (compares old new) m addr = some (Atomic.compare_and_swap_int64 m addr old new)
perform int64 (adds delta) m addr = some (Atomic.add_int64 m addr delta)
perform int64 loads m addr = some (Atomic.load_int64 m addr, m)
perform int64 (stores val) m addr = some (0, Atomic.store_int64 m addr val)
perform uint32 (swaps new) m addr = some (Atomic.swap_uint32 m addr new)
perform uint32 (compares old new) m addr = some (Atomic.compare_and_swap_uint32 m addr old new)
perform uint32 (adds delta) m addr = some (Atomic.add_uint32 m addr delta)
perform uint32 loads m addr = some (Atomic.load_uint32 m addr, m)
perform uint32 (stores val) m addr = some (0, Atomic.store_uint32 m addr val)
perform uint64 (swaps new) m addr = some (Atomic.swap_uint64 m addr new)
perform uint64 (compares old new) m addr = some (Atomic.compare_and_swap_uint64 m addr old new)
perform uint64 (adds delta) m addr = some (Atomic.add_uint64 m addr delta)
perform uint64 loads m addr = some (Atomic.load_uint64 m addr, m)
perform uint64 (stores val) m addr = some (0, Atomic.store_uint64 m addr val)
perform uintptr (swaps new) m addr = some (Atomic.swap_uintptr m addr new)
perform uintptr (compares old new) m addr = some (Atomic.compare_and_swap_uintptr m addr old new)
perform uintptr (adds delta) m addr = some (Atomic.add_uintptr m addr delta)
perform uintptr loads m addr = some (Atomic.load_uintptr m addr, m)
perform uintptr (stores val) m addr = some (0, Atomic.store_uintptr m addr val)
perform pointer (swaps new) m addr = some (Atomic.swap_pointer m addr new)
perform pointer (compares old new) m addr = some (Atomic.compare_and_swap_pointer m addr old new)
perform pointer (adds delta) m addr = none
perform pointer loads m addr = some (Atomic.load_pointer m addr, m)
perform pointer (stores val) m addr = some (0, Atomic.store_pointer m addr val)

-- What comes of a register of `n` bytes that holds `v`: the result, and what it holds then.
abbrev pub register : (n : ℕ) → Call → (v : ℕ) → ℕ × ℕ
register n (swaps new) v = (v, new)
register n (compares old new) v = if v == old then (1, new) else (0, v)
register n (adds delta) v = ((v + delta) % 256 ^ n, (v + delta) % 256 ^ n)
register n loads v = (v, v)
register n (stores val) v = (0, val)

-- The value that is written is one of `n` bytes.
abbrev pub IsWord : (n : ℕ) → Call → Type 0
IsWord n (swaps new) = new < 256 ^ n
IsWord n (compares old new) = new < 256 ^ n
IsWord n (adds delta) = Unit {0}
IsWord n loads = Unit {0}
IsWord n (stores val) = val < 256 ^ n

-- All but the load of an int32, the comparison of pointers, and the sum of pointers.
abbrev pub IsSound : Kind → Call → Type 0
IsSound int32 (swaps new) = Unit {0}
IsSound int32 (compares old new) = Unit {0}
IsSound int32 (adds delta) = Unit {0}
IsSound int32 loads = ⊥
IsSound int32 (stores val) = Unit {0}
IsSound int64 (swaps new) = Unit {0}
IsSound int64 (compares old new) = Unit {0}
IsSound int64 (adds delta) = Unit {0}
IsSound int64 loads = Unit {0}
IsSound int64 (stores val) = Unit {0}
IsSound uint32 (swaps new) = Unit {0}
IsSound uint32 (compares old new) = Unit {0}
IsSound uint32 (adds delta) = Unit {0}
IsSound uint32 loads = Unit {0}
IsSound uint32 (stores val) = Unit {0}
IsSound uint64 (swaps new) = Unit {0}
IsSound uint64 (compares old new) = Unit {0}
IsSound uint64 (adds delta) = Unit {0}
IsSound uint64 loads = Unit {0}
IsSound uint64 (stores val) = Unit {0}
IsSound uintptr (swaps new) = Unit {0}
IsSound uintptr (compares old new) = Unit {0}
IsSound uintptr (adds delta) = Unit {0}
IsSound uintptr loads = Unit {0}
IsSound uintptr (stores val) = Unit {0}
IsSound pointer (swaps new) = Unit {0}
IsSound pointer (compares old new) = ⊥
IsSound pointer (adds delta) = ⊥
IsSound pointer loads = Unit {0}
IsSound pointer (stores val) = Unit {0}

-- The same by the routines of the machine.
abbrev pub routine : (n : ℕ) → Call → Mem → (addr : ℕ) → ℕ × Mem
routine n (swaps new) m addr = exchange n m addr new
routine n (compares old new) m addr = compare_exchange n m addr old new
routine n (adds delta) m addr = exchange_add n m addr delta
routine n loads m addr = (load_bytes n m addr, m)
routine n (stores val) m addr = (0, (exchange n m addr val).1)

perform-routine :
    (kind : Kind) (call : Call) (m : Mem) (addr : ℕ)
    → IsSound kind call
    → perform kind call m addr ≡ some (routine (size_of kind) call m addr)
unfolding load load64
perform-routine int32 (swaps new) m addr h = refl
perform-routine int32 (compares old new) m addr h = refl
perform-routine int32 (adds delta) m addr h = refl
perform-routine int32 loads m addr h = absurd h
perform-routine int32 (stores val) m addr h = refl
perform-routine int64 (swaps new) m addr h = refl
perform-routine int64 (compares old new) m addr h = refl
perform-routine int64 (adds delta) m addr h = refl
perform-routine int64 loads m addr h = refl
perform-routine int64 (stores val) m addr h = refl
perform-routine uint32 (swaps new) m addr h = refl
perform-routine uint32 (compares old new) m addr h = refl
perform-routine uint32 (adds delta) m addr h = refl
perform-routine uint32 loads m addr h = refl
perform-routine uint32 (stores val) m addr h = refl
perform-routine uint64 (swaps new) m addr h = refl
perform-routine uint64 (compares old new) m addr h = refl
perform-routine uint64 (adds delta) m addr h = refl
perform-routine uint64 loads m addr h = refl
perform-routine uint64 (stores val) m addr h = refl
perform-routine uintptr (swaps new) m addr h = refl
perform-routine uintptr (compares old new) m addr h = refl
perform-routine uintptr (adds delta) m addr h = refl
perform-routine uintptr loads m addr h = refl
perform-routine uintptr (stores val) m addr h = refl
perform-routine pointer (swaps new) m addr h = refl
perform-routine pointer (compares old new) m addr h = absurd h
perform-routine pointer (adds delta) m addr h = absurd h
perform-routine pointer loads m addr h = refl
perform-routine pointer (stores val) m addr h = refl

pub routine-register :
    (n : ℕ) (call : Call) (m : Mem) (addr : ℕ)
    → IsWord n call
    → ((routine n call m addr).0 ≡ (register n call (load_bytes n m addr)).0)
      × (load_bytes n (routine n call m addr).1 addr ≡ (register n call (load_bytes n m addr)).1)
      × Elsewhere n addr m (routine n call m addr).1
unfolding exchange compare_exchange exchange_add
routine-register n (swaps new) m addr word = (
  refl,
  load_bytes-store_bytes n m addr new ∙ mod-eq_of_lt word,
  store_bytes-Outside n m addr new,
)
routine-register n (compares old new) m addr word = elim (Bool-cases (load_bytes n m addr == old)) [
  | inl same ↦ rw same (
    refl,
    load_bytes-store_bytes n m addr new ∙ mod-eq_of_lt word,
    store_bytes-Outside n m addr new,
  )
  | inr other ↦ rw other (refl, refl, λ q out. refl)
]
routine-register n (adds delta) m addr word =
    let sum : ℕ = (load_bytes n m addr + delta) % 256 ^ n in
    (
      refl,
      load_bytes-store_bytes n m addr sum ∙ mod-mod (load_bytes n m addr + delta) (256 ^ n),
      store_bytes-Outside n m addr sum,
    )
routine-register n loads m addr word = (refl, refl, λ q out. refl)
routine-register n (stores val) m addr word = (
  refl,
  load_bytes-store_bytes n m addr val ∙ mod-eq_of_lt word,
  store_bytes-Outside n m addr val,
)

-- Every operation of atomic.c but `load_int32` and `compare_and_swap_pointer`, given values of its
-- width, does to the bytes at its address what it does to a register of that width: a swap, a
-- comparison, a sum modulo 256 to the number of bytes, a load or a store gives the register's
-- result and its new value, and no other byte changes.
pub perform-register :
    (kind : Kind) (call : Call) (m : Mem) (addr : ℕ)
    → IsSound kind call
    → IsWord (size_of kind) call
    → (res : ℕ) × (m' : Mem) × (perform kind call m addr ≡ some (res, m'))
      × (res ≡ (register (size_of kind) call (load_bytes (size_of kind) m addr)).0)
      × (load_bytes (size_of kind) m' addr
          ≡ (register (size_of kind) call (load_bytes (size_of kind) m addr)).1)
      × Elsewhere (size_of kind) addr m m'
perform-register kind call m addr sound word =
    let (res, value, others) = routine-register (size_of kind) call m addr word in
    (
      (routine (size_of kind) call m addr).0,
      (routine (size_of kind) call m addr).1,
      perform-routine kind call m addr sound,
      res,
      value,
      others,
    )
