-- ===== src/Atomic/Pointers.antt =====
-- `compare_and_swap_pointer` of rgoffi/go/gocruntime/atomic.c.
use challenges.Common.{ℕ, ◌+◌, ◌≤◌, ◌≡◌, ◌⊎◌, inl, inr, refl, ◌==◌, Bool-cases, arith}
use challenges.Memory.{Mem, load_bytes}
use challenges.Memory.Laws.{store_bytes-Outside, load_bytes-cong}
use challenges.Atomic.Amd64.{compare_exchange, load64}
use challenges.Atomic.{compare_and_swap_pointer, load_pointer}

-- Where the eight bytes at the old value are apart from those at the address,
-- `compare_and_swap_pointer` leaves the pointer at the address as it is.
pub compare_and_swap_pointer-unchanged :
    (m : Mem) (addr old new : ℕ)
    → (addr + 8 ≤ old) ⊎ (old + 8 ≤ addr)
    → load_pointer (compare_and_swap_pointer m addr old new).1 addr ≡ load_pointer m addr
unfolding compare_exchange load64
compare_and_swap_pointer-unchanged m addr old new apart =
    elim (Bool-cases (load_bytes 8 m old == old)) [
      | inl same ↦ rw same (
          load_bytes-cong 8 _ m addr
            λ q low high. store_bytes-Outside 8 m old new q (ground (arith, apart, low, high)))
      | inr other ↦ rw other refl
    ]
