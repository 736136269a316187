-- ===== src/Fixalloc/Run.antt =====
-- A program that uses rgoffi/go/gocruntime/fixalloc.c: its calls of `alloc` and `dealloc` and its
-- writes into its blocks, in any order. It gives back only blocks that it holds, and writes only into
-- them.
pub mod Changes
pub mod Counts
pub mod Keeps
pub mod Owners
pub mod Release
pub mod Safety
use challenges.Common.{
  ℕ, ◌+◌, ◌^◌, ◌≤◌, ◌<◌, ◌≡◌, ◌≢◌, ◌⊎◌, Bool, true, false, Option, some, ◌==◌, if◌then◌else◌,
}
use challenges.Memory.{Mem, put, null}
use challenges.Fixalloc.{GoRuntime, Fixalloc, init, alloc, dealloc}

-- What is documented of the Go runtime: where the memory is not exhausted, which aborts the process, a
-- chunk lies in the lower half of the addresses, and no byte is in two chunks; and
-- `memclrNoHeapPointers` leaves all other memory.
pub record IsPersistent {W : Type 0} (go : GoRuntime W) (exhausted : W → ℕ → Bool)
    (taken : W → ℕ → Bool) : Type 0 where
  pub fresh :
      (w : W) (n q : ℕ)
      → exhausted w n ≡ false
      → (go.persistent_alloc w n).0 ≤ q
      → q < (go.persistent_alloc w n).0 + n
      → (taken w q ≡ false) × (taken (go.persistent_alloc w n).1 q ≡ true)
  pub kept : (w : W) (n q : ℕ) → taken w q ≡ true → taken (go.persistent_alloc w n).1 q ≡ true
  pub below : (w : W) (n : ℕ) → exhausted w n ≡ false → (go.persistent_alloc w n).0 + n < 2 ^ 63
  pub memclr-outside :
      (m : Mem) (p n q : ℕ) → (q < p) ⊎ (p + n ≤ q) → go.memclr_noheap_pointers m p n q ≡ m q

-- The pointers that the program holds.
abbrev pub Live : Type 0
Live = ℕ → Bool

abbrev pub set_live : Live → ℕ → Bool → Live
set_live live p b q = if q == p then b else live q

pub data Step {W : Type 0} (go : GoRuntime W) (exhausted : W → ℕ → Bool) (f : Fixalloc W)
    (live : Live) : Fixalloc W → Live → Type 0 where
  allocated :
      {g : Fixalloc W} (v : ℕ)
      → (f.list ≡ null → f.nchunk < f.size → exhausted f.world f.nalloc ≡ false)
      → alloc go f ≡ some (v, g)
      → Step go exhausted f live g (set_live live v true)
  released :
      (p : ℕ) → live p ≡ true → Step go exhausted f live (dealloc f p) (set_live live p false)
  written :
      (p x v : ℕ)
      → live p ≡ true
      → p ≤ x
      → x < p + f.size
      → Step go exhausted f live (record f { mem = put f.mem x v }) live

-- What the program reaches from an allocator that `init` has set up.
pub data Reach {W : Type 0} (go : GoRuntime W) (exhausted : W → ℕ → Bool) (size : ℕ)
    (f : Fixalloc W) : Fixalloc W → Live → Type 0 where
  begun : {g : Fixalloc W} → init size f ≡ some g → Reach go exhausted size f g (λ p. false)
  later :
      {g h : Fixalloc W} {live live' : Live}
      → Reach go exhausted size f g live
      → Step go exhausted g live h live'
      → Reach go exhausted size f h live'
