-- ===== src/Kmalloc/Run.antt =====
-- A program that uses kmalloc/original/kmalloc.c: its calls of `kmalloc`, `kcalloc`,
-- `krealloc` and `kfree` and its writes into its blocks, in any order. It frees and resizes only
-- pointers that it holds, writes only into the bytes that it asked for, and calls `kcalloc` only
-- where the product of the arguments is below 2 ^ 64.
pub mod Answers
pub mod Bytes
pub mod Invariant
pub mod Resizing
pub mod Safety
pub mod Start
use challenges.Common.{
  ℕ, ◌+◌, ◌*◌, ◌%◌, ◌^◌, ◌≤◌, ◌<◌, ◌≡◌, ◌≢◌, Option, none, some, ◌==◌, if◌then◌else◌,
}
use challenges.Memory.{Mem, put, null}
use challenges.Kmalloc.{Os, Heap, kmalloc, kfree}
use challenges.Kmalloc.Resize.{kcalloc, krealloc}

-- For each pointer the number of bytes that were asked for, where it was returned and not yet freed.
abbrev pub Live : Type 0
Live = ℕ → Option ℕ

abbrev pub no_live : Live
no_live p = none

abbrev pub set_live : Live → ℕ → Option ℕ → Live
set_live live p r q = if q == p then r else live q

pub data Step {W : Type 0} (os : Os W) (h : Heap W) (live : Live) : Heap W → Live → Type 0 where
  allocated :
      {h' : Heap W} (nbytes p : ℕ)
      → kmalloc os nbytes h ≡ some (p, h')
      → p ≢ null
      → Step os h live h' (set_live live p (some nbytes))
  refused :
      {h' : Heap W} (nbytes : ℕ) → kmalloc os nbytes h ≡ some (null, h') → Step os h live h' live
  released :
      {h' : Heap W} (p n : ℕ)
      → live p ≡ some n
      → kfree p h ≡ some h'
      → Step os h live h' (set_live live p none)
  cleared :
      {h' : Heap W} (nelem elsize p : ℕ)
      → nelem * elsize < 2 ^ 64
      → kcalloc os nelem elsize h ≡ some (p, h')
      → Step os h live h' (set_live live p (some (nelem * elsize)))
  resized :
      {h' : Heap W} (fuel srchlen p n nbytes q : ℕ)
      → live p ≡ some n
      → krealloc os fuel srchlen p nbytes h ≡ some (q, h')
      → q ≢ null
      → Step os h live h' (set_live (set_live live p none) q (some nbytes))
  dropped :
      {h' : Heap W} (fuel srchlen p n nbytes : ℕ)
      → live p ≡ some n
      → krealloc os fuel srchlen p nbytes h ≡ some (null, h')
      → Step os h live h' (set_live live p none)
  written :
      (p n x v : ℕ)
      → live p ≡ some n
      → p ≤ x
      → x < p + n
      → Step os h live (record h { mem = put h.mem x v }) live

-- The step is the write into the byte at `x`.
abbrev pub Writes :
    {W : Type 0} {os : Os W} {h h' : Heap W} {live live' : Live}
    → Step os h live h' live'
    → ℕ
    → Type 0
Writes (allocated nbytes p e real) x = ⊥
Writes (refused nbytes e) x = ⊥
Writes (released p n holds e) x = ⊥
Writes (cleared nelem elsize p small e) x = ⊥
Writes (resized fuel srchlen p n nbytes q holds e real) x = ⊥
Writes (dropped fuel srchlen p n nbytes holds e) x = ⊥
Writes (written p n y v holds low high) x = y ≡ x

-- What the program reaches from the heap `h0` with no pointer held.
pub data Reach {W : Type 0} (os : Os W) (h0 : Heap W) : Heap W → Live → Type 0 where
  begun : Reach os h0 h0 no_live
  later :
      {h h' : Heap W} {live live' : Live}
      → Reach os h0 h live
      → Step os h live h' live'
      → Reach os h0 h' live'
