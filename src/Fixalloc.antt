-- ===== src/Fixalloc.antt =====
-- The fixed-size allocator of rgoffi/go/gocruntime/fixalloc.c and fixalloc.h. `none` stands for
-- `throw`, which aborts the process (rgoffi/go/gocruntime/panic.c).
pub mod Blocks
pub mod Chunk
pub mod Invariant
pub mod Run
pub mod Test
use challenges.Common.{
  ℕ, ◌+◌, ◌*◌, ◌/◌, ◌%◌, ◌^◌, ◌≤◌, ◌<◌, ◌≡◌, Bool, true, Option, none, some, ltb, ◌==◌, not,
  if◌then◌else◌,
}
use challenges.Memory.{Mem, null, load_pointer, store_pointer}
use challenges.Memory.Words.{add64, sub64}

-- What the allocator calls of the Go runtime, over the state `W` of that runtime:
-- `persistent_alloc w n` returns a chunk of `n` bytes.
pub record GoRuntime (W : Type 0) : Type 0 where
  pub memclr_noheap_pointers : Mem → (ptr size : ℕ) → Mem
  pub persistent_alloc : W → ℕ → ℕ × W

-- The documented effect of `memclrNoHeapPointers`: it clears `n` bytes starting at `p`.
pub record IsGoRuntime {W : Type 0} (go : GoRuntime W) : Type 0 where
  pub memclr-within :
      (m : Mem) (p n q : ℕ) → p ≤ q → q < p + n → go.memclr_noheap_pointers m p n q ≡ 0

-- _FixAllocChunk
abbrev pub fix_alloc_chunk : ℕ
fix_alloc_chunk = 0x4000

-- sizeof (struct mlink)
abbrev pub mlink_size : ℕ
mlink_size = 8

-- `struct fixalloc`, with the memory and the state of the runtime that its operations use.
pub record Fixalloc (W : Type 0) : Type 0 where
  pub size : ℕ
  pub list : ℕ
  pub chunk : ℕ
  pub nchunk : ℕ
  pub nalloc : ℕ
  pub inuse : ℕ
  pub zero : Bool
  pub mem : Mem
  pub world : W

-- `if (size < min) { size = min; }`
abbrev pub at_least_link : ℕ → ℕ
at_least_link size = if ltb size mlink_size then mlink_size else size

unfoldable pub init : {W : Type 0} → (size : ℕ) → Fixalloc W → Option (Fixalloc W)
init size f =
    let s : ℕ = at_least_link size in
    if ltb fix_alloc_chunk size
    then none
    else some (record f {
      size = s;
      list = null;
      chunk = 0;
      nchunk = 0;
      nalloc = fix_alloc_chunk / s * s % 2 ^ 32;
      inuse = 0;
      zero = true;
    })

-- Move on by a block, and return where the chunk goes on from there.
unfoldable pub advance : {W : Type 0} → Fixalloc W → ℕ × Fixalloc W
unfolding add64 sub64
advance f =
    let chunk : ℕ = add64 f.chunk f.size in
    (
      chunk,
      record f {
        chunk = chunk;
        nchunk = sub64 f.nchunk f.size % 2 ^ 32;
        inuse = add64 f.inuse f.size;
      },
    )

module _ {W : Type 0} (go : GoRuntime W) where
  -- The branch of `alloc` for a list that is not empty.
  unfoldable pub pop : Fixalloc W → ℕ × Fixalloc W
  unfolding add64 load_pointer
  pop f =
      let v : ℕ = f.list in
      (
        v,
        record f {
          list = load_pointer f.mem v;
          inuse = add64 f.inuse f.size;
          mem = if f.zero then go.memclr_noheap_pointers f.mem v f.size else f.mem;
        },
      )

  -- Ask for a chunk where less than a block is left of the last one.
  unfoldable pub refill : Fixalloc W → Fixalloc W
  refill f =
      let (p, w) = go.persistent_alloc f.world f.nalloc in
      if ltb f.nchunk f.size then record f { chunk = p; nchunk = f.nalloc; world = w } else f

  unfoldable pub alloc : Fixalloc W → Option (ℕ × Fixalloc W)
  alloc f =
      if f.size == 0
      then none
      else if not (f.list == null)
      then some (pop f)
      else some (advance (refill f))

unfoldable pub dealloc : {W : Type 0} → Fixalloc W → ℕ → Fixalloc W
unfolding sub64 store_pointer
dealloc f p = record f {
  inuse = sub64 f.inuse f.size;
  mem = store_pointer f.mem p f.list;
  list = p;
}
