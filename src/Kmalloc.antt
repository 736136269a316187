-- ===== src/Kmalloc.antt =====
-- The allocator of kmalloc/original/kmalloc.c: its state, `kmalloc`, `morecore` and `kfree`, as it is
-- built with none of RCHECK, MSTATS and DEBUG, for x86-64. `none` stands for undefined behaviour (an
-- index outside `nextf`, a shift of an `int` by 32 or more, a null pointer written through) and for
-- a loop whose fuel has run out. `1 << 31` on an `int` is undefined too; it is the negative number that
-- compilers make of it and that `morecore` tests for.
pub mod Buckets
pub mod Carve
pub mod First
pub mod Free
pub mod Layout
pub mod Morecore
pub mod Resize
pub mod Reuse
pub mod Run
pub mod Serve
pub mod Setup
pub mod Stats
pub mod Take
pub mod Test
pub mod Unready
use challenges.Common.{
  ℕ, zero, suc, ◌+◌, ◌-◌, ◌*◌, ◌/◌, ◌%◌, ◌^◌, ◌<◌, ◌≡◌, ◌⊎◌, Bool, true, false, not, ◌||◌, Option,
  none, some, bit_and, ltb, leb, ◌==◌, if◌then◌else◌, ◌>>=◌,
}
use challenges.Memory.{Mem, null, put, load_pointer, store_pointer}
use challenges.Memory.Words.{add64, sub64, is_negative, shift_one, minus_one}

-- What the allocator takes from the operating system, over its state `W`. `sbrk w n` returns a
-- pointer and the new state.
pub record Os (W : Type 0) : Type 0 where
  pub page_size : ℕ
  pub sbrk : W → ℕ → ℕ × W

-- What is documented of `sbrk`: it returns the break and moves it up, or returns -1 and leaves it.
pub record IsOs {W : Type 0} (os : Os W) (brk : W → ℕ) : Type 0 where
  pub sbrk-cases :
      (w : W) (n : ℕ)
      → (((os.sbrk w n).0 ≡ brk w) × (brk (os.sbrk w n).1 ≡ brk w + n))
        ⊎ (((os.sbrk w n).0 ≡ minus_one) × (brk (os.sbrk w n).1 ≡ brk w))
  pub sbrk-zero : (w : W) → (os.sbrk w 0).0 ≡ brk w
  -- A process has the lower half of the addresses, and sbrk fails where it would leave them.
  pub brk-lt : (w : W) → brk w < 2 ^ 63

-- sizeof (union overhead)
abbrev pub overhead_size : ℕ
overhead_size = 8

abbrev pub magic : ℕ
magic = 0xef

abbrev pub nbuckets : ℕ
nbuckets = 30

-- The static variables and the memory. `nextf` is read below `nbuckets` only.
pub record Heap (W : Type 0) : Type 0 where
  pub mem : Mem
  pub nextf : ℕ → ℕ
  pub pagesz : ℕ
  pub pagebucket : ℕ
  pub world : W

abbrev pub update : (ℕ → ℕ) → ℕ → ℕ → ℕ → ℕ
update f i v j = if j == i then v else f j

-- `op->ov_magic`, `op->ov_index` and `op->ov_next`: the two bytes lie in the pointer's low end.
abbrev pub ov_magic : Mem → ℕ → ℕ
ov_magic m op = m op

abbrev pub ov_index : Mem → ℕ → ℕ
ov_index m op = m (op + 1)

abbrev pub ov_next : Mem → ℕ → ℕ
ov_next = load_pointer

-- The gap left below the first block: `n - sizeof (*op) - ((long) op & (n - 1))`, and a page more
-- where that is negative.
unfoldable pub align_gap : (page op : ℕ) → ℕ
unfolding sub64 add64 is_negative
align_gap page op =
    let n : ℕ = sub64 (sub64 page overhead_size) (bit_and op (sub64 page 1)) in
    if is_negative n then add64 n page else n

-- `while (pagesz > amt) { amt <<= 1; bucket++; }`, on an `unsigned amt`
unfoldable pub page_loop : (fuel page amt bucket : ℕ) → Option ℕ
page_loop zero page amt bucket = none
page_loop (suc fuel) page amt bucket =
    let rest = page_loop fuel page (amt * 2 % 2 ^ 32) (bucket + 1) in
    if ltb amt page then rest else some bucket

-- `while (nbytes > amt + n) { amt <<= 1; if (amt == 0) return NULL; bucket++; }`: the bucket, or
-- `some none` for the return.
unfoldable pub size_loop : (fuel nbytes n amt bucket : ℕ) → Option (Option ℕ)
unfolding add64
size_loop zero nbytes n amt bucket = none
size_loop (suc fuel) nbytes n amt bucket =
    let amt' : ℕ = amt * 2 % 2 ^ 32 in
    let rest = size_loop fuel nbytes n amt' (bucket + 1) in
    if ltb (add64 amt n) nbytes then (if amt' == 0 then some none else rest) else some (some bucket)

-- An `unsigned` doubles to zero within 33 rounds.
abbrev pub rounds : ℕ
rounds = 33

-- The bucket for a request of `nbytes`: from the first one for what fits a page, else from the
-- page's.
unfoldable pub choose_bucket : (pagesz pagebucket nbytes : ℕ) → Option (Option ℕ)
choose_bucket pagesz pagebucket nbytes =
    let n : ℕ = sub64 pagesz overhead_size in
    if leb nbytes n
    then size_loop rounds nbytes (sub64 0 overhead_size) 8 0
    else size_loop rounds nbytes n pagesz pagebucket

-- The loop of `morecore`: `count` times, link the block at `op` to the one that follows.
unfoldable pub carve : (count sz : ℕ) → Mem → ℕ → Mem
carve zero sz m op = m
carve (suc count) sz m op = carve count sz (store_pointer m op (add64 op sz)) (add64 op sz)

module _ {W : Type 0} (os : Os W) where
  -- The first call: set the page size, align the break, and find the bucket of a page. `false` is
  -- the return of NULL.
  unfoldable pub setup : Heap W → Option (Bool × Heap W)
  setup h =
      let page = os.page_size in
      let (op, w) = os.sbrk h.world 0 in
      let n = align_gap page op in
      let (r, w') = os.sbrk w n in
      let finish : W → Option (Bool × Heap W) = λ world. do
        bucket ← page_loop rounds page 8 0
        some (true, record h { pagesz = page; pagebucket = bucket; world = world })
      in if n == 0
        then finish w
        else if r == minus_one
        then some (false, record h { pagesz = page; world = w' })
        else finish w'

  -- How much to ask for, and how many blocks it makes.
  abbrev pub more_amount : (pagesz sz : ℕ) → ℕ
  more_amount pagesz sz = if ltb sz pagesz then pagesz else sz + pagesz

  abbrev pub more_blocks : (pagesz sz : ℕ) → ℕ
  more_blocks pagesz sz = if ltb sz pagesz then pagesz / sz else 1

  -- Ask for memory, and if there is some, put it into the empty bucket.
  unfoldable pub extend : (bucket sz : ℕ) → Heap W → Heap W
  extend bucket sz h =
      let (op, w) = os.sbrk h.world (more_amount h.pagesz sz) in
      if op == minus_one then record h { world = w } else record h {
        mem = carve (more_blocks h.pagesz sz - 1) sz h.mem op;
        nextf = update h.nextf bucket op;
        world = w;
      }

  -- Where `sz = 1 << (bucket + 3)` is not positive nothing is added to the bucket.
  unfoldable pub morecore : ℕ → Heap W → Option (Heap W)
  morecore bucket h =
      if leb 32 (bucket + 3)
      then none
      else let sz : ℕ = shift_one (bucket + 3) in
        if sz == 0 || is_negative sz then some h else some (extend bucket sz h)

  -- Unlink the first block, mark it as in use, and return what lies behind its header.
  unfoldable pub take_block : ℕ → Heap W → ℕ × Heap W
  unfolding put load_pointer add64
  take_block bucket h =
      let op : ℕ = h.nextf bucket in
      (
        add64 op overhead_size,
        record h {
          mem = put (put h.mem op magic) (op + 1) bucket;
          nextf = update h.nextf bucket (ov_next h.mem op);
        },
      )

  unfoldable pub obtain_block : ℕ → Heap W → Option (ℕ × Heap W)
  obtain_block bucket h =
      if leb nbuckets bucket
      then none
      else if h.nextf bucket == null
      then (do
        h' ← morecore bucket h
        some (if h'.nextf bucket == null then (null, h') else take_block bucket h'))
      else some (take_block bucket h)

  unfoldable pub serve : ℕ → Heap W → Option (ℕ × Heap W)
  serve nbytes h = do
    choice ← choose_bucket h.pagesz h.pagebucket nbytes
    elim choice [ none ↦ some (null, h) | some bucket ↦ obtain_block bucket h ]

  unfoldable pub kmalloc : ℕ → Heap W → Option (ℕ × Heap W)
  kmalloc nbytes h = do
    (ready, h') ← if h.pagesz == 0 then setup h else some (true, h)
    if ready then serve nbytes h' else some (null, h')

-- A pointer that does not carry the magic byte is ignored; else its block goes back in front of the
-- list that its index byte names.
unfoldable pub kfree : {W : Type 0} → ℕ → Heap W → Option (Heap W)
unfolding store_pointer sub64
kfree cp h =
    let op : ℕ = sub64 cp overhead_size in
    let size : ℕ = ov_index h.mem op in
    if cp == null
    then some h
    else if not (ov_magic h.mem op == magic)
    then some h
    else if leb nbuckets size
    then none
    else some
        (record h { mem = store_pointer h.mem op (h.nextf size); nextf = update h.nextf size op })

-- The index byte of a block in use, 0 for anything else.
unfoldable pub kmalloc_usable_size : {W : Type 0} → ℕ → Heap W → ℕ
unfolding sub64
kmalloc_usable_size cp h =
    let op : ℕ = sub64 cp overhead_size in
    if cp == null then 0 else if not (ov_magic h.mem op == magic) then 0 else ov_index h.mem op
