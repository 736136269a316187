-- ===== src/Kmalloc/Resize.antt =====
-- `kcalloc`, `findbucket` and `krealloc` of kmalloc/original/kmalloc.c.
pub mod Calloc
pub mod Cases
pub mod Compaction
pub mod Copy
pub mod InPlace
pub mod Move
pub mod Overflow
pub mod Search
use challenges.Common.{
  ℕ, zero, suc, ◌+◌, ◌*◌, ◌%◌, ◌^◌, Bool, true, false, not, ◌||◌, ◌&&◌, Option, none, some, ltb,
  leb, ◌==◌, if◌then◌else◌, ◌>>=◌,
}
use challenges.Memory.{Mem, null, clear_bytes, copy_bytes}
use challenges.Memory.Words.{add64, sub64, is_negative, shift_one}
use challenges.Kmalloc.{
  Os, Heap, overhead_size, magic, nbuckets, ov_magic, ov_index, ov_next, kmalloc, kfree,
}

-- The inner loop of `findbucket`: is `freep` among the first `srchlen` blocks from `p` on? `srchlen`
-- is the pattern of an `int`, so that -1 stands for the whole list.
unfoldable pub search_list : (fuel : ℕ) → Mem → (freep srchlen p j : ℕ) → Option Bool
search_list zero m freep srchlen p j = none
search_list (suc fuel) m freep srchlen p j =
    let rest = search_list fuel m freep srchlen (ov_next m p) (j + 1) in
    if p == null || j == srchlen then some false else if p == freep then some true else rest

-- The outer loop, for `count` more buckets from `i` on; `some none` is the result -1.
unfoldable pub search_buckets :
    (count : ℕ) → (fuel : ℕ) → {W : Type 0} → Heap W → (freep srchlen i : ℕ) → Option (Option ℕ)
search_buckets zero fuel h freep srchlen i = some none
search_buckets (suc count) fuel h freep srchlen i =
    let rest = search_buckets count fuel h freep srchlen (i + 1) in
    do
      found ← search_list fuel h.mem freep srchlen (h.nextf i) 0
      if found then some (some i) else rest

unfoldable pub findbucket :
    {W : Type 0} → (fuel : ℕ) → Heap W → (freep srchlen : ℕ) → Option (Option ℕ)
findbucket fuel h freep srchlen = search_buckets nbuckets fuel h freep srchlen 0

-- The size of the old block less its header, as `krealloc` works it out from a bucket.
unfoldable pub old_size : (pagesz i : ℕ) → Option ℕ
old_size pagesz i =
    if leb 32 (i + 3)
    then none
    else let onb : ℕ = shift_one (i + 3) in
      some
        (if ltb onb pagesz then sub64 onb overhead_size else add64 onb (sub64 pagesz overhead_size))

-- The same for the bucket below, and 0 for the first.
unfoldable pub lower_size : (pagesz i : ℕ) → ℕ
lower_size pagesz i =
    let n : ℕ = shift_one (i + 2) in
    if i == 0
    then 0
    else if is_negative n || ltb n pagesz
    then sub64 n overhead_size
    else add64 n (sub64 pagesz overhead_size)

-- `nbytes <= onb && nbytes > i`
abbrev pub stays : (pagesz i onb nbytes : ℕ) → Bool
stays pagesz i onb nbytes = leb nbytes onb && ltb (lower_size pagesz i) nbytes

module _ {W : Type 0} (os : Os W) where
  -- memset is given NULL where there is no memory: that is undefined.
  unfoldable pub kcalloc : (nelem elsize : ℕ) → Heap W → Option (ℕ × Heap W)
  kcalloc nelem elsize h = do
    let total = nelem * elsize % 2 ^ 64
    (p, h') ← kmalloc os total h
    if p == null then none else some (p, record h' { mem = clear_bytes h'.mem p total })

  -- The end of `krealloc`: a new block, and the old contents.
  unfoldable pub move : (cp nbytes onb : ℕ) → Heap W → Option (ℕ × Heap W)
  move cp nbytes onb h = do
    (res, h') ← kmalloc os nbytes h
    if res == null
        then some (null, h')
        else if cp == res
        then some (res, h')
        else some (
          res,
          record h' { mem = copy_bytes h'.mem cp res (if ltb nbytes onb then nbytes else onb) },
        )

  -- The bucket of a block that is free already: among the heads of the lists, then among their
  -- first `srchlen` blocks, and `NBUCKETS` if it is not found.
  unfoldable pub free_bucket : (fuel srchlen : ℕ) → Heap W → (op : ℕ) → Option ℕ
  free_bucket fuel srchlen h op = do
    first ← findbucket fuel h op 1
    elim first [
      | some i ↦ some i
      | none ↦ do
        later ← findbucket fuel h op srchlen
        elim later [ some i ↦ some i | none ↦ some nbuckets ]
    ]

  unfoldable pub krealloc : (fuel srchlen cp nbytes : ℕ) → Heap W → Option (ℕ × Heap W)
  krealloc fuel srchlen cp nbytes h =
      let op : ℕ = sub64 cp overhead_size in
      let i : ℕ = ov_index h.mem op in
      if cp == null
      then kmalloc os nbytes h
      else if nbytes == 0
      then (do h' ← kfree cp h; some (null, h'))
      else if ov_magic h.mem op == magic
      then (do
        onb ← old_size h.pagesz i
        if stays h.pagesz i onb nbytes
            then some (cp, h)
            else (do h' ← kfree cp h; move cp nbytes onb h'))
      else (do j ← free_bucket fuel srchlen h op; onb ← old_size h.pagesz j; move cp nbytes onb h)
