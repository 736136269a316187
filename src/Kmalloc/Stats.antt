-- ===== src/Kmalloc/Stats.antt =====
-- kmalloc/original/kmalloc.c as it is built with MSTATS: the functions that count in `nmalloc`, and
-- `mstats`. What they share with the other build is taken from there.
pub mod Changes
pub mod Counter
pub mod Counts
pub mod Erasure
pub mod Invariant
pub mod Lists
pub mod Program
pub mod Resizing
pub mod Runs
pub mod Start
pub mod Tally
use challenges.Common.{
  ℕ, zero, suc, ◌+◌, ◌-◌, ◌*◌, ◌%◌, ◌^◌, Bool, true, not, Option, none, some, List, [], ◌∷◌, ltb,
  ◌&&◌, leb, ◌==◌, if◌then◌else◌, ◌>>=◌,
}
use challenges.Memory.{Mem, null, clear_bytes, copy_bytes, store_pointer}
use challenges.Memory.Words.{sub64}
use challenges.Kmalloc.{
  Os, Heap, overhead_size, magic, nbuckets, update, ov_magic, ov_index, ov_next, choose_bucket,
  setup, morecore, take_block,
}
use challenges.Kmalloc.Resize.{old_size, stays, free_bucket}

-- The static variables, with `nmalloc`.
pub record Stats (W : Type 0) : Type 0 where
  pub heap : Heap W
  pub nmalloc : ℕ → ℕ

-- `nmalloc[b]++` and `nmalloc[b]--` on an `unsigned int`
abbrev pub count_up : (ℕ → ℕ) → ℕ → ℕ → ℕ
count_up count b = update count b ((count b + 1) % 2 ^ 32)

abbrev pub count_down : (ℕ → ℕ) → ℕ → ℕ → ℕ
count_down count b = update count b ((count b + 2 ^ 32 - 1) % 2 ^ 32)

module _ {W : Type 0} (os : Os W) where
  unfoldable pub stats_take_block : ℕ → Stats W → ℕ × Stats W
  stats_take_block bucket s =
      let (p, h) = take_block os bucket s.heap in
      (p, record { heap = h; nmalloc = count_up s.nmalloc bucket })

  unfoldable pub stats_obtain_block : ℕ → Stats W → Option (ℕ × Stats W)
  unfolding stats_take_block
  stats_obtain_block bucket s =
      if leb nbuckets bucket
      then none
      else if s.heap.nextf bucket == null
      then (do
        h ← morecore os bucket s.heap
        let s' : Stats W = record s { heap = h }
        some (if h.nextf bucket == null then (null, s') else stats_take_block bucket s'))
      else some (stats_take_block bucket s)

  unfoldable pub stats_serve : ℕ → Stats W → Option (ℕ × Stats W)
  stats_serve nbytes s = do
    choice ← choose_bucket s.heap.pagesz s.heap.pagebucket nbytes
    elim choice [ none ↦ some (null, s) | some bucket ↦ stats_obtain_block bucket s ]

  unfoldable pub stats_kmalloc : ℕ → Stats W → Option (ℕ × Stats W)
  stats_kmalloc nbytes s = do
    (ready, h) ← if s.heap.pagesz == 0 then setup os s.heap else some (true, s.heap)
    if ready then stats_serve nbytes (record s { heap = h }) else some (null, record s { heap = h })

unfoldable pub stats_kfree : {W : Type 0} → ℕ → Stats W → Option (Stats W)
stats_kfree cp s =
    let h = s.heap in
    let op : ℕ = sub64 cp overhead_size in
    let size : ℕ = ov_index h.mem op in
    if cp == null
    then some s
    else if not (ov_magic h.mem op == magic)
    then some s
    else if leb nbuckets size
    then none
    else some (record {
      heap = record h {
        mem = store_pointer h.mem op (h.nextf size);
        nextf = update h.nextf size op;
      };
      nmalloc = count_down s.nmalloc size;
    })

module _ {W : Type 0} (os : Os W) where
  unfoldable pub stats_kcalloc : (nelem elsize : ℕ) → Stats W → Option (ℕ × Stats W)
  stats_kcalloc nelem elsize s = do
    let total = nelem * elsize % 2 ^ 64
    (p, s') ← stats_kmalloc os total s
    if p == null
        then none
        else some (p, record s' { heap = record s'.heap { mem = clear_bytes s'.heap.mem p total } })

  unfoldable pub stats_move : (cp nbytes onb : ℕ) → Stats W → Option (ℕ × Stats W)
  stats_move cp nbytes onb s = do
    (res, s') ← stats_kmalloc os nbytes s
    let copied : Mem = copy_bytes s'.heap.mem cp res (if ltb nbytes onb then nbytes else onb)
    if res == null
        then some (null, s')
        else if cp == res
        then some (res, s')
        else some (res, record s' { heap = record s'.heap { mem = copied } })

  unfoldable pub stats_krealloc : (fuel srchlen cp nbytes : ℕ) → Stats W → Option (ℕ × Stats W)
  stats_krealloc fuel srchlen cp nbytes s =
      let h = s.heap in
      let op : ℕ = sub64 cp overhead_size in
      let i : ℕ = ov_index h.mem op in
      if cp == null
      then stats_kmalloc os nbytes s
      else if nbytes == 0
      then (do s' ← stats_kfree cp s; some (null, s'))
      else if ov_magic h.mem op == magic
      then (do
        onb ← old_size h.pagesz i
        if stays h.pagesz i onb nbytes
            then some (cp, s)
            else (do s' ← stats_kfree cp s; stats_move cp nbytes onb s'))
      else (do
        j ← free_bucket os fuel srchlen h op
        onb ← old_size h.pagesz j
        stats_move cp nbytes onb s)

-- `for (j = 0, p = nextf[i]; p; p = p->ov_next, j++);`
unfoldable pub count_list : (fuel : ℕ) → Mem → (p j : ℕ) → Option ℕ
count_list zero m p j = none
count_list (suc fuel) m p j =
    let rest = count_list fuel m (ov_next m p) (j + 1) in
    if p == null then some j else if leb (2 ^ 31 - 1) j then none else rest

-- `a + b` on `int` patterns, for a `b` that is not negative: undefined where the sum overflows.
unfoldable pub sum_int : (a b : ℕ) → Option ℕ
sum_int a b = if ltb a (2 ^ 31) && leb (2 ^ 31) (a + b) then none else some ((a + b) % 2 ^ 32)

-- The loops of `mstats` over `count` more buckets from `i` on: the numbers that they print and the
-- total. `1 << (i + 3)` is undefined where it shifts a one out of the lower 31 bits. The numbers of
-- free blocks and their total are signed, and the counters unsigned, whose total wraps.
unfoldable pub free_loop :
    {W : Type 0} → (count fuel : ℕ) → Heap W → (i totfree : ℕ) → Option (List ℕ × ℕ)
unfolding sum_int
free_loop zero fuel h i totfree = some ([], totfree)
free_loop (suc count) fuel h i totfree =
    let rest = λ (total : ℕ). free_loop count fuel h (i + 1) total in
    do
      j ← count_list fuel h.mem (h.nextf i) 0
      if leb 31 (i + 3) then none else (do
        total ← sum_int totfree (j * 2 ^ (i + 3))
        (printed, last) ← rest total
        some (j ∷ printed, last))

unfoldable pub used_loop : (count : ℕ) → (nmalloc : ℕ → ℕ) → (i totused : ℕ) → Option (List ℕ × ℕ)
used_loop zero nmalloc i totused = some ([], totused)
used_loop (suc count) nmalloc i totused =
    let rest = used_loop count nmalloc (i + 1) ((totused + nmalloc i * 2 ^ (i + 3)) % 2 ^ 32) in
    if leb 31 (i + 3) then none else (do (printed, total) ← rest; some (nmalloc i ∷ printed, total))

-- The two lines and the three totals.
unfoldable pub mstats :
    {W : Type 0} → (fuel : ℕ) → Stats W → Option ((List ℕ × List ℕ) × (ℕ × ℕ × ℕ))
unfolding sum_int
mstats fuel s = do
  (free, totfree) ← free_loop nbuckets fuel s.heap 0 0
  (used, totused) ← used_loop nbuckets s.nmalloc 0 0
  total ← sum_int totused totfree
  some ((free, used), (totused, totfree, total))
