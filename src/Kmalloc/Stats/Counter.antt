-- ===== src/Kmalloc/Stats/Counter.antt =====
-- What a call does to `nmalloc` of kmalloc/original/kmalloc.c: the counter of the bucket that the header
-- names goes up with a new block, and down with one that is freed.
use challenges.Common.{
  ℕ, ◌+◌, ◌-◌, ◌^◌, ◌≤◌, ◌<◌, ◌≡◌, ◌≢◌, refl, sym, ap, ◌∙◌, Option, none, some, ◌==◌, ==_iff, ==-ne,
  if◌then◌else◌, ◌⊎◌, inl, inr, Bool-cases, arith, lt→not_leb,
}
use challenges.Memory.{null, put}
use challenges.Memory.Laws.{put_self}
use challenges.Memory.Words.{add64, add64_of_lt}
use challenges.Kmalloc.{Os, IsOs, Heap, nbuckets, overhead_size, ov_index, take_block}
use challenges.Kmalloc.Buckets.{last_bucket, pagesz-ge}
use challenges.Kmalloc.Buckets.Choice.{Chosen, choose_bucket-Chosen}
use challenges.Kmalloc.Layout.{Owners, IsHeap}
use challenges.Kmalloc.Free.{Chain-lt}
use challenges.Kmalloc.Morecore.{morecore-Grown}
use challenges.Kmalloc.Stats.{
  Stats, count_up, stats_take_block, stats_obtain_block, stats_serve, stats_kmalloc,
}

-- The index byte in the header before the data at `p`.
abbrev pub index_of : (ℕ → ℕ) → ℕ → ℕ
index_of m p = ov_index m (p - overhead_size)

-- NULL is not counted, and a block is.
abbrev pub Counted : {W : Type 0} → Stats W → ℕ × Stats W → Type 0
Counted s (p, s') =
    ((p ≡ null) × (s'.nmalloc ≡ s.nmalloc))
    ⊎ ((8 ≤ p) × (s'.nmalloc ≡ count_up s.nmalloc (index_of s'.heap.mem p)))

abbrev pub Answered : {W : Type 0} → Stats W → Option (ℕ × Stats W) → Type 0
Answered {W} s r = (p : ℕ) × (s' : Stats W) × (r ≡ some (p, s')) × Counted s (p, s')

module _ {W : Type 0} (os : Os W) where
  stats_take_block-Counted :
      (b : ℕ) (s : Stats W)
      → s.heap.nextf b ≢ 0
      → s.heap.nextf b < 2 ^ 63
      → b < nbuckets
      → Counted s (stats_take_block os b s)
  unfolding stats_take_block take_block
  stats_take_block-Counted b s real small in_range =
      let op : ℕ = s.heap.nextf b in
      let at : add64 op 8 ≡ op + 8 = add64_of_lt op 8 (omega (arith, small)) in
      let index : put (put s.heap.mem op 0xef) (op + 1) b (add64 op 8 - 8 + 1) ≡ b =
        ap (put (put s.heap.mem op 0xef) (op + 1) b) (omega (arith, at))
        ∙ put_self (put s.heap.mem op 0xef) (op + 1) b
        ∙ omega (arith, in_range) in
      inr (omega (arith, at), ap (count_up s.nmalloc) (sym index))

  module _ {brk : W → ℕ} (is_os : IsOs os brk) (s : Stats W) {ow : Owners} {len : ℕ → ℕ}
      (inv : IsHeap brk s.heap ow len) where
    -- Where the bucket has been empty, and `morecore` has been called.
    refilled-Counted :
        (b : ℕ) (h : Heap W) {ow' : Owners} {len' : ℕ → ℕ}
        → b < nbuckets
        → IsHeap brk h ow' len'
        → Answered s (
            some (
              if h.nextf b == null
              then (null, record s { heap = h })
              else stats_take_block os b (record s { heap = h })))
    refilled-Counted b h {len' = len'} lt inv' = elim (Bool-cases (h.nextf b == null)) [
      | inl still ↦ rw still (null, record s { heap = h }, refl, inl (refl, refl))
      | inr grown ↦ rw grown (
        (stats_take_block os b (record s { heap = h })).0,
        (stats_take_block os b (record s { heap = h })).1,
        refl,
        stats_take_block-Counted b (record s { heap = h }) (ground (arith, grown))
            (Chain-lt inv' b (len' b) (h.nextf b) (inv'.chains b lt)).0 lt,
      )
    ]

    stats_obtain_block-Counted : (b : ℕ) → b ≤ last_bucket → Answered s (stats_obtain_block os b s)
    unfolding stats_obtain_block
    stats_obtain_block-Counted b le =
        rw (lt→not_leb nbuckets b (omega arith)) (elim (Bool-cases (s.heap.nextf b == null)) [
          | inr full ↦ rw full (
            (stats_take_block os b s).0,
            (stats_take_block os b s).1,
            refl,
            stats_take_block-Counted b s (ground (arith, full))
                (Chain-lt inv b (len b) (s.heap.nextf b) (inv.chains b (omega (arith, le)))).0
                (omega (arith, le)),
          )
          | inl empty ↦
              let (h, e, (same_page, outcome)) =
                morecore-Grown os is_os inv b le ((==_iff (s.heap.nextf b) null).0 empty) in
              rw (empty, e)
                (elim outcome [
                  | inl (none_there, why, inv', same) ↦
                      refilled-Counted b h (omega (arith, le)) inv'
                  | inr (ow', n, inv', same) ↦ refilled-Counted b h (omega (arith, le)) inv'
                ])
        ])

    Chosen-Counted :
        (nbytes : ℕ) (r : Option ℕ)
        → Chosen s.heap.pagesz nbytes r
        → Answered s (elim r [ none ↦ some (null, s) | some b ↦ stats_obtain_block os b s ])
    Chosen-Counted nbytes none chosen = (null, s, refl, inl (refl, refl))
    Chosen-Counted nbytes (some b) chosen = stats_obtain_block-Counted b chosen.1

    -- A call of `kmalloc` counts the block that it returns.
    pub stats_kmalloc-Counted : (nbytes : ℕ) → Answered s (stats_kmalloc os nbytes s)
    unfolding stats_kmalloc stats_serve
    stats_kmalloc-Counted nbytes =
        let (r, e, chosen) = choose_bucket-Chosen inv.page nbytes in
        rw (==-ne s.heap.pagesz 0 (λ z. absurd (omega (arith, pagesz-ge inv.page, z))), e)
          (Chosen-Counted nbytes r chosen)
