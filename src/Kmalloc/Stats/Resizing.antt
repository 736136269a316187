-- ===== src/Kmalloc/Stats/Resizing.antt =====
-- What `kfree`, `kcalloc` and `krealloc` of a block in use do to `nmalloc` of
-- kmalloc/original/kmalloc.c.
use mathlib.Core.Option.{some-injective}
use challenges.Common.{
  ℕ, ◌-◌, ◌*◌, ◌%◌, ◌^◌, ◌≤◌, ◌≡◌, refl, sym, ap, ◌∙◌, subst, false, none, some, ◌==◌, ◌⊎◌, inl,
  inr, Bool-cases, arith,
}
use challenges.Memory.{Mem, null, copy_bytes, clear_bytes}
use challenges.Kmalloc.{Os, IsOs, overhead_size}
use challenges.Kmalloc.Buckets.{block_size}
use challenges.Kmalloc.Layout.{Owners, IsHeap, IsUsed, used_block}
use challenges.Kmalloc.Free.{data_of, header_of, small, freed, kfree-IsHeap}
use challenges.Kmalloc.Resize.{stays}
use challenges.Kmalloc.Resize.InPlace.{old_size-block}
use challenges.Kmalloc.Stats.{
  Stats, count_up, count_down, stats_kfree, stats_kcalloc, stats_move, stats_krealloc,
}
use challenges.Kmalloc.Stats.Counter.{index_of, Answered, stats_kmalloc-Counted}

-- What lies before the data is not written with it.
copy-index_of : (m : Mem) (src p n : ℕ) → 8 ≤ p → index_of (copy_bytes m src p n) p ≡ index_of m p
unfolding copy_bytes
copy-index_of m src p n big = ground arith

clear-index_of : (m : Mem) (p n : ℕ) → 8 ≤ p → index_of (clear_bytes m p n) p ≡ index_of m p
unfolding clear_bytes
clear-index_of m p n big = ground arith

module _ {W : Type 0} (os : Os W) {brk : W → ℕ} (is_os : IsOs os brk) (s : Stats W) {ow : Owners}
    {len : ℕ → ℕ} (inv : IsHeap brk s.heap ow len) where
  stats_move-Counted : (cp nbytes onb : ℕ) → Answered s (stats_move os cp nbytes onb s)
  unfolding stats_move
  stats_move-Counted cp nbytes onb =
      let (p, s', e, counted) = stats_kmalloc-Counted os is_os s inv nbytes in
      elim counted [
        | inl (none_left, same) ↦ rw (e, none_left) (null, s', refl, inl (refl, same))
        | inr (big, up) ↦
            let real : (p == null) ≡ false = ground (arith, big) in
            elim (Bool-cases (cp == p)) [
              | inl here ↦ rw (e, real, here) (p, s', refl, inr (big, up))
              | inr elsewhere ↦
                  rw (e, real, elsewhere)
                    (
                      p,
                      _,
                      refl,
                      inr (
                        big,
                        up ∙ ap (count_up s.nmalloc) (sym (copy-index_of s'.heap.mem cp p _ big)),
                      ),
                    )
            ]
      ]

  -- A call of `kcalloc` that has a result counts the block.
  pub stats_kcalloc-Counted :
      (nelem elsize p : ℕ) (s' : Stats W)
      → stats_kcalloc os nelem elsize s ≡ some (p, s')
      → (8 ≤ p) × (s'.nmalloc ≡ count_up s.nmalloc (index_of s'.heap.mem p))
  unfolding stats_kcalloc
  stats_kcalloc-Counted nelem elsize p s' result =
      let total : ℕ = nelem * elsize % 2 ^ 64 in
      let (q, s1, e, counted) = stats_kmalloc-Counted os is_os s inv total in
      elim counted [
        | inl (none_left, same) ↦
            let undefined : stats_kcalloc os nelem elsize s ≡ none = rw (e, none_left) refl in
            absurd (let both = sym undefined ∙ result in cc)
        | inr (big, up) ↦
            let real : (q == null) ≡ false = ground (arith, big) in
            let made : stats_kcalloc os nelem elsize s
                ≡ some (
                  q,
                  record s1 { heap = record s1.heap { mem = clear_bytes s1.heap.mem q total } },
                ) =
              rw (e, real) refl in
            subst
              (λ (r : ℕ × Stats W).
                (8 ≤ r.0) × (r.1.nmalloc ≡ count_up s.nmalloc (index_of r.1.heap.mem r.0)))
              (some-injective _ _ (sym made ∙ result))
              (big, up ∙ ap (count_up s.nmalloc) (sym (clear-index_of s1.heap.mem q total big)))
      ]

module _ {W : Type 0} (os : Os W) {brk : W → ℕ} (is_os : IsOs os brk) (s : Stats W) {ow : Owners}
    {len : ℕ → ℕ} (inv : IsHeap brk s.heap ow len) {a b : ℕ} (e : ow a ≡ used_block a b) where
  u : IsUsed s.heap.pagesz s.heap.mem ow a b
  u = inv.used a a b e

  abbrev pub stats_freed : Stats W
  stats_freed = record { heap = freed s.heap a b; nmalloc = count_down s.nmalloc b }

  pub stats_kfree-used : stats_kfree (data_of a) s ≡ some stats_freed
  unfolding stats_kfree
  stats_kfree-used =
      rw (header_of a (small inv a b e), u.marked, u.index) (ground (arith, u.bucket))

  -- The block is freed, it stays, or it is freed and the new one is counted.
  abbrev pub Recounted : ℕ × Stats W → Type 0
  Recounted (q, s') =
      ((q ≡ null) × (s'.nmalloc ≡ count_down s.nmalloc b))
      ⊎ (((q ≡ data_of a) × (s' ≡ s))
          ⊎ ((8 ≤ q) × (s'.nmalloc ≡ count_up (count_down s.nmalloc b) (index_of s'.heap.mem q))))

  pub stats_krealloc-Recounted :
      (fuel srchlen nbytes : ℕ)
      → (r : ℕ × Stats W) × (stats_krealloc os fuel srchlen (data_of a) nbytes s ≡ some r)
        × Recounted r
  unfolding stats_krealloc
  stats_krealloc-Recounted fuel srchlen nbytes =
      let there : (data_of a == null) ≡ false = ground arith in
      elim (Bool-cases (nbytes == 0)) [
        | inl none_asked ↦
            rw (there, none_asked, stats_kfree-used) ((null, stats_freed), refl, inl (refl, refl))
        | inr asked ↦
            let onb : ℕ = block_size s.heap.pagesz b - overhead_size in
            rw
              (
                header_of a (small inv a b e),
                there,
                asked,
                u.marked,
                u.index,
                old_size-block inv.page b u.bucket,
              )
              (elim (Bool-cases (stays s.heap.pagesz b onb nbytes)) [
                | inl keeps ↦ rw keeps ((data_of a, s), refl, inr (inl (refl, refl)))
                | inr goes ↦
                    rw (goes, stats_kfree-used)
                      (let (q, s', done, counted) =
                          stats_move-Counted os is_os stats_freed (kfree-IsHeap inv a b e).1
                            (data_of a) nbytes onb in
                        (
                          (q, s'),
                          done,
                          elim counted [
                            | inl (none_left, same) ↦ inl (none_left, same)
                            | inr (big, up) ↦ inr (inr (big, up))
                          ],
                        ))
              ])
      ]
