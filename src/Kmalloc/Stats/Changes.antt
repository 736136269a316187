-- ===== src/Kmalloc/Stats/Changes.antt =====
-- What `krealloc` of kmalloc/original/kmalloc.c, as it is built with MSTATS, and the writes of a program
-- do to the pointers that are held and to the counters.
use mathlib.Core.Option.{some-injective}
use challenges.Common.{
  ℕ, ◌+◌, ◌-◌, ◌≤◌, ◌<◌, ◌≡◌, ◌≢◌, refl, sym, ap, ◌∙◌, subst, none, some, inl, inr, arith,
  ℕ_discrete, Option-cases,
}
use challenges.Memory.{null, put}
use challenges.Memory.Laws.{put_ne}
use challenges.Kmalloc.{Os, IsOs, Heap, overhead_size}
use challenges.Kmalloc.Layout.{used_block}
use challenges.Kmalloc.Free.{data_of, freed-spares}
use challenges.Kmalloc.Resize.Cases.{Resized, emptied, stayed, moved}
use challenges.Kmalloc.Run.{Live, set_live}
use challenges.Kmalloc.Run.Invariant.{
  IsRun, none-some, set_live-same, set_live-other, set_live-cases,
}
use challenges.Kmalloc.Run.Resizing.{held-Resized}
use challenges.Kmalloc.Run.Bytes.{held_byte, resized-spares}
use challenges.Kmalloc.Stats.{Stats, count_down, stats_krealloc}
use challenges.Kmalloc.Stats.Erasure.{erased, stats-erased}
use challenges.Kmalloc.Stats.Counter.{index_of}
use challenges.Kmalloc.Stats.Resizing.{Recounted, stats_krealloc-Recounted}
use challenges.Kmalloc.Stats.Tally.{IsTally, same-IsTally, added-IsTally, dropped-IsTally}
use challenges.Kmalloc.Stats.Counts.{header_owner, held-index_of}

module _ {W : Type 0} (os : Os W) {brk : W → ℕ} (is_os : IsOs os brk) {s : Stats W} {live : Live}
    (run : IsRun brk s.heap live) (t : IsTally s.heap.mem live s.nmalloc) where
  module _ (fuel srchlen p n nbytes q : ℕ) {s' : Stats W} (holds : live p ≡ some n)
      (e : stats_krealloc os fuel srchlen p nbytes s ≡ some (q, s')) where
    abbrev start : ℕ
    start = (run.held p n holds).start

    abbrev bucket : ℕ
    bucket = (run.held p n holds).bucket

    what : Resized os brk s.heap run.owners run.lengths start bucket nbytes (q, s'.heap)
    what =
        held-Resized os is_os run fuel srchlen p n nbytes q holds
          (sym (stats-erased os s fuel srchlen p nbytes 0 0).2 ∙ ap erased e)

    recounted : Recounted os is_os s run.heap (run.held p n holds).owner (q, s')
    recounted =
        let c = run.held p n holds in
        let (r, made, counted) =
          stats_krealloc-Recounted os is_os s run.heap c.owner fuel srchlen nbytes in
        subst (Recounted os is_os s run.heap c.owner)
          (some-injective r (q, s')
            (sym made ∙ ap (λ r. stats_krealloc os fuel srchlen r nbytes s) (sym c.pointer) ∙ e))
          counted

    -- Every other block keeps its header.
    spared : (r k : ℕ) → live r ≡ some k → r ≢ p → index_of s'.heap.mem r ≡ index_of s.heap.mem r
    spared r k held_r other =
        resized-spares os run p n nbytes q holds what r k _ held_r other
          (header_owner run r k held_r)

    freed-IsTally :
        (m : ℕ → ℕ)
        → ((r k : ℕ) → live r ≡ some k → r ≢ p → index_of m r ≡ index_of s.heap.mem r)
        → IsTally m (set_live live p none) (count_down s.nmalloc bucket)
    freed-IsTally m same =
        subst (IsTally m (set_live live p none))
          (ap (count_down s.nmalloc) (held-index_of run p n holds))
          (dropped-IsTally t m p n holds same)

    -- What `krealloc` returns is the old pointer, or one that is not held.
    result-free : q ≢ null → set_live live p none q ≡ none
    result-free real = elim (ℕ_discrete q p) [
      | yes same ↦ ap (set_live live p none) same ∙ set_live-same live p none
      | no other ↦ elim (Option-cases (set_live live p none q)) [
        | inl free ↦ free
        | inr (k, held_now) ↦
            let held_q : live q ≡ some k = sym (set_live-other live p q none other) ∙ held_now in
            let b = run.held p n holds in
            let c = run.held q k held_q in
            let apart : c.start ≢ b.start = λ z. other (c.pointer ∙ ap data_of z ∙ sym b.pointer) in
            elim what [
              | emptied _ none_asked at ↦ absurd (real (sym (ap (λ (r : ℕ × Heap W). r.0) at)))
              | stayed _ chosen at ↦
                  absurd (other (sym (ap (λ (r : ℕ × Heap W). r.0) at) ∙ sym b.pointer))
              | moved _ m ↦ elim m.answer [
                | inr none_left ↦ absurd (real none_left)
                | inl (fresh, contents) ↦ absurd (
                    fresh.unused c.start c.start c.bucket (omega (arith, c.pointer, fresh.pointer))
                      (omega (arith, c.pointer, fresh.pointer, fresh.holds))
                      (freed-spares run.heap b.start b.bucket b.owner c.start c.start c.bucket
                        c.owner apart).1)
              ]
            ]
      ]
    ]

    -- The pointer stays held, with another size.
    held_again :
        q ≡ p → IsTally s.heap.mem (set_live (set_live live p none) q (some nbytes)) s.nmalloc
    held_again at =
        same-IsTally t s.heap.mem (set_live (set_live live p none) q (some nbytes))
          (λ r k held_r. (
            refl,
            elim (ℕ_discrete r q) [
              | yes here ↦ (
                nbytes,
                ap (set_live (set_live live p none) q (some nbytes)) here
                    ∙ set_live-same (set_live live p none) q (some nbytes),
              )
              | no other ↦ (
                k,
                set_live-other (set_live live p none) q r (some nbytes) other
                    ∙ set_live-other live p r none (λ z. other (z ∙ sym at))
                    ∙ held_r,
              )
            ],
          ))
          (λ r k held_now.
            elim (set_live-cases (set_live live p none) q r k (some nbytes) held_now) [
              | inl (here, z) ↦ (n, ap live (here ∙ at) ∙ holds)
              | inr (other, still) ↦ elim (set_live-cases live p r k none still) [
                | inl (gone, z) ↦ absurd (none-some k z)
                | inr (apart, held_r) ↦ (k, held_r)
              ]
            ])

    pub resized-IsTally :
        q ≢ null → IsTally s'.heap.mem (set_live (set_live live p none) q (some nbytes)) s'.nmalloc
    resized-IsTally real = elim recounted [
      | inl (none_left, down) ↦ absurd (real none_left)
      | inr (inl (at, same)) ↦
          subst
            (λ (r : Stats W).
              IsTally r.heap.mem (set_live (set_live live p none) q (some nbytes)) r.nmalloc)
            (sym same) (held_again (at ∙ sym (run.held p n holds).pointer))
      | inr (inr (big, up)) ↦
          subst (IsTally s'.heap.mem (set_live (set_live live p none) q (some nbytes))) (sym up) (
            added-IsTally (freed-IsTally s.heap.mem (λ r k held_r other. refl)) s'.heap.mem q nbytes
              (result-free real)
              (λ r k held_now. elim (set_live-cases live p r k none held_now) [
                | inl (here, z) ↦ absurd (none-some k z)
                | inr (other, held_r) ↦ spared r k held_r other
              ]))
    ]

    pub dropped_all-IsTally : q ≡ null → IsTally s'.heap.mem (set_live live p none) s'.nmalloc
    dropped_all-IsTally none_left = elim recounted [
      | inl (z, down) ↦
          subst (IsTally s'.heap.mem (set_live live p none)) (sym down)
            (freed-IsTally s'.heap.mem spared)
      | inr (inl (at, same)) ↦ absurd (omega (arith, at, none_left))
      | inr (inr (big, up)) ↦ absurd (omega (arith, big, none_left))
    ]

  pub written-IsTally :
      (p n x v : ℕ)
      → live p ≡ some n
      → p ≤ x
      → x < p + n
      → IsTally (put s.heap.mem x v) live s.nmalloc
  written-IsTally p n x v holds low high =
      same-IsTally t (put s.heap.mem x v) live (λ q k held_q. (header_kept q k held_q, (k, held_q)))
        (λ q k held_q. (k, held_q))
    where
      header_kept :
          (q k : ℕ) → live q ≡ some k → index_of (put s.heap.mem x v) q ≡ index_of s.heap.mem q
      header_kept q k held_q = put_ne s.heap.mem x v (q - overhead_size + 1) (λ z.
          let c = run.held q k held_q in
          let d = run.held p n holds in
          let mine = header_owner run q k held_q in
          let theirs = held_byte run p n x holds low high in
          let both : used_block c.start c.bucket ≡ used_block d.start d.bucket =
            sym mine ∙ ap run.owners z ∙ theirs in
          let same : c.start ≡ d.start = cc in
          absurd (omega (arith, same, z, c.pointer, d.pointer, low)))
