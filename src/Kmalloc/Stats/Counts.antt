-- ===== src/Kmalloc/Stats/Counts.antt =====
-- The counters of kmalloc/original/kmalloc.c, as it is built with MSTATS, against the pointers that a
-- program holds.
use mathlib.Core.Option.{some-injective}
use challenges.Common.{
  ℕ, ◌+◌, ◌-◌, ◌*◌, ◌%◌, ◌^◌, ◌≡◌, ◌≢◌, sym, ap, ◌∙◌, subst, none, some, inl, inr, arith,
  Option-cases,
}
use challenges.Memory.{null}
use challenges.Kmalloc.{Os, IsOs, Heap, overhead_size, kmalloc}
use challenges.Kmalloc.Layout.{Owners, used_block}
use challenges.Kmalloc.Free.{data_of, freed, freed-spares}
use challenges.Kmalloc.Serve.{IsFresh}
use challenges.Kmalloc.Run.{Live, set_live}
use challenges.Kmalloc.Run.Invariant.{IsRun, served}
use challenges.Kmalloc.Run.Resizing.{kcalloc-some-IsCleared}
use challenges.Kmalloc.Stats.{Stats, count_down, stats_kmalloc, stats_kfree, stats_kcalloc}
use challenges.Kmalloc.Stats.Erasure.{erased, stats-erased}
use challenges.Kmalloc.Stats.Counter.{index_of, Counted, stats_kmalloc-Counted}
use challenges.Kmalloc.Stats.Resizing.{stats_kcalloc-Counted, stats_kfree-used, stats_freed}
use challenges.Kmalloc.Stats.Tally.{IsTally, same-IsTally, added-IsTally, dropped-IsTally}

module _ {W : Type 0} {brk : W → ℕ} {h : Heap W} {live : Live} (run : IsRun brk h live) where
  -- The index byte of a held block is its own.
  pub header_owner :
      (q k : ℕ) (holds : live q ≡ some k)
      → run.owners (q - overhead_size + 1)
        ≡ used_block (run.held q k holds).start (run.held q k holds).bucket
  header_owner q k holds =
      let c = run.held q k holds in
      (run.heap.used c.start c.start c.bucket c.owner).owns (q - overhead_size + 1)
        (omega (arith, c.pointer)) (omega (arith, c.pointer, c.room))

  pub held-index_of :
      (q k : ℕ) (holds : live q ≡ some k) → index_of h.mem q ≡ (run.held q k holds).bucket
  held-index_of q k holds =
      let c = run.held q k holds in
      let at : q - overhead_size + 1 ≡ c.start + 1 = omega (arith, c.pointer) in
      ap h.mem at ∙ (run.heap.used c.start c.start c.bucket c.owner).index

  -- A new block stands where the program holds none.
  fresh-free :
      {after : Owners} {nbytes p : ℕ} → IsFresh h.pagesz run.owners after nbytes p → live p ≡ none
  fresh-free {p = p} fresh = elim (Option-cases (live p)) [
    | inl free ↦ free
    | inr (k, holds) ↦
        let c = run.held p k holds in
        absurd (
          fresh.unused c.start c.start c.bucket (omega (arith, c.pointer, fresh.pointer))
            (omega (arith, c.pointer, fresh.pointer, fresh.holds)) c.owner)
  ]

module _ {W : Type 0} (os : Os W) {brk : W → ℕ} (is_os : IsOs os brk) {s : Stats W} {live : Live}
    (run : IsRun brk s.heap live) (t : IsTally s.heap.mem live s.nmalloc) where
  kmalloc-Counted :
      (nbytes p : ℕ) (s' : Stats W) → stats_kmalloc os nbytes s ≡ some (p, s') → Counted s (p, s')
  kmalloc-Counted nbytes p s' e =
      let (q, s1, made, counted) = stats_kmalloc-Counted os is_os s run.heap nbytes in
      subst (Counted s) (some-injective (q, s1) (p, s') (sym made ∙ e)) counted

  pub allocated-IsTally :
      (nbytes p : ℕ) (s' : Stats W)
      → stats_kmalloc os nbytes s ≡ some (p, s')
      → p ≢ null
      → IsTally s'.heap.mem (set_live live p (some nbytes)) s'.nmalloc
  allocated-IsTally nbytes p s' e real =
      let plain : kmalloc os nbytes s.heap ≡ some (p, s'.heap) =
        sym (stats-erased os s 0 0 0 nbytes 0 0).0 ∙ ap erased e in
      let sv = served os is_os run.heap nbytes p plain in
      elim (kmalloc-Counted nbytes p s' e) [
        | inl (none_left, same) ↦ absurd (real none_left)
        | inr (big, up) ↦ elim sv.answer [
          | inr (none_left, why) ↦ absurd (real none_left)
          | inl fresh ↦ subst (IsTally s'.heap.mem (set_live live p (some nbytes))) (sym up) (
              added-IsTally t s'.heap.mem p nbytes (fresh-free run fresh)
                (λ q k holds. (sv.keeps _ _ _ (header_owner run q k holds)).0))
        ]
      ]

  pub refused-IsTally :
      (nbytes : ℕ) (s' : Stats W)
      → stats_kmalloc os nbytes s ≡ some (null, s')
      → IsTally s'.heap.mem live s'.nmalloc
  refused-IsTally nbytes s' e =
      let plain : kmalloc os nbytes s.heap ≡ some (null, s'.heap) =
        sym (stats-erased os s 0 0 0 nbytes 0 0).0 ∙ ap erased e in
      let sv = served os is_os run.heap nbytes null plain in
      elim (kmalloc-Counted nbytes null s' e) [
        | inr (big, up) ↦ absurd (omega (arith, big))
        | inl (none_left, same) ↦ subst (IsTally s'.heap.mem live) (sym same) (
            same-IsTally t s'.heap.mem live
              (λ q k holds. ((sv.keeps _ _ _ (header_owner run q k holds)).0, (k, holds)))
              (λ q k holds. (k, holds)))
      ]

  pub cleared-IsTally :
      (nelem elsize p : ℕ) (s' : Stats W)
      → stats_kcalloc os nelem elsize s ≡ some (p, s')
      → IsTally s'.heap.mem (set_live live p (some (nelem * elsize % 2 ^ 64))) s'.nmalloc
  cleared-IsTally nelem elsize p s' e =
      let plain = sym (stats-erased os s 0 0 0 0 nelem elsize).1 ∙ ap erased e in
      let c = kcalloc-some-IsCleared os is_os run.heap nelem elsize p plain in
      let (big, up) = stats_kcalloc-Counted os is_os s run.heap nelem elsize p s' e in
      subst (IsTally s'.heap.mem (set_live live p (some (nelem * elsize % 2 ^ 64)))) (sym up) (
        added-IsTally t s'.heap.mem p (nelem * elsize % 2 ^ 64) (fresh-free run c.fresh)
          (λ q k holds. (c.keeps _ _ _ (header_owner run q k holds)).0))

  pub released-IsTally :
      (p n : ℕ) (s' : Stats W)
      → live p ≡ some n
      → stats_kfree p s ≡ some s'
      → IsTally s'.heap.mem (set_live live p none) s'.nmalloc
  released-IsTally p n s' holds e =
      let c = run.held p n holds in
      let at : stats_kfree p s ≡ some (stats_freed os is_os s run.heap c.owner) =
        ap (λ r. stats_kfree r s) c.pointer ∙ stats_kfree-used os is_os s run.heap c.owner in
      subst (λ (r : Stats W). IsTally r.heap.mem (set_live live p none) r.nmalloc)
        (some-injective _ _ (sym at ∙ e))
        (subst (IsTally (freed s.heap c.start c.bucket).mem (set_live live p none))
          (ap (count_down s.nmalloc) (held-index_of run p n holds))
          (dropped-IsTally t (freed s.heap c.start c.bucket).mem p n holds (λ q k holds_q other.
            let d = run.held q k holds_q in
            (freed-spares run.heap c.start c.bucket c.owner _ d.start d.bucket
              (header_owner run q k holds_q)
              (λ z. other (d.pointer ∙ ap data_of z ∙ sym c.pointer))).0)))
