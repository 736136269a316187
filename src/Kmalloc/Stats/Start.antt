-- ===== src/Kmalloc/Stats/Start.antt =====
-- A run from the static variables of kmalloc/original/kmalloc.c as they are loaded, with MSTATS: once it
-- has begun it is a run from the heap that the first call sets up.
use challenges.Common.{ℕ, ◌*◌, ◌%◌, ◌^◌, ◌≡◌, ◌≢◌, refl, sym, ◌∙◌, subst, ◌⊎◌, inl, inr}
use challenges.Memory.Words.{minus_one}
use challenges.Kmalloc.{Os, IsOs, Heap}
use challenges.Kmalloc.Buckets.{IsPage}
use challenges.Kmalloc.First.{IsInitial, gap_answer}
use challenges.Kmalloc.Run.{Live, no_live}
use challenges.Kmalloc.Run.Invariant.{none-some}
use challenges.Kmalloc.Run.Start.{first_heap, not_ready, is_ready, setup-first_heap}
use challenges.Kmalloc.Stats.{Stats, stats_kmalloc, stats_kcalloc}
use challenges.Kmalloc.Stats.Program.{
  StatsStep, allocated, refused, released, cleared, resized, dropped, written, StatsReach, started,
  continued,
}

module _ {W : Type 0} (os : Os W) {brk : W → ℕ} (is_os : IsOs os brk) {pagebucket : ℕ}
    (page : IsPage os.page_size pagebucket) {h : Heap W} (init : IsInitial brk h)
    (granted : (gap_answer os is_os page init).0 ≢ minus_one) where
  abbrev pub first : Heap W
  first = first_heap os is_os page init granted

  abbrev uncounted : Heap W → Stats W
  uncounted g = record { heap = g; nmalloc = λ _. 0 }

  stats_kmalloc-first_heap :
      (nbytes : ℕ)
      → stats_kmalloc os nbytes (uncounted h) ≡ stats_kmalloc os nbytes (uncounted first)
  unfolding stats_kmalloc
  stats_kmalloc-first_heap nbytes =
      rw
        (
          not_ready os is_os page init granted,
          is_ready os is_os page init granted,
          setup-first_heap os is_os page init granted,
        )
        refl

  stats_kcalloc-first_heap :
      (nelem elsize : ℕ)
      → stats_kcalloc os nelem elsize (uncounted h)
        ≡ stats_kcalloc os nelem elsize (uncounted first)
  unfolding stats_kcalloc
  stats_kcalloc-first_heap nelem elsize =
      rw (stats_kmalloc-first_heap (nelem * elsize % 2 ^ 64)) refl

  StatsStep-first_heap :
      {s' : Stats W} {live' : Live}
      → StatsStep os (uncounted h) no_live s' live'
      → StatsStep os (uncounted first) no_live s' live'
  StatsStep-first_heap (allocated nbytes p e real) =
      allocated nbytes p (sym (stats_kmalloc-first_heap nbytes) ∙ e) real
  StatsStep-first_heap (refused nbytes e) =
      refused nbytes (sym (stats_kmalloc-first_heap nbytes) ∙ e)
  StatsStep-first_heap (released p n holds e) = absurd (none-some n holds)
  StatsStep-first_heap (cleared nelem elsize p e) =
      cleared nelem elsize p (sym (stats_kcalloc-first_heap nelem elsize) ∙ e)
  StatsStep-first_heap (resized fuel srchlen p n nbytes q holds e real) = absurd (none-some n holds)
  StatsStep-first_heap (dropped fuel srchlen p n nbytes holds e) = absurd (none-some n holds)
  StatsStep-first_heap (written p n x v holds low high) = absurd (none-some n holds)

  pub StatsReach-first_heap :
      {s : Stats W} {live : Live}
      → StatsReach os h s live
      → ((s ≡ uncounted h) × (live ≡ no_live)) ⊎ StatsReach os first s live
  StatsReach-first_heap started = inl (refl, refl)
  StatsReach-first_heap (continued {s} {s'} {live} {live'} r st) = elim (StatsReach-first_heap r) [
    | inl (at_h, no_block) ↦ inr (
        continued started (
          StatsStep-first_heap (
            subst (λ l. StatsStep os (uncounted h) l s' live') no_block
              (subst (λ g. StatsStep os g live s' live') at_h st))))
    | inr r' ↦ inr (continued r' st)
  ]
