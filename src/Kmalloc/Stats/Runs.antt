-- ===== src/Kmalloc/Stats/Runs.antt =====
-- The invariant of the heap in every run of a program that uses kmalloc/original/kmalloc.c as it is built
-- with MSTATS.
use challenges.Common.{ℕ, sym, ap, ◌∙◌}
use challenges.Kmalloc.{Os, IsOs, Heap}
use challenges.Kmalloc.Layout.{IsHeap}
use challenges.Kmalloc.First.{nobody}
use challenges.Kmalloc.Run.{Live, Step, begun}
use challenges.Kmalloc.Run.Invariant.{IsRun}
use challenges.Kmalloc.Run.Resizing.{cleared-IsRun}
use challenges.Kmalloc.Run.Start.{Step-IsRun, Reach-IsRun}
use challenges.Kmalloc.Stats.{Stats}
use challenges.Kmalloc.Stats.Erasure.{erased, erased_state, stats-erased}
use challenges.Kmalloc.Stats.Program.{
  StatsStep, allocated, refused, released, cleared, resized, dropped, written, StatsReach, started,
  continued,
}

module _ {W : Type 0} (os : Os W) {brk : W → ℕ} (is_os : IsOs os brk) where
  -- But for `kcalloc` each step is one of the other build.
  StatsStep-IsRun :
      {s s' : Stats W} {live live' : Live}
      → StatsStep os s live s' live'
      → IsRun brk s.heap live
      → IsRun brk s'.heap live'
  StatsStep-IsRun {s} (allocated nbytes p e real) =
      Step-IsRun os is_os
        (Step.allocated nbytes p (sym (stats-erased os s 0 0 0 nbytes 0 0).0 ∙ ap erased e) real)
  StatsStep-IsRun {s} (refused nbytes e) =
      Step-IsRun os is_os
        (Step.refused nbytes (sym (stats-erased os s 0 0 0 nbytes 0 0).0 ∙ ap erased e))
  StatsStep-IsRun {s} (released p n holds e) =
      Step-IsRun os is_os
        (Step.released p n holds (sym (stats-erased os s 0 0 p 0 0 0).3 ∙ ap erased_state e))
  StatsStep-IsRun {s} (cleared nelem elsize p e) =
      cleared-IsRun os is_os nelem elsize p
        (sym (stats-erased os s 0 0 0 0 nelem elsize).1 ∙ ap erased e)
  StatsStep-IsRun {s} (resized fuel srchlen p n nbytes q holds e real) = Step-IsRun os is_os (
      Step.resized fuel srchlen p n nbytes q holds
        (sym (stats-erased os s fuel srchlen p nbytes 0 0).2 ∙ ap erased e) real)
  StatsStep-IsRun {s} (dropped fuel srchlen p n nbytes holds e) = Step-IsRun os is_os (
      Step.dropped fuel srchlen p n nbytes holds
        (sym (stats-erased os s fuel srchlen p nbytes 0 0).2 ∙ ap erased e))
  StatsStep-IsRun (written p n x v holds low high) =
      Step-IsRun os is_os (Step.written p n x v holds low high)

  pub StatsReach-IsRun :
      {h0 : Heap W} {len0 : ℕ → ℕ} (inv0 : IsHeap brk h0 nobody len0) {s : Stats W} {live : Live}
      → StatsReach os h0 s live
      → IsRun brk s.heap live
  StatsReach-IsRun inv0 started = Reach-IsRun os is_os inv0 begun
  StatsReach-IsRun inv0 (continued r st) = StatsStep-IsRun st (StatsReach-IsRun inv0 r)
