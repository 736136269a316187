-- ===== src/Kmalloc/Stats/Invariant.antt =====
-- The counters of kmalloc/original/kmalloc.c, as it is built with MSTATS, after any run of a program.
use challenges.Common.{ℕ, refl, sym, subst, inl, inr, arith, []}
use challenges.Memory.{Mem, null}
use challenges.Kmalloc.{Os, IsOs, Heap}
use challenges.Kmalloc.Layout.{IsHeap}
use challenges.Kmalloc.First.{nobody}
use challenges.Kmalloc.Run.{Live, no_live}
use challenges.Kmalloc.Run.Invariant.{IsRun, none-some}
use challenges.Kmalloc.Run.Start.{IsStart, set_up, loaded, first_heap-IsHeap}
use challenges.Kmalloc.Stats.Start.{StatsReach-first_heap}
use challenges.Kmalloc.Stats.{Stats}
use challenges.Kmalloc.Stats.Tally.{IsTally, tally}
use challenges.Kmalloc.Stats.Counts.{
  allocated-IsTally, refused-IsTally, cleared-IsTally, released-IsTally,
}
use challenges.Kmalloc.Stats.Program.{
  StatsStep, allocated, refused, released, cleared, resized, dropped, written, StatsReach, started,
  continued,
}
use challenges.Kmalloc.Stats.Runs.{StatsReach-IsRun}
use challenges.Kmalloc.Stats.Changes.{resized-IsTally, dropped_all-IsTally, written-IsTally}

module _ {W : Type 0} (os : Os W) {brk : W → ℕ} (is_os : IsOs os brk) where
  StatsStep-IsTally :
      {s s' : Stats W} {live live' : Live}
      → StatsStep os s live s' live'
      → IsRun brk s.heap live
      → IsTally s.heap.mem live s.nmalloc
      → IsTally s'.heap.mem live' s'.nmalloc
  StatsStep-IsTally {s' = s'} (allocated nbytes p e real) run t =
      allocated-IsTally os is_os run t nbytes p s' e real
  StatsStep-IsTally {s' = s'} (refused nbytes e) run t = refused-IsTally os is_os run t nbytes s' e
  StatsStep-IsTally {s' = s'} (released p n holds e) run t =
      released-IsTally os is_os run t p n s' holds e
  StatsStep-IsTally {s' = s'} (cleared nelem elsize p e) run t =
      cleared-IsTally os is_os run t nelem elsize p s' e
  StatsStep-IsTally (resized fuel srchlen p n nbytes q holds e real) run t =
      resized-IsTally os is_os run t fuel srchlen p n nbytes q holds e real
  StatsStep-IsTally (dropped fuel srchlen p n nbytes holds e) run t =
      dropped_all-IsTally os is_os run t fuel srchlen p n nbytes null holds e refl
  StatsStep-IsTally (written p n x v holds low high) run t =
      written-IsTally os is_os run t p n x v holds low high

  -- No pointer is held, and nothing is counted.
  empty-IsTally : (m : Mem) → IsTally m no_live (λ _. 0)
  unfolding tally
  empty-IsTally m = record {
    pointers = [];
    distinct = tt;
    held = λ p a. absurd a;
    complete = λ p n e. none-some n e;
    counts = λ b. omega arith;
  }

  set_up-IsTally :
      {h0 : Heap W} {len0 : ℕ → ℕ} (inv0 : IsHeap brk h0 nobody len0) {s : Stats W} {live : Live}
      → StatsReach os h0 s live
      → IsTally s.heap.mem live s.nmalloc
  set_up-IsTally {h0} inv0 started = empty-IsTally h0.mem
  set_up-IsTally inv0 (continued r st) =
      StatsStep-IsTally st (StatsReach-IsRun os is_os inv0 r) (set_up-IsTally inv0 r)

  -- In the build with MSTATS, from a well-formed heap with no block in use, or from the static
  -- variables as they are loaded, where the memory above the break is zero, the page size is a
  -- power of two and `sbrk` has memory to align the break, with all counters 0, in any run of a
  -- program that calls `kmalloc`, `kcalloc`, `krealloc` and `kfree`, frees and resizes only
  -- pointers it holds and writes only bytes it asked for, which for `kcalloc` are the product
  -- modulo 2 ^ 64, there is a list of the pointers that the program holds, each once, and
  -- `nmalloc` of a bucket is the number of those whose header names the bucket, modulo 2 ^ 32.
  pub StatsReach-IsTally :
      {h0 : Heap W}
      → IsStart os is_os h0
      → {s : Stats W} {live : Live} → StatsReach os h0 s live
      → IsTally s.heap.mem live s.nmalloc
  StatsReach-IsTally (set_up len inv0) r = set_up-IsTally inv0 r
  StatsReach-IsTally {h0} (loaded page init granted) {s} {live} r =
      elim (StatsReach-first_heap os is_os page init granted r) [
        | inr r' ↦ set_up-IsTally (first_heap-IsHeap os is_os page init granted) r'
        | inl (at_h, no_block) ↦
            subst (λ (t : Stats W). IsTally t.heap.mem live t.nmalloc) (sym at_h)
              (subst (λ l. IsTally h0.mem l (λ _. 0)) (sym no_block) (empty-IsTally h0.mem))
      ]
