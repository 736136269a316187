-- ===== src/Kmalloc/Stats/Program.antt =====
-- A program that uses kmalloc/original/kmalloc.c as it is built with MSTATS, with the steps that
-- Kmalloc/Run has for the other build, and the calls of `kcalloc` whose product wraps: there it may use
-- only as many bytes as the wrapped product tells.
use challenges.Common.{ℕ, ◌+◌, ◌*◌, ◌%◌, ◌^◌, ◌≤◌, ◌<◌, ◌≡◌, ◌≢◌, none, some}
use challenges.Memory.{put, null}
use challenges.Kmalloc.{Os, Heap}
use challenges.Kmalloc.Run.{Live, no_live, set_live}
use challenges.Kmalloc.Stats.{Stats, stats_kmalloc, stats_kfree, stats_kcalloc, stats_krealloc}

pub data StatsStep {W : Type 0} (os : Os W) (s : Stats W) (live : Live)
    : Stats W → Live → Type 0 where
  allocated :
      {s' : Stats W} (nbytes p : ℕ)
      → stats_kmalloc os nbytes s ≡ some (p, s')
      → p ≢ null
      → StatsStep os s live s' (set_live live p (some nbytes))
  refused :
      {s' : Stats W} (nbytes : ℕ)
      → stats_kmalloc os nbytes s ≡ some (null, s')
      → StatsStep os s live s' live
  released :
      {s' : Stats W} (p n : ℕ)
      → live p ≡ some n
      → stats_kfree p s ≡ some s'
      → StatsStep os s live s' (set_live live p none)
  cleared :
      {s' : Stats W} (nelem elsize p : ℕ)
      → stats_kcalloc os nelem elsize s ≡ some (p, s')
      → StatsStep os s live s' (set_live live p (some (nelem * elsize % 2 ^ 64)))
  resized :
      {s' : Stats W} (fuel srchlen p n nbytes q : ℕ)
      → live p ≡ some n
      → stats_krealloc os fuel srchlen p nbytes s ≡ some (q, s')
      → q ≢ null
      → StatsStep os s live s' (set_live (set_live live p none) q (some nbytes))
  dropped :
      {s' : Stats W} (fuel srchlen p n nbytes : ℕ)
      → live p ≡ some n
      → stats_krealloc os fuel srchlen p nbytes s ≡ some (null, s')
      → StatsStep os s live s' (set_live live p none)
  written :
      (p n x v : ℕ)
      → live p ≡ some n
      → p ≤ x
      → x < p + n
      → StatsStep os s live (record s { heap = record s.heap { mem = put s.heap.mem x v } }) live

-- What the program reaches from the heap `h0` with no pointer held and all counters 0.
pub data StatsReach {W : Type 0} (os : Os W) (h0 : Heap W) : Stats W → Live → Type 0 where
  started : StatsReach os h0 (record { heap = h0; nmalloc = λ _. 0 }) no_live
  continued :
      {s s' : Stats W} {live live' : Live}
      → StatsReach os h0 s live
      → StatsStep os s live s' live'
      → StatsReach os h0 s' live'
