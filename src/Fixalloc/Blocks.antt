-- ===== src/Fixalloc/Blocks.antt =====
-- The list of freed blocks of rgoffi/go/gocruntime/fixalloc.c: `alloc` after `dealloc`.
use challenges.Common.{ℕ, ◌+◌, ◌^◌, ◌≤◌, ◌<◌, ◌≡◌, ◌≢◌, refl, true, false, some, ◌==◌, ==-ne, arith}
use challenges.Memory.{null, store_pointer}
use challenges.Memory.Laws.{load_pointer-store_pointer}
use challenges.Memory.Words.{add64, sub64}
use challenges.Fixalloc.{GoRuntime, IsGoRuntime, Fixalloc, pop, alloc, dealloc}

add64-sub64 : (a b : ℕ) → a < 2 ^ 64 → add64 (sub64 a b) b ≡ a
unfolding add64 sub64
add64-sub64 a b small = omega arith

-- Where blocks have a size and are to be cleared, and the list and the counter are words, `alloc`
-- right after `dealloc` of a pointer that is not NULL returns that pointer, with the list and the
-- counter as they were before and the block all zero.
pub alloc-dealloc :
    {W : Type 0} (go : GoRuntime W) (rules : IsGoRuntime go) (f : Fixalloc W) (p : ℕ)
    → f.size ≢ 0
    → f.zero ≡ true
    → p ≢ null
    → f.list < 2 ^ 64
    → f.inuse < 2 ^ 64
    → (g : Fixalloc W) × (alloc go (dealloc f p) ≡ some (p, g))
      × (g.list ≡ f.list)
      × (g.inuse ≡ f.inuse)
      × ((q : ℕ) → p ≤ q → q < p + f.size → g.mem q ≡ 0)
unfolding alloc dealloc pop
alloc-dealloc go rules f p sized cleared real list inuse =
    let started : (f.size == 0) ≡ false = ==-ne f.size 0 sized in
    let listed : (p == null) ≡ false = ==-ne p null real in
    (
      (pop go (dealloc f p)).1,
      rw (started, listed) refl,
      load_pointer-store_pointer f.mem p f.list list,
      add64-sub64 f.inuse f.size inuse,
      λ q low high.
          rw cleared (rules.memclr-within (store_pointer f.mem p f.list) p f.size q low high),
    )
