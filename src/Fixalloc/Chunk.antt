-- ===== src/Fixalloc/Chunk.antt =====
-- The blocks that rgoffi/go/gocruntime/fixalloc.c cuts from a chunk.
use challenges.Common.{
  ℕ, zero, suc, ◌+◌, ◌*◌, ◌^◌, ◌%◌, ◌≤◌, ◌<◌, ◌≡◌, ◌≢◌, refl, ◌∙◌, ap, true, false, Option, some,
  ◌==◌, ==-ne, arith, ◌>>=◌, List, [], ◌∷◌, ltb, lt→ltb, le→not_ltb,
}
use challenges.Memory.{null}
use challenges.Memory.Words.{add64, add64_of_lt, sub64, sub64_of_le}
use challenges.Fixalloc.{GoRuntime, Fixalloc, fix_alloc_chunk, refill, advance, alloc}

suc_mul : (n s : ℕ) → suc n * s ≡ n * s + s
suc_mul n s = omega arith

-- `alloc`, called `n` times.
unfoldable pub allocs :
    {W : Type 0} → GoRuntime W → (n : ℕ) → Fixalloc W → Option (List ℕ × Fixalloc W)
unfolding alloc
allocs go zero f = some ([], f)
allocs go (suc n) f = do (v, g) ← alloc go f; (vs, h) ← allocs go n g; some (v ∷ vs, h)

-- The ends of the first `n` blocks from `c` on.
unfoldable pub block_ends : (n size c : ℕ) → List ℕ
block_ends zero size c = []
block_ends (suc n) size c = (c + size) ∷ block_ends n size (c + size)

module _ {W : Type 0} (go : GoRuntime W) where
  -- What `alloc` does where a block is left of the chunk and no freed one is there.
  alloc-left :
      (f : Fixalloc W) (k : ℕ)
      → f.size ≢ 0
      → f.list ≡ null
      → f.nchunk ≡ suc k * f.size
      → f.nchunk < 2 ^ 32
      → f.chunk + f.size < 2 ^ 64
      → (alloc go f ≡ some (f.chunk + f.size, (advance f).1))
        × ((advance f).1.nchunk ≡ k * f.size)
        × ((advance f).1.chunk ≡ f.chunk + f.size)
  unfolding alloc refill advance
  alloc-left f k sized empty left small below =
      let started : (f.size == 0) ≡ false = ==-ne f.size 0 sized in
      let none_freed : (f.list == null) ≡ true = rw empty refl in
      let enough : ltb f.nchunk f.size ≡ false =
        le→not_ltb f.nchunk f.size (omega (arith, left, suc_mul k f.size)) in
      let less : sub64 f.nchunk f.size % 2 ^ 32 ≡ k * f.size = omega (
        arith,
        sub64_of_le f.nchunk f.size (omega (arith, small)) (omega (arith, left, suc_mul k f.size)),
        left,
        small,
        suc_mul k f.size,
      ) in
      let next : add64 f.chunk f.size ≡ f.chunk + f.size = add64_of_lt f.chunk f.size below in
      (rw (started, none_freed, enough) (ap (λ v. some (v, (advance f).1)) next), less, next)

  -- What `n` calls of it do.
  allocs-left :
      (n k c : ℕ) (f : Fixalloc W)
      → f.chunk ≡ c
      → f.size ≢ 0
      → f.list ≡ null
      → f.nchunk ≡ (n + k) * f.size
      → f.nchunk < 2 ^ 32
      → c + n * f.size < 2 ^ 64
      → (g : Fixalloc W) × (allocs go n f ≡ some (block_ends n f.size c, g))
        × (g.nchunk ≡ k * f.size)
        × (g.chunk ≡ c + n * f.size)
  unfolding allocs block_ends advance
  allocs-left zero k c f at sized empty left small below =
      (f, refl, left ∙ omega arith, at ∙ omega arith)
  allocs-left (suc n) k c f at sized empty left small below =
      let product : suc (n + k) * f.size ≡ (n + k) * f.size + f.size = suc_mul (n + k) f.size in
      let whole : f.nchunk ≡ suc (n + k) * f.size = left ∙ ap (λ t. t * f.size) (omega arith) in
      let (got, rest, moved) =
        alloc-left f (n + k) sized empty whole small (omega (arith, at, below, suc_mul n f.size)) in
      let (g, others, last, chunk) =
        allocs-left n k (c + f.size) (advance f).1 (moved ∙ ap (λ t. t + f.size) at) sized empty
          rest (omega (arith, rest, whole, product, small))
          (omega (arith, below, suc_mul n f.size)) in
      (g, rw (got, others, at) refl, last, chunk ∙ omega (arith, suc_mul n f.size))

  alloc-refill :
      (f : Fixalloc W) (p : ℕ) (w : W)
      → f.list ≡ null
      → f.nchunk < f.size
      → f.size ≤ f.nalloc
      → go.persistent_alloc f.world f.nalloc ≡ (p, w)
      → alloc go f ≡ alloc go (record f { chunk = p; nchunk = f.nalloc; world = w })
  unfolding alloc refill
  alloc-refill f p w empty short enough granted =
      let none_freed : (f.list == null) ≡ true = rw empty refl in
      rw (none_freed, lt→ltb f.nchunk f.size short, le→not_ltb f.nalloc f.size enough, granted) refl

  -- Where nothing is left of the last chunk, no freed block is there, and a chunk is a whole
  -- number of blocks, that many calls of `alloc` ask for one chunk and return the ends of its
  -- blocks in order, not their beginnings: the last pointer is where the chunk ends.
  pub allocs-chunk :
      (f : Fixalloc W) (n p : ℕ) (w : W)
      → f.size ≢ 0
      → f.list ≡ null
      → f.nchunk ≡ 0
      → f.nalloc ≡ suc n * f.size
      → f.nalloc ≤ fix_alloc_chunk
      → go.persistent_alloc f.world f.nalloc ≡ (p, w)
      → p + f.nalloc < 2 ^ 64
      → (g : Fixalloc W) × (allocs go (suc n) f ≡ some (block_ends (suc n) f.size p, g))
        × (g.nchunk ≡ 0)
        × (g.chunk ≡ p + f.nalloc)
  unfolding allocs
  allocs-chunk f n p w sized empty none_left whole bound granted below =
      let (g, got, left, chunk) =
        allocs-left (suc n) 0 p (record f { chunk = p; nchunk = f.nalloc; world = w }) refl sized
          empty (whole ∙ ap (λ t. t * f.size) (omega arith)) (omega (arith, bound))
          (omega (arith, below, whole)) in
      let asked =
        alloc-refill f p w empty (ground (arith, none_left, sized))
          (omega (arith, whole, suc_mul n f.size)) granted in
      (g, rw asked got, left ∙ omega arith, chunk ∙ omega (arith, whole))
