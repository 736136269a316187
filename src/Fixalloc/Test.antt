-- ===== src/Fixalloc/Test.antt =====
-- `test` of rgoffi/go/gocruntime/fixalloc.c: a node that is allocated, filled and given back.
use challenges.Common.{
  List, [], ◌∷◌, ℕ, ◌+◌, ◌%◌, ◌^◌, ◌<◌, ◌≡◌, refl, ◌∙◌, Option, none, some, true, false, ◌==◌,
  ==-ne, if◌then◌else◌, ◌>>=◌, arith, inl, inr,
}
use challenges.Memory.{Mem, null, load_pointer, store_pointer}
use challenges.Memory.Laws.{load_pointer-store_pointer, load_pointer-cong, store_pointer-Outside}
use challenges.Memory.Words.{add64, sub64}
use challenges.Fixalloc.{GoRuntime, Fixalloc, init, refill, advance, alloc, dealloc}

-- sizeof (struct node)
abbrev pub node_size : ℕ
node_size = 16

-- Where `next` lies in it.
abbrev pub next_at : ℕ → ℕ
next_at n = n + 8

-- The address and the fields of a node, as a line of output shows them.
pub record Shown : Type 0 where
  pub address : ℕ
  pub content : ℕ
  pub next : ℕ

abbrev pub show : Mem → ℕ → Shown
show m n = record { address = n; content = load_pointer m n; next = load_pointer m (next_at n) }

-- A line of output: a node, or that it is about to be given back, which puts writes with an empty line.
pub data Line : Type 0 where
  node_line : Shown → Line
  freeing : Line

-- The lines, and the allocator at the end. A failed assertion aborts, like a throw.
unfoldable pub test : {W : Type 0} → GoRuntime W → Fixalloc W → Option (List Line × Fixalloc W)
test go f = do
  g ← init node_size f
  (n, h) ← alloc go g
  if n == null
      then none
      else let filled : Mem = store_pointer (store_pointer h.mem n 0xcafebabe) (next_at n) null in
        let k = dealloc (record h { mem = filled }) n in
        some (node_line (show filled n) ∷ (freeing ∷ (node_line (show k.mem n) ∷ [])), k)

-- The allocator for the nodes, and what the first call of `alloc` makes of it.
abbrev ready : {W : Type 0} → Fixalloc W → Fixalloc W
ready f = record f {
  size = node_size;
  list = null;
  chunk = 0;
  nchunk = 0;
  nalloc = 16384;
  inuse = 0;
  zero = true;
}

abbrev first : {W : Type 0} → GoRuntime W → Fixalloc W → Fixalloc W
first go f =
    let (p, w) = go.persistent_alloc f.world 16384 in
    record (ready f) { chunk = p + node_size; nchunk = 16368; inuse = node_size; world = w }

init-ready : {W : Type 0} (f : Fixalloc W) → init node_size f ≡ some (ready f)
unfolding init
init-ready f = refl

alloc-first :
    {W : Type 0} (go : GoRuntime W) (f : Fixalloc W)
    → (go.persistent_alloc f.world 16384).0 + node_size < 2 ^ 64
    → alloc go (ready f) ≡ some ((go.persistent_alloc f.world 16384).0 + node_size, first go f)
unfolding alloc refill advance add64
alloc-first go f small =
    let next : ((go.persistent_alloc f.world 16384).0 + 16) % 2 ^ 64
        ≡ (go.persistent_alloc f.world 16384).0 + 16 =
      omega (arith, small) in
    rw next refl

-- The fields of a node, after it has been filled and after it has been given back.
module _ (m : Mem) (n : ℕ) where
  abbrev filled : Mem
  filled = store_pointer (store_pointer m n 0xcafebabe) (next_at n) null

  filled-content : load_pointer filled n ≡ 0xcafebabe
  filled-content =
      load_pointer-cong filled (store_pointer m n 0xcafebabe) n (λ q low high.
        store_pointer-Outside (store_pointer m n 0xcafebabe) (next_at n) null q
          (inl (omega (arith, high))))
      ∙ load_pointer-store_pointer m n 0xcafebabe (omega arith)

  filled-next : load_pointer filled (next_at n) ≡ null
  filled-next =
      load_pointer-store_pointer (store_pointer m n 0xcafebabe) (next_at n) null (omega arith)

  freed-content : load_pointer (store_pointer filled n null) n ≡ 0
  freed-content = load_pointer-store_pointer filled n null (omega arith)

  freed-next : load_pointer (store_pointer filled n null) (next_at n) ≡ null
  freed-next =
      load_pointer-cong (store_pointer filled n null) filled (next_at n)
        (λ q low high. store_pointer-Outside filled n null q (inr (omega (arith, low))))
      ∙ filled-next

-- Where the end of the first block of the chunk that the runtime gives is below 2 ^ 64, `test` ends
-- and shows that end as the address of its node both times, first with the number it stored, and,
-- after the line that says that the node is given back, with 0 in its place; the node is then the
-- head of the list, and no byte is in use.
pub test-shown :
    {W : Type 0} (go : GoRuntime W) (f : Fixalloc W)
    → (go.persistent_alloc f.world 16384).0 + node_size < 2 ^ 64
    → (k : Fixalloc W) × (n : ℕ) × (n ≡ (go.persistent_alloc f.world 16384).0 + node_size)
      × (test go f
          ≡ some (
            node_line (record { address = n; content = 0xcafebabe; next = null })
                ∷ (freeing ∷ (node_line (record { address = n; content = 0; next = null }) ∷ [])),
            k,
          ))
      × (k.list ≡ n)
      × (k.inuse ≡ 0)
unfolding test dealloc sub64
test-shown go f small =
    let n : ℕ = (go.persistent_alloc f.world 16384).0 + node_size in
    let real : (n == null) ≡ false = ==-ne n null (λ z. absurd (omega (arith, z))) in
    (
      record (first go f) { inuse = 0; mem = store_pointer (filled f.mem n) n null; list = n },
      n,
      refl,
      rw (init-ready, alloc-first go f small, real)
          (rw
            (filled-content f.mem n, filled-next f.mem n, freed-content f.mem n, freed-next f.mem n)
            refl),
      refl,
      refl,
    )
