-- ===== src/Fixalloc/Run/Counts.antt =====
-- How many blocks of rgoffi/go/gocruntime/fixalloc.c a program holds, and what the allocator knows of it.
use mathlib.Core.Option.{some-injective}
use challenges.Common.{
  ℕ, suc, ◌<◌, ◌≡◌, ◌≢◌, ◌⊎◌, inl, inr, refl, sym, ◌∙◌, subst, Bool, true, false, some, List, [],
  ◌∷◌, ◌==◌, ==_iff, ==-ne, ℕ_discrete, dec_lt, Bool-cases, length, remove, Among, IsDistinct,
  remove-le, remove-IsDistinct, remove-ne, remove-kept, length-remove,
}
use challenges.Memory.{Mem, null}
use challenges.Fixalloc.{GoRuntime, Fixalloc, init, pop, refill, advance, alloc, dealloc}
use challenges.Fixalloc.Invariant.{
  IsFixalloc, init-IsFixalloc, alloc-IsFixalloc, dealloc-IsFixalloc,
}
use challenges.Fixalloc.Run.{
  IsPersistent, Live, set_live, Step, allocated, released, written, Reach, begun, later,
}
use challenges.Fixalloc.Run.Owners.{IsSlab}
use challenges.Fixalloc.Run.Keeps.{set_live-cases, list-free, refill-IsSlab}
use challenges.Fixalloc.Run.Changes.{advance-free}
use challenges.Fixalloc.Run.Safety.{alloc-cases, Reach-IsSlab}

-- The pointers that the program holds, each once, are as many as the allocator's live blocks.
pub record IsCounted {W : Type 0} (f : Fixalloc W) (live : Live) : Type 0 where
  pub pointers : List ℕ
  pub distinct : IsDistinct pointers
  pub held : (p : ℕ) → Among p pointers → live p ≡ true
  pub complete : (p : ℕ) → live p ≡ true → Among p pointers
  pub fixalloc : IsFixalloc f (length pointers)

set_live-same : (live : Live) (p q : ℕ) (b : Bool) → q ≡ p → set_live live p b q ≡ b
set_live-same live p q b same = let test : (q == p) ≡ true = (==_iff q p).1 same in rw test refl

set_live-other : (live : Live) (p q : ℕ) (b : Bool) → q ≢ p → set_live live p b q ≡ live q
set_live-other live p q b other = let test : (q == p) ≡ false = ==-ne q p other in rw test refl

module _ {W : Type 0} {f : Fixalloc W} {live : Live} (c : IsCounted f live) where
  added-IsCounted :
      {g : Fixalloc W} (p : ℕ)
      → live p ≡ false
      → IsFixalloc g (suc (length c.pointers))
      → IsCounted g (set_live live p true)
  unfolding length
  added-IsCounted p free inv = record {
    pointers = p ∷ c.pointers;
    distinct = (λ a. let both = sym free ∙ c.held p a in absurd (cc), c.distinct);
    held = λ q a. elim (ℕ_discrete q p) [
      | yes here ↦ set_live-same live p q true here
      | no other ↦ elim a [
        | inl here ↦ absurd (other here)
        | inr behind ↦ set_live-other live p q true other ∙ c.held q behind
      ]
    ];
    complete = λ q e. elim (set_live-cases live p q true e) [
      | inl (here, t) ↦ inl here
      | inr (other, t) ↦ inr (c.complete q t)
    ];
    fixalloc = inv;
  }

  dealloc-IsCounted : (p : ℕ) → live p ≡ true → IsCounted (dealloc f p) (set_live live p false)
  dealloc-IsCounted p holds = record {
    pointers = remove p c.pointers;
    distinct = remove-IsDistinct p c.pointers c.distinct;
    held = λ q a.
        set_live-other live p q false (remove-ne p q c.pointers c.distinct a)
        ∙ c.held q (remove-le p q c.pointers a);
    complete = λ q e. elim (set_live-cases live p q false e) [
      | inl (here, t) ↦ absurd (cc)
      | inr (other, t) ↦ remove-kept p q c.pointers other (c.complete q t)
    ];
    fixalloc =
        dealloc-IsFixalloc p
          (subst (IsFixalloc f) (length-remove p c.pointers (c.complete p holds)) c.fixalloc);
  }

  written-IsCounted : (m : Mem) → IsCounted (record f { mem = m }) live
  written-IsCounted m = record {
    pointers = c.pointers;
    distinct = c.distinct;
    held = c.held;
    complete = c.complete;
    fixalloc = record {
      size-ge = c.fixalloc.size-ge;
      blocks = c.fixalloc.blocks;
      left = c.fixalloc.left;
      counted = c.fixalloc.counted;
    };
  }

init-IsCounted :
    {W : Type 0} (size : ℕ) (f : Fixalloc W) {g : Fixalloc W}
    → init size f ≡ some g
    → IsCounted g (λ p. false)
unfolding length
init-IsCounted size f {g} e = elim (init-IsFixalloc size f) [
  | inl (failed, large) ↦ absurd (let both = sym failed ∙ e in cc)
  | inr (h, made, inv, least, empty, none_left) ↦ record {
    pointers = [];
    distinct = tt;
    held = λ p a. absurd a;
    complete = λ p z. absurd (cc);
    fixalloc = subst (λ k. IsFixalloc k 0) (some-injective h g (sym made ∙ e)) inv;
  }
]

module _ {W : Type 0} (go : GoRuntime W) {exhausted : W → ℕ → Bool} {taken : W → ℕ → Bool}
    (rules : IsPersistent go exhausted taken) where
  -- What `alloc` hands out is not held.
  alloc-free :
      {f g : Fixalloc W} {live : Live} (v : ℕ)
      → (f.list ≡ null → f.nchunk < f.size → exhausted f.world f.nalloc ≡ false)
      → alloc go f ≡ some (v, g)
      → IsSlab taken f live
      → live v ≡ false
  unfolding pop
  alloc-free {f} {g} {live} v granted e inv = elim (alloc-cases go rules inv) [
    | inl (empty, made) ↦
        let (kept, enough) = refill-IsSlab go rules inv (granted empty) in
        subst (λ (r : ℕ × Fixalloc W). live r.0 ≡ false)
          (some-injective (advance (refill go f)) (v, g) (sym made ∙ e)) (advance-free kept enough)
    | inr (listed, made) ↦
        subst (λ (r : ℕ × Fixalloc W). live r.0 ≡ false)
          (some-injective (pop go f) (v, g) (sym made ∙ e)) (list-free go rules inv listed)
  ]

  Step-IsCounted :
      {f g : Fixalloc W} {live live' : Live}
      → Step go exhausted f live g live'
      → IsSlab taken f live
      → IsCounted f live
      → IsCounted g live'
  Step-IsCounted {g = g} (allocated v granted e) inv c =
      let (u, h, made, more, sized) = alloc-IsFixalloc go c.fixalloc in
      added-IsCounted c v (alloc-free v granted e inv) (
        subst (λ (r : ℕ × Fixalloc W). IsFixalloc r.1 (suc (length c.pointers)))
          (some-injective (u, h) (v, g) (sym made ∙ e)) more)
  Step-IsCounted (released p holds) inv c = dealloc-IsCounted c p holds
  Step-IsCounted (written p x v holds low high) inv c = written-IsCounted c _

  Reach-IsCounted :
      {size : ℕ} {f g : Fixalloc W} {live : Live}
      → Reach go exhausted size f g live
      → IsCounted g live
  Reach-IsCounted {size} {f} (begun e) = init-IsCounted size f e
  Reach-IsCounted (later r st) = Step-IsCounted st (Reach-IsSlab go rules r) (Reach-IsCounted r)

  -- From an allocator that `init` has set up, over a runtime that gives no byte to two chunks and
  -- is not exhausted by a chunk that is asked for, in any run of a program that gives back only
  -- blocks it holds and writes only into them, there is a list of the blocks that the program
  -- holds, each once, the allocator is well formed with as many live blocks, whose bytes modulo 2
  -- ^ 64 are its counter of bytes in use, and `alloc` does not throw, and returns a block that
  -- the program does not hold, or asks for a chunk by which the runtime is exhausted.
  pub Reach-alloc :
      {size : ℕ} {f g : Fixalloc W} {live : Live}
      → Reach go exhausted size f g live
      → IsCounted g live
        × ((v : ℕ) × (h : Fixalloc W) × (alloc go g ≡ some (v, h))
            × ((live v ≡ false)
                ⊎ ((g.list ≡ null) × (g.nchunk < g.size) × (exhausted g.world g.nalloc ≡ true))))
  Reach-alloc {g = g} {live} r =
      let c = Reach-IsCounted r in
      let (v, h, made, more, sized) = alloc-IsFixalloc go c.fixalloc in
      let free : (g.list ≡ null → g.nchunk < g.size → exhausted g.world g.nalloc ≡ false)
          → live v ≡ false =
        λ granted. alloc-free v granted made (Reach-IsSlab go rules r) in
      (
        c,
        (
          v,
          h,
          made,
          elim (ℕ_discrete g.list null) [
            | no listed ↦ inl (free (λ z short. absurd (listed z)))
            | yes empty ↦ elim (dec_lt g.nchunk g.size) [
              | no enough ↦ inl (free (λ z short. absurd (enough short)))
              | yes short ↦ elim (Bool-cases (exhausted g.world g.nalloc)) [
                | inl full ↦ inr (empty, short, full)
                | inr granted ↦ inl (free (λ z s. granted))
              ]
            ]
          ],
        ),
      )
