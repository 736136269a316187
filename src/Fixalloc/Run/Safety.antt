-- ===== src/Fixalloc/Run/Safety.antt =====
-- What a program that uses rgoffi/go/gocruntime/fixalloc.c sees of its blocks.
use mathlib.Core.Option.{some-injective}
use challenges.Common.{
  ℕ, ◌+◌, ◌≤◌, ◌<◌, ◌≡◌, ◌≢◌, ◌⊎◌, inl, inr, refl, sym, ap, ◌∙◌, subst, Bool, true, false, some,
  ◌==◌, ltb, Bool-cases, arith, ==_iff, ==-ne, ℕ_discrete,
}
use challenges.Memory.{put, null}
use challenges.Memory.Laws.{put_ne, store_pointer-Outside}
use challenges.Fixalloc.{GoRuntime, Fixalloc, pop, refill, advance, alloc, dealloc}
use challenges.Fixalloc.Run.{
  IsPersistent, Live, set_live, Step, allocated, released, written, Reach, begun, later,
}
use challenges.Fixalloc.Run.Owners.{live_block, outside, IsSlab}
use challenges.Fixalloc.Run.Keeps.{pop-IsSlab, refill-IsSlab, pop-spares}
use challenges.Fixalloc.Run.Changes.{advance-IsSlab, init-IsSlab}
use challenges.Fixalloc.Run.Release.{dealloc-IsSlab, written-IsSlab}

module _ {W : Type 0} (go : GoRuntime W) {exhausted : W → ℕ → Bool} {taken : W → ℕ → Bool}
    (rules : IsPersistent go exhausted taken) where
  -- The two ways of `alloc`.
  pub alloc-cases :
      {f : Fixalloc W} {live : Live} (inv : IsSlab taken f live)
      → ((f.list ≡ null) × (alloc go f ≡ some (advance (refill go f))))
        ⊎ ((f.list ≢ null) × (alloc go f ≡ some (pop go f)))
  unfolding alloc
  alloc-cases {f} inv =
      let sized : (f.size == 0) ≡ false =
        ==-ne f.size 0 (λ z. absurd (omega (arith, z, inv.size-ge))) in
      elim (Bool-cases (f.list == null)) [
        | inl empty ↦ inl ((==_iff f.list null).0 empty, rw (sized, empty) refl)
        | inr listed ↦
            inr (
              λ z. let both = sym ((==_iff f.list null).1 z) ∙ listed in cc,
              rw (sized, listed) refl,
            )
      ]

  allocated-IsSlab :
      {f g : Fixalloc W} {live : Live} (v : ℕ)
      → (f.list ≡ null → f.nchunk < f.size → exhausted f.world f.nalloc ≡ false)
      → alloc go f ≡ some (v, g)
      → IsSlab taken f live
      → IsSlab taken g (set_live live v true)
  allocated-IsSlab {f} {g} {live} v granted e inv = elim (alloc-cases inv) [
    | inl (empty, made) ↦
        let (kept, enough) = refill-IsSlab go rules inv (granted empty) in
        subst (λ (r : ℕ × Fixalloc W). IsSlab taken r.1 (set_live live r.0 true))
          (some-injective (advance (refill go f)) (v, g) (sym made ∙ e))
          (advance-IsSlab kept enough)
    | inr (listed, made) ↦
        subst (λ (r : ℕ × Fixalloc W). IsSlab taken r.1 (set_live live r.0 true))
          (some-injective (pop go f) (v, g) (sym made ∙ e)) (pop-IsSlab go rules inv listed)
  ]

  Step-IsSlab :
      {f g : Fixalloc W} {live live' : Live}
      → Step go exhausted f live g live'
      → IsSlab taken f live
      → IsSlab taken g live'
  Step-IsSlab (allocated v granted e) inv = allocated-IsSlab v granted e inv
  Step-IsSlab (released p holds) inv = dealloc-IsSlab inv p holds
  Step-IsSlab (written p x v holds low high) inv = written-IsSlab inv p x v holds low high

  pub Reach-IsSlab :
      {size : ℕ} {f g : Fixalloc W} {live : Live}
      → Reach go exhausted size f g live
      → IsSlab taken g live
  Reach-IsSlab {size} {f} (begun {g} e) = init-IsSlab taken size f g e
  Reach-IsSlab (later r st) = Step-IsSlab st (Reach-IsSlab r)

  -- From an allocator that `init` has set up, over a runtime that gives no byte to two chunks and
  -- is not exhausted by a chunk that is asked for, in any run of a program that gives back only
  -- blocks it holds and writes only into them, two blocks that it holds have no byte in common.
  pub Reach-disjoint :
      {size : ℕ} {f g : Fixalloc W} {live : Live} (p q x : ℕ)
      → Reach go exhausted size f g live
      → live p ≡ true
      → live q ≡ true
      → p ≢ q
      → p ≤ x
      → x < p + g.size
      → (x < q) ⊎ (q + g.size ≤ x)
  Reach-disjoint {g = g} p q x r held_p held_q other low high =
      let inv = Reach-IsSlab r in
      outside inv.owners q g.size (live_block q) x (inv.held q held_q).2 (λ z.
        let mine = (inv.held p held_p).2 x low high in
        let both = sym mine ∙ z in let same : p ≡ q = cc in other same)

  -- From an allocator that `init` has set up, over a runtime that gives no byte to two chunks and
  -- is not exhausted by a chunk that is asked for, in any run of a program that gives back only
  -- blocks it holds and writes only into them, a byte of a block that the program holds changes
  -- in a step only where the program writes into that byte or gives the block back; `alloc`, and
  -- `dealloc` of another block, leave it as it is.
  pub Step-spares :
      {size : ℕ} {f g h : Fixalloc W} {live live' : Live} (p x : ℕ)
      → Reach go exhausted size f g live
      → Step go exhausted g live h live'
      → live p ≡ true
      → p ≤ x
      → x < p + g.size
      → (h.mem x ≡ g.mem x)
        ⊎ (((v : ℕ) × (h ≡ record g { mem = put g.mem x v })) ⊎ (live' p ≡ false))
  Step-spares {g = g} {h} {live} p x r (allocated v granted e) held low high =
      let inv = Reach-IsSlab r in
      inl (elim (alloc-cases inv) [
        | inl (empty, made) ↦
            sym (
              ap (λ (s : ℕ × Fixalloc W). s.1.mem x)
                (some-injective (advance (refill go g)) (v, h) (sym made ∙ e)))
            ∙ advance_mem g x
        | inr (listed, made) ↦
            sym (
              ap (λ (s : ℕ × Fixalloc W). s.1.mem x)
                (some-injective (pop go g) (v, h) (sym made ∙ e)))
            ∙ pop-spares go rules inv listed p x held low high
      ])
    where
      advance_mem : (g : Fixalloc W) (x : ℕ) → (advance (refill go g)).1.mem x ≡ g.mem x
      advance_mem g x =
          unfold advance refill in
          elim (Bool-cases (ltb g.nchunk g.size)) [
            | inl short ↦ rw short refl
            | inr enough ↦ rw enough refl
          ]
  Step-spares {g = g} {live = live} p x r (released q holds) held low high = elim (ℕ_discrete p q) [
    | yes same ↦ let test : (p == q) ≡ true = (==_iff p q).1 same in inr (inr (rw test refl))
    | no other ↦
        let inv = Reach-IsSlab r in
        inl (dealloc_mem g inv.size-ge (Reach-disjoint p q x r held holds other low high))
  ]
    where
      dealloc_mem :
          (g : Fixalloc W) → 8 ≤ g.size → (x < q) ⊎ (q + g.size ≤ x) → (dealloc g q).mem x ≡ g.mem x
      dealloc_mem g big (inl before) =
          unfold dealloc in store_pointer-Outside g.mem q g.list x (inl before)
      dealloc_mem g big (inr behind) =
          unfold dealloc in
          store_pointer-Outside g.mem q g.list x (inr (omega (arith, behind, big)))
  Step-spares {g = g} p x r (written q y v holds low_y high_y) held low high =
      elim (ℕ_discrete y x) [
        | yes here ↦ inr (inl (v, ap (λ z. record g { mem = put g.mem z v }) here))
        | no elsewhere ↦ inl (put_ne g.mem y v x (λ z. elsewhere (sym z)))
      ]
