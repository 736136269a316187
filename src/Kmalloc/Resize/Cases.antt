-- ===== src/Kmalloc/Resize/Cases.antt =====
-- The ways that `krealloc` (kmalloc/original/kmalloc.c) goes on a block in use.
use mathlib.Core.Option.{some-injective}
use challenges.Common.{
  ℕ, ◌-◌, ◌<◌, ◌≡◌, refl, sym, ◌∙◌, subst, false, some, ◌==◌, inl, inr, arith, Bool-cases,
  ℕ_discrete,
}
use challenges.Memory.{null}
use challenges.Kmalloc.{Os, IsOs, Heap, overhead_size}
use challenges.Kmalloc.Buckets.{block_size}
use challenges.Kmalloc.Buckets.Choice.{Chosen}
use challenges.Kmalloc.Layout.{used_block, Owners, IsUsed, IsHeap}
use challenges.Kmalloc.Free.{data_of, freed, kfree-IsHeap}
use challenges.Kmalloc.Resize.{krealloc, stays}
use challenges.Kmalloc.Resize.InPlace.{stays-Chosen}
use challenges.Kmalloc.Resize.Move.{IsMoved, krealloc-stays, krealloc-IsMoved}

-- The block is freed where no bytes are asked for, it stays where its bucket serves the new size, or
-- it moves.
pub data Resized {W : Type 0} (os : Os W) (brk : W → ℕ) (h : Heap W) (ow : Owners) (len : ℕ → ℕ)
    (a b nbytes : ℕ) : ℕ × Heap W → Type 0 where
  emptied :
      (r : ℕ × Heap W) → nbytes ≡ 0 → (null, freed h a b) ≡ r → Resized os brk h ow len a b nbytes r
  stayed :
      (r : ℕ × Heap W)
      → Chosen h.pagesz nbytes (some b)
      → (data_of a, h) ≡ r
      → Resized os brk h ow len a b nbytes r
  moved :
      (r : ℕ × Heap W)
      → IsMoved os brk h ow len a b nbytes r.0 r.1
      → Resized os brk h ow len a b nbytes r

module _ {W : Type 0} (os : Os W) {brk : W → ℕ} (is_os : IsOs os brk) (fuel srchlen : ℕ)
    {h : Heap W} {ow : Owners} {len : ℕ → ℕ} (inv : IsHeap brk h ow len) {a b : ℕ}
    (e : ow a ≡ used_block a b) (nbytes : ℕ) where
  u : IsUsed h.pagesz h.mem ow a b
  u = inv.used a a b e

  krealloc-emptied :
      nbytes ≡ 0 → krealloc os fuel srchlen (data_of a) nbytes h ≡ some (null, freed h a b)
  unfolding krealloc
  krealloc-emptied none_asked =
      let there : (data_of a == null) ≡ false = ground arith in
      rw (there, none_asked, (kfree-IsHeap inv a b e).0) refl

  pub krealloc-answer :
      (r : ℕ × Heap W) × (krealloc os fuel srchlen (data_of a) nbytes h ≡ some r)
      × Resized os brk h ow len a b nbytes r
  krealloc-answer = elim (ℕ_discrete nbytes 0) [
    | yes none_asked ↦ ((null, freed h a b), krealloc-emptied none_asked, emptied _ none_asked refl)
    | no some_asked ↦
        let pos : 0 < nbytes = omega (arith, some_asked) in
        elim (Bool-cases (stays h.pagesz b (block_size h.pagesz b - overhead_size) nbytes)) [
          | inl keeps ↦
              let chosen = (stays-Chosen inv.page b nbytes u.bucket pos).0 keeps in
              (
                (data_of a, h),
                krealloc-stays os is_os fuel srchlen inv e nbytes pos chosen,
                stayed _ chosen refl,
              )
          | inr goes ↦
              let (res, h', result, m) =
                krealloc-IsMoved os is_os fuel srchlen inv e nbytes pos goes in
              ((res, h'), result, moved (res, h') m)
        ]
  ]

  -- What a call that has a result has done.
  pub krealloc-Resized :
      (res : ℕ) (h' : Heap W)
      → krealloc os fuel srchlen (data_of a) nbytes h ≡ some (res, h')
      → Resized os brk h ow len a b nbytes (res, h')
  krealloc-Resized res h' result =
      let (r, e', resized) = krealloc-answer in
      subst (λ r. Resized os brk h ow len a b nbytes r)
        (some-injective r (res, h') (sym e' ∙ result)) resized
