-- ===== src/Kmalloc/Run/Bytes.antt =====
-- The bytes that a program asked for, through `krealloc` of kmalloc/original/kmalloc.c.
use challenges.Common.{
  ℕ, ◌+◌, ◌-◌, ◌≤◌, ◌<◌, ◌≡◌, ◌≢◌, sym, ap, ◌∙◌, subst, some, inl, inr, ◌⊎◌, arith, ℕ_discrete,
  dec_lt,
}
use challenges.Kmalloc.{Os, Heap}
use challenges.Kmalloc.Layout.{used_block}
use challenges.Kmalloc.Free.{data_of, freed-spares}
use challenges.Kmalloc.Resize.Cases.{Resized, emptied, stayed, moved}
use challenges.Kmalloc.Run.{Live}
use challenges.Kmalloc.Run.Invariant.{IsRun}

-- A byte that was asked for belongs to the block.
pub held_byte :
    {W : Type 0} {brk : W → ℕ} {h : Heap W} {live : Live} (run : IsRun brk h live) (p n x : ℕ)
    (holds : live p ≡ some n)
    → p ≤ x
    → x < p + n
    → run.owners x ≡ used_block (run.held p n holds).start (run.held p n holds).bucket
held_byte run p n x holds low high =
    let k = run.held p n holds in
    (run.heap.used k.start k.start k.bucket k.owner).owns x (omega (arith, low, k.pointer))
      (omega (arith, high, k.pointer, k.room))

module _ {W : Type 0} (os : Os W) {brk : W → ℕ} {h h' : Heap W} {live : Live}
    (run : IsRun brk h live) (p n nbytes q : ℕ) (holds : live p ≡ some n)
    (r : Resized os brk h run.owners run.lengths
      (run.held p n holds).start
      (run.held p n holds).bucket
      nbytes
      (q, h')) where
  -- The bytes of another block stay.
  pub resized-spares :
      (t k x : ℕ) (held_t : live t ≡ some k)
      → t ≢ p
      → run.owners x ≡ used_block (run.held t k held_t).start (run.held t k held_t).bucket
      → h'.mem x ≡ h.mem x
  resized-spares t k x held_t other mine =
      let b = run.held p n holds in
      let c = run.held t k held_t in
      let apart : c.start ≢ b.start = λ z. other (c.pointer ∙ ap data_of z ∙ sym b.pointer) in
      elim r [
        | emptied _ none_asked at ↦
            sym (ap (λ (s : ℕ × Heap W). s.1.mem x) at)
            ∙ (freed-spares run.heap b.start b.bucket b.owner x c.start c.bucket mine apart).0
        | stayed _ chosen at ↦ sym (ap (λ (s : ℕ × Heap W). s.1.mem x) at)
        | moved _ m ↦ (m.keeps x c.start c.bucket mine apart).0
      ]

  -- A byte of the block itself stays, or the block is at another place, or too short for the byte.
  pub resized-keeps :
      (x : ℕ) → p ≤ x → x < p + n → (h'.mem x ≡ h.mem x) ⊎ ((q ≢ p) ⊎ ((q ≡ p) × (p + nbytes ≤ x)))
  resized-keeps x low high =
      let b = run.held p n holds in
      elim r [
        | emptied _ none_asked at ↦
            inr (inl (λ z. absurd (omega (arith, ap (λ (s : ℕ × Heap W). s.0) at, z, b.pointer))))
        | stayed _ chosen at ↦ inl (sym (ap (λ (s : ℕ × Heap W). s.1.mem x) at))
        | moved _ m ↦ elim (ℕ_discrete q p) [
          | no other ↦ inr (inl other)
          | yes same ↦ elim (dec_lt x (p + nbytes)) [
            | no short ↦ inr (inr (same, omega (arith, short)))
            | yes within ↦ elim m.answer [
              | inr none_left ↦ absurd (omega (arith, none_left, same, b.pointer))
              | inl (fresh, contents) ↦
                  let there : q + (x - p) ≡ x = omega (arith, same, low) in
                  let here : data_of b.start + (x - p) ≡ x = omega (arith, b.pointer, low) in
                  inl (
                    subst (λ y. h'.mem y ≡ h.mem x) there
                      (subst (λ y. h'.mem (q + (x - p)) ≡ h.mem y) here
                        (contents (x - p) (omega (arith, low, within))
                          (omega (arith, low, high, b.room)))))
            ]
          ]
        ]
      ]
