-- ===== src/Kmalloc/Run/Resizing.antt =====
-- The invariant of a program that uses kmalloc/original/kmalloc.c, through `kcalloc` and `krealloc`.
use mathlib.Core.Option.{some-injective}
use challenges.Common.{ℕ, ◌*◌, ◌%◌, ◌^◌, ◌≡◌, ◌≢◌, sym, ap, ◌∙◌, subst, none, some, inl, inr, arith}
use challenges.Memory.{null}
use challenges.Kmalloc.{Os, IsOs, Heap, kfree}
use challenges.Kmalloc.Buckets.Choice.{Chosen}
use challenges.Kmalloc.Layout.{Owners, IsHeap}
use challenges.Kmalloc.Free.{data_of, freed, kfree-IsHeap}
use challenges.Kmalloc.Resize.{kcalloc, krealloc}
use challenges.Kmalloc.Resize.Calloc.{IsCleared, kcalloc-IsCleared}
use challenges.Kmalloc.Resize.Move.{IsMoved}
use challenges.Kmalloc.Resize.Cases.{Resized, emptied, stayed, moved, krealloc-Resized}
use challenges.Kmalloc.Run.{Live, set_live}
use challenges.Kmalloc.Run.Invariant.{
  IsHeld, IsRun, none-some, set_live-cases, kept-IsHeld, fresh-IsHeld, released-IsRun,
}

module _ {W : Type 0} (os : Os W) {brk : W → ℕ} (is_os : IsOs os brk) where
  -- What `kcalloc` returns, if it has a result.
  pub kcalloc-some-IsCleared :
      {h h' : Heap W} {ow : Owners} {len : ℕ → ℕ} (inv : IsHeap brk h ow len) (nelem elsize p : ℕ)
      → kcalloc os nelem elsize h ≡ some (p, h')
      → IsCleared brk h ow (nelem * elsize % 2 ^ 64) p h'
  kcalloc-some-IsCleared {h} {h'} {ow} inv nelem elsize p e =
      elim (kcalloc-IsCleared os is_os inv nelem elsize) [
        | inl (q, g, result, c) ↦
            subst (λ (r : ℕ × Heap W). IsCleared brk h ow (nelem * elsize % 2 ^ 64) r.0 r.1)
              (some-injective (q, g) (p, h') (sym result ∙ e)) c
        | inr (undefined, why) ↦ absurd (let both = sym undefined ∙ e in cc)
      ]

  pub cleared-IsRun :
      {h h' : Heap W} {live : Live} (nelem elsize p : ℕ)
      → kcalloc os nelem elsize h ≡ some (p, h')
      → IsRun brk h live
      → IsRun brk h' (set_live live p (some (nelem * elsize % 2 ^ 64)))
  cleared-IsRun {h} {h'} {live} nelem elsize p e run =
      let c = kcalloc-some-IsCleared run.heap nelem elsize p e in
      record {
        owners = c.owners;
        lengths = c.lengths;
        heap = c.heap;
        held = λ q n f. elim (set_live-cases live p q n (some (nelem * elsize % 2 ^ 64)) f) [
          | inl (at, g) ↦
              fresh-IsHeld c.same_page c.fresh at (some-injective (nelem * elsize % 2 ^ 64) n g)
          | inr (other, g) ↦
              let k = run.held q n g in
              kept-IsHeld c.same_page k (c.keeps k.start k.start k.bucket k.owner).1
        ];
      }

  -- What `krealloc` does with a pointer that is held.
  pub held-Resized :
      {h h' : Heap W} {live : Live} (run : IsRun brk h live) (fuel srchlen p n nbytes q : ℕ)
      (holds : live p ≡ some n)
      → krealloc os fuel srchlen p nbytes h ≡ some (q, h')
      → Resized os brk h run.owners run.lengths
          (run.held p n holds).start
          (run.held p n holds).bucket
          nbytes
          (q, h')
  held-Resized {h} {h'} run fuel srchlen p n nbytes q holds e =
      let k = run.held p n holds in
      krealloc-Resized os is_os fuel srchlen run.heap k.owner nbytes q h'
        (ap (λ t. krealloc os fuel srchlen t nbytes h) (sym k.pointer) ∙ e)

  -- Every other block that is held is so after a move.
  moved-IsHeld :
      {h h' : Heap W} {live : Live} (run : IsRun brk h live) {p n nbytes res : ℕ}
      (holds : live p ≡ some n)
      (m : IsMoved os brk h run.owners run.lengths
        (run.held p n holds).start
        (run.held p n holds).bucket
        nbytes
        res
        h')
      (q k : ℕ)
      → q ≢ p
      → live q ≡ some k
      → IsHeld h' m.owners q k
  moved-IsHeld run {p} {n} holds m q k other f =
      let b = run.held p n holds in
      let c = run.held q k f in
      let apart : c.start ≢ b.start = λ z. other (c.pointer ∙ ap data_of z ∙ sym b.pointer) in
      kept-IsHeld m.same_page c (m.keeps c.start c.start c.bucket c.owner apart).1

  stayed-IsRun :
      {h : Heap W} {live : Live} (run : IsRun brk h live) (p n nbytes : ℕ) (holds : live p ≡ some n)
      → Chosen h.pagesz nbytes (some (run.held p n holds).bucket)
      → IsRun brk h
          (set_live (set_live live p none) (data_of (run.held p n holds).start) (some nbytes))
  stayed-IsRun {h} {live} run p n nbytes holds chosen =
      let k = run.held p n holds in
      record {
        owners = run.owners;
        lengths = run.lengths;
        heap = run.heap;
        held = λ q m f.
            elim (set_live-cases (set_live live p none) (data_of k.start) q m (some nbytes) f) [
              | inl (at, g) ↦ record {
                start = k.start;
                bucket = k.bucket;
                pointer = at;
                owner = k.owner;
                room = omega (arith, chosen, some-injective nbytes m g);
              }
              | inr (other, g) ↦ elim (set_live-cases live p q m none g) [
                | inl (same, none_left) ↦ absurd (none-some m none_left)
                | inr (apart, f') ↦ run.held q m f'
              ]
            ];
      }

  moved-IsRun :
      {h h' : Heap W} {live : Live} (run : IsRun brk h live) (p n nbytes q : ℕ)
      (holds : live p ≡ some n)
      → IsMoved os brk h run.owners run.lengths
          (run.held p n holds).start
          (run.held p n holds).bucket
          nbytes
          q
          h'
      → q ≢ null
      → IsRun brk h' (set_live (set_live live p none) q (some nbytes))
  moved-IsRun {h} {h'} {live} run p n nbytes q holds m real = record {
    owners = m.owners;
    lengths = m.lengths;
    heap = m.heap;
    held = λ t k f. elim (set_live-cases (set_live live p none) q t k (some nbytes) f) [
      | inl (at, g) ↦ elim m.answer [
        | inl (fresh, contents) ↦ fresh-IsHeld m.same_page fresh at (some-injective nbytes k g)
        | inr none_left ↦ absurd (real none_left)
      ]
      | inr (other, g) ↦ elim (set_live-cases live p t k none g) [
        | inl (same, none_left) ↦ absurd (none-some k none_left)
        | inr (apart, f') ↦ moved-IsHeld run holds m t k apart f'
      ]
    ];
  }

  pub resized-IsRun :
      {h h' : Heap W} {live : Live} (fuel srchlen p n nbytes q : ℕ)
      → live p ≡ some n
      → krealloc os fuel srchlen p nbytes h ≡ some (q, h')
      → q ≢ null
      → IsRun brk h live
      → IsRun brk h' (set_live (set_live live p none) q (some nbytes))
  resized-IsRun {h} {h'} {live} fuel srchlen p n nbytes q holds e real run =
      elim (held-Resized run fuel srchlen p n nbytes q holds e) [
        | emptied r none_asked at ↦ absurd (real (sym (ap (λ (r : ℕ × Heap W). r.0) at)))
        | stayed r chosen at ↦
            subst
              (λ (r : ℕ × Heap W).
                IsRun brk r.1 (set_live (set_live live p none) r.0 (some nbytes)))
              at (stayed-IsRun run p n nbytes holds chosen)
        | moved r m ↦ moved-IsRun run p n nbytes q holds m real
      ]

  pub dropped-IsRun :
      {h h' : Heap W} {live : Live} (fuel srchlen p n nbytes : ℕ)
      → live p ≡ some n
      → krealloc os fuel srchlen p nbytes h ≡ some (null, h')
      → IsRun brk h live
      → IsRun brk h' (set_live live p none)
  dropped-IsRun {h} {h'} {live} fuel srchlen p n nbytes holds e run =
      let k = run.held p n holds in
      elim (held-Resized run fuel srchlen p n nbytes null holds e) [
        | emptied r none_asked at ↦
            let freed_now : kfree p h ≡ some (freed h k.start k.bucket) =
              ap (λ t. kfree t h) k.pointer ∙ (kfree-IsHeap run.heap k.start k.bucket k.owner).0 in
            subst (λ (r : ℕ × Heap W). IsRun brk r.1 (set_live live p none)) at
              (released-IsRun os is_os p n holds freed_now run)
        | stayed r chosen at ↦ absurd (omega (arith, ap (λ (r : ℕ × Heap W). r.0) at))
        | moved r m ↦ record {
          owners = m.owners;
          lengths = m.lengths;
          heap = m.heap;
          held = λ t j f. elim (set_live-cases live p t j none f) [
            | inl (same, none_left) ↦ absurd (none-some j none_left)
            | inr (apart, f') ↦ moved-IsHeld run holds m t j apart f'
          ];
        }
      ]
