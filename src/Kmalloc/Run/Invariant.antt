-- ===== src/Kmalloc/Run/Invariant.antt =====
-- The invariant of a program that uses kmalloc/original/kmalloc.c.
use mathlib.Core.Option.{some-injective}
use challenges.Common.{
  ℕ, suc, ◌+◌, ◌≤◌, ◌<◌, ◌≡◌, ◌≢◌, refl, sym, ap, ◌∙◌, subst, Option, none, some, ◌==◌, ==_iff,
  ==_refl, ==-ne, true, false, inl, inr, ◌⊎◌, arith, ℕ_discrete,
}
use challenges.Memory.{put, null}
use challenges.Memory.Laws.{put-IsBytes, put_ne}
use challenges.Kmalloc.{Os, IsOs, Heap, kmalloc, kfree, overhead_size, update}
use challenges.Kmalloc.Buckets.{block_size}
use challenges.Kmalloc.Layout.{Owners, used_block, free_block, claim, IsHeap}
use challenges.Kmalloc.Layout.Payload.{IsPayload, payload-IsHeap}
use challenges.Kmalloc.Free.{data_of, freed, freed-spares, kfree-IsHeap}
use challenges.Kmalloc.Serve.{IsServed, IsFresh}
use challenges.Kmalloc.First.{kmalloc-IsServed}
use challenges.Kmalloc.Run.{Live, set_live}

-- The pointer is the data of a block in use that holds `n` bytes.
pub record IsHeld {W : Type 0} (h : Heap W) (ow : Owners) (p n : ℕ) : Type 0 where
  pub start : ℕ
  pub bucket : ℕ
  pub pointer : p ≡ data_of start
  pub owner : ow start ≡ used_block start bucket
  pub room : n + overhead_size ≤ block_size h.pagesz bucket

pub record IsRun {W : Type 0} (brk : W → ℕ) (h : Heap W) (live : Live) : Type 0 where
  pub owners : Owners
  pub lengths : ℕ → ℕ
  pub heap : IsHeap brk h owners lengths
  pub held : (p n : ℕ) → live p ≡ some n → IsHeld h owners p n

pub none-some : (n : ℕ) → none ≡ some n → ⊥
none-some n e = cc

pub set_live-same : (live : Live) (p : ℕ) (r : Option ℕ) → set_live live p r p ≡ r
set_live-same live p r = rw (==_refl p) refl

pub set_live-other : (live : Live) (p q : ℕ) (r : Option ℕ) → q ≢ p → set_live live p r q ≡ live q
set_live-other live p q r other = rw (==-ne q p other) refl

pub set_live-cases :
    (live : Live) (p q n : ℕ) (r : Option ℕ)
    → set_live live p r q ≡ some n
    → ((q ≡ p) × (r ≡ some n)) ⊎ ((q ≢ p) × (live q ≡ some n))
set_live-cases live p q n r e = elim (ℕ_discrete q p) [
  | yes same ↦
      let test : (q == p) ≡ true = (==_iff q p).1 same in
      let found : set_live live p r q ≡ r = rw test refl in inl (same, sym found ∙ e)
  | no other ↦
      let test : (q == p) ≡ false = ==-ne q p other in
      let found : set_live live p r q ≡ live q = rw test refl in inr (other, sym found ∙ e)
]

-- A block that is held stays so where it keeps its owner.
pub kept-IsHeld :
    {W : Type 0} {h h' : Heap W} {ow ow' : Owners} {q n : ℕ}
    → h'.pagesz ≡ h.pagesz
    → (k : IsHeld h ow q n) → ow' k.start ≡ used_block k.start k.bucket
    → IsHeld h' ow' q n
kept-IsHeld same_page k owner = record {
  start = k.start;
  bucket = k.bucket;
  pointer = k.pointer;
  owner = owner;
  room = rw same_page k.room;
}

-- A new block is held.
pub fresh-IsHeld :
    {W : Type 0} {h' : Heap W} {pagesz : ℕ} {before after : Owners} {nbytes p q n : ℕ}
    → h'.pagesz ≡ pagesz
    → (fresh : IsFresh pagesz before after nbytes p) → q ≡ p
    → nbytes ≡ n
    → IsHeld h' after q n
fresh-IsHeld same_page fresh at asked = record {
  start = fresh.start;
  bucket = fresh.bucket;
  pointer = at ∙ fresh.pointer;
  owner = fresh.owns fresh.start (omega arith) (omega (arith, fresh.holds));
  room = rw same_page (omega (arith, fresh.holds, asked));
}

module _ {W : Type 0} (os : Os W) {brk : W → ℕ} (is_os : IsOs os brk) where
  pub served :
      {h h' : Heap W} {ow : Owners} {len : ℕ → ℕ} (inv : IsHeap brk h ow len) (nbytes p : ℕ)
      → kmalloc os nbytes h ≡ some (p, h')
      → IsServed os brk h ow nbytes p h'
  served {h} {h'} {ow} inv nbytes p e =
      let (p1, h1, e1, s) = kmalloc-IsServed os is_os inv nbytes in
      subst (λ r. IsServed os brk h ow nbytes r.0 r.1) (some-injective _ _ (sym e1 ∙ e)) s

  served-IsHeld :
      {h h' : Heap W} {ow : Owners} {nbytes p q n : ℕ}
      → (s : IsServed os brk h ow nbytes p h') → IsHeld h ow q n
      → IsHeld h' s.owners q n
  served-IsHeld s k = kept-IsHeld s.same_page k (s.keeps k.start k.start k.bucket k.owner).1

  pub allocated-IsRun :
      {h h' : Heap W} {live : Live} (nbytes p : ℕ)
      → kmalloc os nbytes h ≡ some (p, h')
      → p ≢ null
      → IsRun brk h live
      → IsRun brk h' (set_live live p (some nbytes))
  allocated-IsRun {h} {h'} {live} nbytes p e real run =
      let s = served run.heap nbytes p e in
      record {
        owners = s.owners;
        lengths = s.lengths;
        heap = s.heap;
        held = λ q n f. elim (set_live-cases live p q n (some nbytes) f) [
          | inl (at, g) ↦ elim s.answer [
            | inl fresh ↦ fresh-IsHeld s.same_page fresh at (some-injective nbytes n g)
            | inr (none_left, why) ↦ absurd (real none_left)
          ]
          | inr (other, g) ↦ served-IsHeld s (run.held q n g)
        ];
      }

  pub refused-IsRun :
      {h h' : Heap W} {live : Live} (nbytes : ℕ)
      → kmalloc os nbytes h ≡ some (null, h')
      → IsRun brk h live
      → IsRun brk h' live
  refused-IsRun nbytes e run =
      let s = served run.heap nbytes null e in
      record {
        owners = s.owners;
        lengths = s.lengths;
        heap = s.heap;
        held = λ q n f. served-IsHeld s (run.held q n f);
      }

  pub released-IsRun :
      {h h' : Heap W} {live : Live} (p n : ℕ)
      → live p ≡ some n
      → kfree p h ≡ some h'
      → IsRun brk h live
      → IsRun brk h' (set_live live p none)
  released-IsRun {h} {h'} {live} p n holds e run =
      let k = run.held p n holds in
      let freed_now = kfree-IsHeap run.heap k.start k.bucket k.owner in
      let at : kfree p h ≡ some (freed h k.start k.bucket) =
        ap (λ t. kfree t h) k.pointer ∙ freed_now.0 in
      subst (λ g. IsRun brk g (set_live live p none)) (some-injective _ _ (sym at ∙ e))
        (record {
          owners =
              claim run.owners k.start (block_size h.pagesz k.bucket)
                (free_block k.start k.bucket (run.lengths k.bucket));
          lengths = update run.lengths k.bucket (suc (run.lengths k.bucket));
          heap = freed_now.1;
          held = λ q m f. elim (set_live-cases live p q m none f) [
            | inl (same, g) ↦ absurd (none-some m g)
            | inr (other, g) ↦
                let o = run.held q m g in
                let apart : o.start ≢ k.start =
                  λ z. other (o.pointer ∙ ap data_of z ∙ sym k.pointer) in
                record {
                  start = o.start;
                  bucket = o.bucket;
                  pointer = o.pointer;
                  owner =
                      (freed-spares run.heap k.start k.bucket k.owner o.start o.start o.bucket
                        o.owner apart).1;
                  room = o.room;
                }
          ];
        })

  pub written-IsRun :
      {h : Heap W} {live : Live} (p n x v : ℕ)
      → live p ≡ some n
      → p ≤ x
      → x < p + n
      → IsRun brk h live
      → IsRun brk (record h { mem = put h.mem x v }) live
  written-IsRun {h} p n x v holds low high run = record {
    owners = run.owners;
    lengths = run.lengths;
    heap = payload-IsHeap run.heap (put h.mem x v) (put-IsBytes x v run.heap.bytes) payload;
    held = λ q m f.
        let k = run.held q m f in
        record {
          start = k.start;
          bucket = k.bucket;
          pointer = k.pointer;
          owner = k.owner;
          room = k.room;
        };
  }
    where
      k : IsHeld h run.owners p n
      k = run.held p n holds

      payload : (y : ℕ) → (put h.mem x v y ≡ h.mem y) ⊎ IsPayload run.owners y
      payload y = elim (ℕ_discrete y x) [
        | yes here ↦ inr (
          k.start,
          k.bucket,
          (run.heap.used k.start k.start k.bucket k.owner).owns y
              (omega (arith, here, low, k.pointer)) (omega (arith, here, high, k.pointer, k.room)),
          omega (arith, here, low, k.pointer),
        )
        | no elsewhere ↦ inl (put_ne h.mem x v y elsewhere)
      ]
