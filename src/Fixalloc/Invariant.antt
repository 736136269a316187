-- ===== src/Fixalloc/Invariant.antt =====
-- What `init` of rgoffi/go/gocruntime/fixalloc.c sets up, and `alloc` and `dealloc` keep.
use challenges.Common.{
  ℕ, zero, suc, ◌+◌, ◌-◌, ◌*◌, ◌/◌, ◌%◌, ◌^◌, ◌≤◌, ◌<◌, ◌≡◌, ◌⊎◌, inl, inr, refl, true, false,
  Bool-cases, none, some, dec_lt, ap, ltb, ltb→lt, not_ltb→le, ◌==◌, ==-ne, arith, ◌∙◌,
}
use native.Mathlib.Nat.{div-mul-le_self, lt-div-mul-add}
use challenges.Memory.{null}
use challenges.Memory.Words.{add64, sub64, sub64_of_le}
use challenges.Fixalloc.{
  GoRuntime, Fixalloc, fix_alloc_chunk, at_least_link, init, pop, refill, advance, alloc, dealloc,
}

-- `live` blocks have been handed out and not given back. A chunk is a whole number of blocks, and so
-- is what is left of it.
pub record IsFixalloc {W : Type 0} (f : Fixalloc W) (live : ℕ) : Type 0 where
  pub size-ge : 8 ≤ f.size
  pub blocks : (n : ℕ) × (f.nalloc ≡ suc n * f.size) × (f.nalloc ≤ fix_alloc_chunk)
  pub left : (n : ℕ) × (f.nchunk ≡ n * f.size) × (f.nchunk ≤ f.nalloc)
  pub counted : f.inuse ≡ live * f.size % 2 ^ 64

pub suc_mul : (n s : ℕ) → suc n * s ≡ n * s + s
suc_mul n s = omega arith

add64-count : (n s : ℕ) → add64 (n * s % 2 ^ 64) s ≡ suc n * s % 2 ^ 64
unfolding add64
add64-count n s = omega (arith, suc_mul n s)

sub64-count : (n s : ℕ) → s < 2 ^ 64 → sub64 (suc n * s % 2 ^ 64) s ≡ n * s % 2 ^ 64
unfolding sub64
sub64-count n s small = omega (arith, suc_mul n s)

-- The blocks that fit into a chunk are at least one.
chunk_blocks :
    (s : ℕ)
    → 8 ≤ s
    → s ≤ fix_alloc_chunk
    → (n : ℕ) × (fix_alloc_chunk / s * s ≡ suc n * s) × (fix_alloc_chunk / s * s ≤ fix_alloc_chunk)
chunk_blocks s low high =
    let no_quotient : fix_alloc_chunk / s ≡ 0 → fix_alloc_chunk / s * s ≡ 0 =
      λ e. ap (λ q. q * s) e ∙ omega arith in
    let some_block : 0 < fix_alloc_chunk / s = elim (dec_lt 0 (fix_alloc_chunk / s)) [
      | yes pos ↦ pos
      | no none_fits ↦ absurd (
          omega (
            arith,
            lt-div-mul-add {a = fix_alloc_chunk} {b = s} (omega (arith, low)),
            no_quotient (omega (arith, none_fits)),
            high,
          ))
    ] in
    (
      fix_alloc_chunk / s - 1,
      ap (λ q. q * s) (omega (arith, some_block)),
      div-mul-le_self fix_alloc_chunk s,
    )

-- `init` throws exactly for a size above 16384; else the allocator it leaves is well formed, with
-- no live block, an empty list, no chunk, and blocks of the size asked for at least.
pub init-IsFixalloc :
    {W : Type 0} (size : ℕ) (f : Fixalloc W)
    → ((init size f ≡ none) × (fix_alloc_chunk < size))
      ⊎ ((g : Fixalloc W) × (init size f ≡ some g)
          × IsFixalloc g 0
          × (size ≤ g.size)
          × (g.list ≡ null)
          × (g.nchunk ≡ 0))
unfolding init
init-IsFixalloc size f = elim (Bool-cases (ltb fix_alloc_chunk size)) [
  | inl large ↦ inl (rw large refl, ltb→lt fix_alloc_chunk size large)
  | inr fits ↦
      let low : 8 ≤ at_least_link size = ground arith in
      let least : size ≤ at_least_link size = ground arith in
      let high : at_least_link size ≤ fix_alloc_chunk =
        ground (arith, not_ltb→le fix_alloc_chunk size fits) in
      let (n, whole, bound) = chunk_blocks (at_least_link size) low high in
      let word : fix_alloc_chunk / at_least_link size * at_least_link size % 2 ^ 32
          ≡ fix_alloc_chunk / at_least_link size * at_least_link size =
        omega (arith, bound) in
      inr (
        record f {
          size = at_least_link size;
          list = null;
          chunk = 0;
          nchunk = 0;
          nalloc = fix_alloc_chunk / at_least_link size * at_least_link size % 2 ^ 32;
          inuse = 0;
          zero = true;
        },
        rw fits refl,
        record {
          size-ge = low;
          blocks = (n, word ∙ whole, omega (arith, word, bound));
          left = (0, omega arith, omega arith);
          counted = omega arith;
        },
        least,
        refl,
        refl,
      )
]

module _ {W : Type 0} (go : GoRuntime W) {f : Fixalloc W} {live : ℕ} (inv : IsFixalloc f live) where
  size-le : f.size ≤ fix_alloc_chunk
  size-le = let (n, whole, bound) = inv.blocks in omega (arith, whole, bound, suc_mul n f.size)

  count_more : add64 f.inuse f.size ≡ suc live * f.size % 2 ^ 64
  count_more = rw inv.counted (add64-count live f.size)

  pop-IsFixalloc : IsFixalloc (pop go f).1 (suc live)
  unfolding pop
  pop-IsFixalloc = record {
    size-ge = inv.size-ge;
    blocks = inv.blocks;
    left = inv.left;
    counted = count_more;
  }

  -- A chunk is asked for where nothing is left of the last one.
  pub refill-IsFixalloc : IsFixalloc (refill go f) live × (refill go f).size ≤ (refill go f).nchunk
  unfolding refill
  refill-IsFixalloc =
      let (n, whole, bound) = inv.blocks in
      let (k, rest, some_left) = inv.left in
      elim (Bool-cases (ltb f.nchunk f.size)) [
        | inl short ↦ rw short (
          (record {
            size-ge = inv.size-ge;
            blocks = inv.blocks;
            left = (suc n, whole, omega arith);
            counted = inv.counted;
          }),
          omega (arith, whole, suc_mul n f.size),
        )
        | inr enough ↦ rw enough (inv, not_ltb→le f.nchunk f.size enough)
      ]

  advance-IsFixalloc : f.size ≤ f.nchunk → IsFixalloc (advance f).1 (suc live)
  unfolding advance
  advance-IsFixalloc enough =
      let (n, whole, bound) = inv.blocks in
      let (k, rest, some_left) = inv.left in
      let less : sub64 f.nchunk f.size ≡ f.nchunk - f.size =
        sub64_of_le f.nchunk f.size (omega (arith, some_left, bound)) (omega (arith, enough)) in
      let (j, after) = left_after k rest less in
      record {
        size-ge = inv.size-ge;
        blocks = inv.blocks;
        left = (j, after, omega (arith, less, some_left));
        counted = count_more;
      }
    where
      left_after :
          (k : ℕ)
          → f.nchunk ≡ k * f.size
          → sub64 f.nchunk f.size ≡ f.nchunk - f.size
          → (j : ℕ) × (sub64 f.nchunk f.size % 2 ^ 32 ≡ j * f.size)
      left_after zero rest less = absurd (omega (arith, rest, inv.size-ge, enough))
      left_after (suc k) rest less =
          (k, omega (arith, rest, less, inv.left.2, inv.blocks.2, suc_mul k f.size))

module _ {W : Type 0} (go : GoRuntime W) {f : Fixalloc W} {live : ℕ} (inv : IsFixalloc f live) where
  started : (f.size == 0) ≡ false
  started = ==-ne f.size 0 (λ z. absurd (omega (arith, z, inv.size-ge)))

  -- On a well-formed allocator `alloc` does not throw, and leaves a well-formed one with one more
  -- live block, which its counter of bytes in use tells.
  pub alloc-IsFixalloc :
      (v : ℕ) × (g : Fixalloc W) × (alloc go f ≡ some (v, g))
      × IsFixalloc g (suc live)
      × (g.size ≡ f.size)
  unfolding alloc pop advance refill
  alloc-IsFixalloc = elim (Bool-cases (f.list == null)) [
    | inl empty ↦
        let (kept, enough) = refill-IsFixalloc go inv in
        (
          (advance (refill go f)).0,
          (advance (refill go f)).1,
          rw (started, empty) refl,
          advance-IsFixalloc go kept enough,
          elim (Bool-cases (ltb f.nchunk f.size)) [
            | inl short ↦ rw short refl
            | inr there ↦ rw there refl
          ],
        )
    | inr listed ↦
        ((pop go f).0, (pop go f).1, rw (started, listed) refl, pop-IsFixalloc go inv, refl)
  ]

-- On a well-formed allocator with a live block `dealloc` leaves a well-formed one with one live
-- block less.
pub dealloc-IsFixalloc :
    {W : Type 0} {f : Fixalloc W} {live : ℕ} (p : ℕ)
    → IsFixalloc f (suc live)
    → IsFixalloc (dealloc f p) live
unfolding dealloc
dealloc-IsFixalloc {f = f} {live = live} p inv =
    let (n, whole, bound) = inv.blocks in
    record {
      size-ge = inv.size-ge;
      blocks = inv.blocks;
      left = inv.left;
      counted =
          rw inv.counted (sub64-count live f.size (omega (arith, whole, bound, suc_mul n f.size)));
    }
