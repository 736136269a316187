-- ===== src/Kmalloc/Test.antt =====
-- The program of kmalloc/original/tests/main.c: two blocks, a pointer to the second one in the first,
-- and the mark of a block in use written over it.
pub mod Loaded
use challenges.Common.{
  ℕ, suc, ◌+◌, ◌*◌, ◌/◌, ◌^◌, ◌≤◌, ◌<◌, ◌≡◌, ◌≢◌, refl, sym, ap, ◌∙◌, Option, none, some, ◌==◌,
  ==-ne, if◌then◌else◌, ◌>>=◌, arith, inl, inr, ◌⊎◌, dec_le, dec_lt, Option-cases,
}
use challenges.Memory.{Mem, IsBytes, null, put, load_bytes, load_pointer, store_pointer}
use challenges.Memory.Laws.{
  Outside, load_pointer-store_pointer, load_bytes-cong, put_self, put_ne, put-IsBytes,
  store_pointer-IsBytes, store_pointer-Outside,
}
use challenges.Kmalloc.{Os, IsOs, Heap, kmalloc, overhead_size}
use challenges.Kmalloc.Buckets.{IsPage, block_size}
use challenges.Kmalloc.Layout.{Owners, used_block, IsHeap}
use challenges.Kmalloc.Layout.Payload.{IsPayload, payload-IsHeap}
use challenges.Kmalloc.Serve.{IsServed, IsFresh}
use challenges.Kmalloc.First.{IsInitial, kmalloc-IsServed, kmalloc-first}

-- What the four lines of output show.
pub record Shown : Type 0 where
  pub bucket : ℕ
  pub next : ℕ
  pub ovu_magic : ℕ
  pub ovu_index : ℕ

-- `main` from the heap on: nothing can be written through NULL.
unfoldable pub main : {W : Type 0} → Os W → Heap W → Option (Shown × Heap W)
main os h = do
  (ov, h1) ← kmalloc os overhead_size h
  (second, h2) ← kmalloc os overhead_size h1
  if ov == null
      then none
      else let linked : Mem = store_pointer h2.mem ov second in
        let marked : Mem = put (put linked ov 0xef) (ov + 1) 2 in
        some (
          record {
            bucket = load_pointer linked ov;
            next = load_pointer marked ov;
            ovu_magic = marked ov;
            ovu_index = marked (ov + 1);
          },
          record h2 { mem = marked },
        )

load_bytes-suc :
    (n : ℕ) (m : Mem) (p : ℕ) → load_bytes (suc n) m p ≡ m p + 256 * load_bytes n m (p + 1)
unfolding load_bytes
load_bytes-suc n m p = refl

-- The two lowest bytes of a pointer that is overwritten.
load_bytes-marked :
    (m : Mem) (p : ℕ)
    → IsBytes m
    → load_bytes 8 (put (put m p 0xef) (p + 1) 2) p ≡ load_bytes 8 m p / 65536 * 65536 + 0x2ef
load_bytes-marked m p bytes =
    let marked : Mem = put (put m p 0xef) (p + 1) 2 in
    let first : marked p ≡ 0xef =
      put_ne (put m p 0xef) (p + 1) 2 p (λ z. absurd (omega (arith, z))) ∙ put_self m p 0xef in
    let second : marked (p + 1) ≡ 2 = put_self (put m p 0xef) (p + 1) 2 in
    let rest : load_bytes 6 marked (p + 1 + 1) ≡ load_bytes 6 m (p + 1 + 1) =
      load_bytes-cong 6 marked m (p + 1 + 1) (λ q low high.
        put_ne (put m p 0xef) (p + 1) 2 q (λ z. absurd (omega (arith, z, low)))
        ∙ put_ne m p 0xef q (λ z. absurd (omega (arith, z, low)))) in
    omega (
      arith,
      load_bytes-suc 7 marked p,
      load_bytes-suc 6 marked (p + 1),
      load_bytes-suc 7 m p,
      load_bytes-suc 6 m (p + 1),
      first,
      second,
      rest,
      bytes p,
      bytes (p + 1),
    )

load_pointer-marked :
    (m : Mem) (p : ℕ)
    → IsBytes m
    → load_pointer (put (put m p 0xef) (p + 1) 2) p ≡ load_pointer m p / 65536 * 65536 + 0x2ef
unfolding load_pointer
load_pointer-marked = load_bytes-marked

-- The output for a second block at `second`.
abbrev pub lines : ℕ → Shown
lines second = record {
  bucket = second;
  next = second / 65536 * 65536 + 0x2ef;
  ovu_magic = 0xef;
  ovu_index = 2;
}

module _ {W : Type 0} (os : Os W) {brk : W → ℕ} (is_os : IsOs os brk) {h : Heap W} {ow : Owners}
    {len : ℕ → ℕ} (inv : IsHeap brk h ow len) where
  module _ {h1 : Heap W} {ov : ℕ} (s1 : IsServed os brk h ow overhead_size ov h1)
      (fresh : IsFresh h.pagesz ow s1.owners overhead_size ov) {h2 : Heap W} {second : ℕ}
      (s2 : IsServed os brk h1 s1.owners overhead_size second h2) where
    -- The first block still has its bytes.
    first_block :
        (x : ℕ)
        → fresh.start ≤ x
        → x < fresh.start + 16
        → s2.owners x ≡ used_block fresh.start fresh.bucket
    first_block x low high =
        (s2.keeps x fresh.start fresh.bucket
          (fresh.owns x low (omega (arith, high, fresh.holds)))).1

    second-lt : second < 2 ^ 64
    second-lt = elim s2.answer [
      | inr (none_left, why) ↦ omega (arith, none_left)
      | inl again ↦
          let u =
            s2.heap.used again.start again.start again.bucket
              (again.owns again.start (omega arith) (omega (arith, again.holds))) in
          omega (
            arith,
            again.pointer,
            u.place.below,
            again.holds,
            ap (λ z. block_size z again.bucket) s2.same_page,
          )
    ]

    pub second-ne : ov ≢ null → second ≢ ov
    second-ne real same = elim s2.answer [
      | inr (none_left, why) ↦ real (sym same ∙ none_left)
      | inl again ↦
          again.unused fresh.start fresh.start fresh.bucket
            (omega (arith, again.pointer, fresh.pointer, same))
            (omega (arith, again.pointer, fresh.pointer, same, again.holds))
            (fresh.owns fresh.start (omega arith) (omega (arith, fresh.holds)))
    ]

    abbrev pub linked : Mem
    linked = store_pointer h2.mem ov second

    abbrev pub marked : Mem
    marked = put (put linked ov 0xef) (ov + 1) 2

    linked-IsBytes : IsBytes linked
    linked-IsBytes = store_pointer-IsBytes ov second s2.heap.bytes

    marked-IsPayload : (x : ℕ) → (marked x ≡ h2.mem x) ⊎ IsPayload s2.owners x
    marked-IsPayload x = elim (dec_le ov x) [
      | no below ↦ inl (untouched x (inl (ground (arith, below))))
      | yes from ↦ elim (dec_lt x (ov + 8)) [
        | no behind ↦ inl (untouched x (inr (ground (arith, behind))))
        | yes inside ↦ inr (
          fresh.start,
          fresh.bucket,
          first_block x (omega (arith, from, fresh.pointer)) (omega (arith, inside, fresh.pointer)),
          omega (arith, from, fresh.pointer),
        )
      ]
    ]
      where
        untouched : (x : ℕ) → Outside ov 8 x → marked x ≡ h2.mem x
        untouched x out =
            put_ne (put linked ov 0xef) (ov + 1) 2 x (λ z. absurd (ground (arith, z, out)))
            ∙ put_ne linked ov 0xef x (λ z. absurd (ground (arith, z, out)))
            ∙ store_pointer-Outside h2.mem ov second x out

    pub marked-IsHeap : IsHeap brk (record h2 { mem = marked }) s2.owners s2.lengths
    marked-IsHeap =
        payload-IsHeap s2.heap marked (put-IsBytes (ov + 1) 2 (put-IsBytes ov 0xef linked-IsBytes))
          marked-IsPayload

    pub main-lines :
        (g : Heap W)
        → kmalloc os overhead_size g ≡ some (ov, h1)
        → kmalloc os overhead_size h1 ≡ some (second, h2)
        → ov ≢ null
        → main os g ≡ some (lines second, record h2 { mem = marked })
    unfolding main
    main-lines g e1 e2 real =
        let pointer : load_pointer linked ov ≡ second =
          load_pointer-store_pointer h2.mem ov second second-lt in
        let over : load_pointer marked ov ≡ second / 65536 * 65536 + 0x2ef =
          load_pointer-marked linked ov linked-IsBytes
          ∙ ap (λ p. p / 65536 * 65536 + 0x2ef) pointer in
        let low : marked ov ≡ 0xef =
          put_ne (put linked ov 0xef) (ov + 1) 2 ov (λ z. absurd (omega (arith, z)))
          ∙ put_self linked ov 0xef in
        let high : marked (ov + 1) ≡ 2 = put_self (put linked ov 0xef) (ov + 1) 2 in
        rw (e1, e2, ==-ne ov null real) (rw (pointer, over, low, high) refl)
