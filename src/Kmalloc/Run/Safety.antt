-- ===== src/Kmalloc/Run/Safety.antt =====
-- What a program that uses kmalloc/original/kmalloc.c sees of its blocks.
use mathlib.Core.Option.{some-injective}
use challenges.Common.{
  ℕ, ◌+◌, ◌≤◌, ◌<◌, ◌≡◌, ◌≢◌, refl, sym, ap, ◌∙◌, none, some, ◌==◌, inl, inr, ◌⊎◌, arith,
  ℕ_discrete, dec_lt, dec_le, subst, true, ==_iff,
}
use challenges.Memory.{null}
use challenges.Memory.Laws.{put_ne}
use challenges.Kmalloc.{Os, IsOs, Heap, kfree}
use challenges.Kmalloc.Free.{data_of, freed, freed-spares, kfree-IsHeap}
use challenges.Kmalloc.Run.{
  Live, set_live, Step, allocated, refused, released, cleared, resized, dropped, written, Writes,
  Reach,
}
use challenges.Kmalloc.Run.Start.{IsStart, start-IsRun}
use challenges.Kmalloc.Run.Bytes.{held_byte, resized-spares, resized-keeps}
use challenges.Kmalloc.Run.Resizing.{kcalloc-some-IsCleared, held-Resized}
use challenges.Kmalloc.Run.Invariant.{served, set_live-same, set_live-other}

-- The program holds the pointer no longer, or the byte is behind what it asks for there.
abbrev pub IsGone : Live → (p x : ℕ) → Type 0
IsGone live p x = (live p ≡ none) ⊎ ((n : ℕ) × (live p ≡ some n) × (p + n ≤ x))

module _ {W : Type 0} (os : Os W) {brk : W → ℕ} (is_os : IsOs os brk) where
  module _ {h0 : Heap W} (start : IsStart os is_os h0) where
    -- From a well-formed heap with no block in use, or from the static variables as they are
    -- loaded, where the memory above the break is zero, the page size is a power of two and
    -- `sbrk` has memory to align the break, after any calls of `kmalloc`, `kcalloc`, `krealloc`
    -- and `kfree` that have a result and any writes of a program that frees and resizes only
    -- pointers it holds, writes only bytes it asked for and calls `kcalloc` only for a product
    -- below 2 ^ 64, the bytes it asked for behind two pointers that it holds are apart.
    pub Reach-apart :
        {h : Heap W} {live : Live} (p q n k x : ℕ)
        → Reach os h0 h live
        → live p ≡ some n
        → live q ≡ some k
        → p ≢ q
        → p ≤ x
        → x < p + n
        → (x < q) ⊎ (q + k ≤ x)
    Reach-apart p q n k x r held_p held_q other low high = elim (dec_lt x q) [
      | yes below ↦ inl below
      | no from ↦ elim (dec_le (q + k) x) [
        | yes behind ↦ inr behind
        | no inside ↦
            let run = start-IsRun os is_os start r p n held_p in
            let b = run.held p n held_p in
            let c = run.held q k held_q in
            let mine = held_byte run p n x held_p low high in
            let theirs = held_byte run q k x held_q (omega (arith, from)) (omega (arith, inside)) in
            let same : b.start ≡ c.start = cc in
            absurd (other (b.pointer ∙ ap data_of same ∙ sym c.pointer))
      ]
    ]

    -- From a well-formed heap with no block in use, or from the static variables as they are
    -- loaded, where the memory above the break is zero, the page size is a power of two and
    -- `sbrk` has memory to align the break, in a run of a program that calls `kmalloc`,
    -- `kcalloc`, `krealloc` and `kfree`, frees and resizes only pointers it holds, writes only
    -- bytes it asked for and calls `kcalloc` only for a product below 2 ^ 64, a byte that the
    -- program asked for and holds changes in a step only where the step is the program's write
    -- into that byte, or where after the step the pointer is not held or the byte is not among
    -- those asked for there.
    pub Step-keeps :
        {h h' : Heap W} {live live' : Live} (p n x : ℕ)
        → Reach os h0 h live
        → (st : Step os h live h' live') → live p ≡ some n
        → p ≤ x
        → x < p + n
        → (h'.mem x ≡ h.mem x) ⊎ (Writes st x ⊎ IsGone live' p x)
    Step-keeps p n x r (allocated nbytes q e real) holds low high =
        let run = start-IsRun os is_os start r p n holds in
        let s = served os is_os run.heap nbytes q e in
        inl (s.keeps x _ _ (held_byte run p n x holds low high)).0
    Step-keeps p n x r (refused nbytes e) holds low high =
        let run = start-IsRun os is_os start r p n holds in
        let s = served os is_os run.heap nbytes null e in
        inl (s.keeps x _ _ (held_byte run p n x holds low high)).0
    Step-keeps {h} {h'} {live} p n x r (released q m held_q e) holds low high =
        elim (ℕ_discrete p q) [
          | yes same ↦
              let test : (p == q) ≡ true = (==_iff p q).1 same in inr (inr (inl (rw test refl)))
          | no other ↦
              let run = start-IsRun os is_os start r p n holds in
              let b = run.held p n holds in
              let c = run.held q m held_q in
              let apart : b.start ≢ c.start =
                λ z. other (b.pointer ∙ ap data_of z ∙ sym c.pointer) in
              let e' : kfree q h ≡ some (freed h c.start c.bucket) =
                ap (λ t. kfree t h) c.pointer
                ∙ (kfree-IsHeap run.heap c.start c.bucket c.owner).0 in
              let after : freed h c.start c.bucket ≡ h' = some-injective _ _ (sym e' ∙ e) in
              let kept =
                freed-spares run.heap c.start c.bucket c.owner x b.start b.bucket
                  (held_byte run p n x holds low high) apart in
              inl (ap (λ (g : Heap W). g.mem x) (sym after) ∙ kept.0)
        ]
    Step-keeps p n x r (cleared nelem elsize q small e) holds low high =
        let run = start-IsRun os is_os start r p n holds in
        let c = kcalloc-some-IsCleared os is_os run.heap nelem elsize q e in
        inl (c.keeps x _ _ (held_byte run p n x holds low high)).0
    Step-keeps {h} {h'} {live} p n x r (resized fuel srchlen q m nbytes res held_q e real) holds low
          high =
        let run = start-IsRun os is_os start r p n holds in
        let what = held-Resized os is_os run fuel srchlen q m nbytes res held_q e in
        elim (ℕ_discrete p q) [
          | no other ↦ inl (
              resized-spares os run q m nbytes res held_q what p n x holds other
                (held_byte run p n x holds low high))
          | yes same ↦
              let here : live q ≡ some n = subst (λ t. live t ≡ some n) same holds in
              let what_here = held-Resized os is_os run fuel srchlen q n nbytes res here e in
              elim (resized-keeps os run q n nbytes res here what_here x (omega (arith, same, low))
                (omega (arith, same, high))) [
                  | inl kept ↦ inl kept
                  | inr (inl moved) ↦ inr (
                      inr (
                        inl (
                          set_live-other (set_live live q none) res p (some nbytes)
                            (λ z. moved (sym z ∙ same))
                          ∙ ap (λ t. set_live live q none t) same
                          ∙ set_live-same live q none)))
                  | inr (inr (at, short)) ↦ inr (
                      inr (
                        inr (
                          nbytes,
                          ap (λ t. set_live (set_live live q none) res (some nbytes) t)
                                (same ∙ sym at)
                              ∙ set_live-same (set_live live q none) res (some nbytes),
                          omega (arith, same, short),
                        )))
                ]
        ]
    Step-keeps {h} {h'} {live} p n x r (dropped fuel srchlen q m nbytes held_q e) holds low high =
        elim (ℕ_discrete p q) [
          | no other ↦
              let run = start-IsRun os is_os start r p n holds in
              let what = held-Resized os is_os run fuel srchlen q m nbytes null held_q e in
              inl (
                resized-spares os run q m nbytes null held_q what p n x holds other
                  (held_byte run p n x holds low high))
          | yes same ↦
              inr (inr (inl (ap (λ t. set_live live q none t) same ∙ set_live-same live q none)))
        ]
    Step-keeps {h} p n x r (written q m y v held_q low_y high_y) holds low high =
        elim (ℕ_discrete y x) [
          | yes here ↦ inr (inl here)
          | no elsewhere ↦ inl (put_ne h.mem y v x (λ z. elsewhere (sym z)))
        ]
