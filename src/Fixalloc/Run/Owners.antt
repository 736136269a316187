-- ===== src/Fixalloc/Run/Owners.antt =====
-- Who owns each byte that the blocks of rgoffi/go/gocruntime/fixalloc.c can cover. The owners are ghost
-- state: the code keeps no such map.
use challenges.Common.{
  ℕ, zero, suc, ◌+◌, ◌^◌, ◌≤◌, ◌<◌, ◌≡◌, ◌≢◌, ◌⊎◌, inl, inr, sym, ◌∙◌, subst, Bool, true, false,
  if◌then◌else◌, Bool-cases, arith,
}
use challenges.Memory.{Mem, load_pointer, within}
use challenges.Memory.Laws.{load_pointer-cong}
use challenges.Fixalloc.{Fixalloc, fix_alloc_chunk}
use challenges.Fixalloc.Run.{Live}

-- A byte is part of no block, of the free block at `start` with `rank` others behind it in the list, or
-- of the block at `start` that the program holds.
pub data Owner : Type 0 where
  unowned : Owner
  free_block : (start rank : ℕ) → Owner
  live_block : (start : ℕ) → Owner

abbrev pub Owners : Type 0
Owners = ℕ → Owner

abbrev pub claim : Owners → (a n : ℕ) → Owner → Owners
claim ow a n o x = if within a n x then o else ow x

abbrev pub Owns : Owners → (a n : ℕ) → Owner → Type 0
Owns ow a n o = (x : ℕ) → a ≤ x → x < a + n → ow x ≡ o

-- From `p` the links lead through `n` free blocks to NULL.
abbrev pub Chain : (size : ℕ) → Mem → Owners → (n p : ℕ) → Type 0
Chain size m ow zero p = p ≡ 0
Chain size m ow (suc n) p =
    (p ≢ 0) × (p < 2 ^ 64) × Owns ow p size (free_block p n) × Chain size m ow n (load_pointer m p)

pub claim_self : (ow : Owners) (a n : ℕ) (o : Owner) → Owns (claim ow a n o) a n o
claim_self ow a n o x low high = ground arith

pub claim_other :
    (ow : Owners) (a n : ℕ) (o : Owner) (x : ℕ) → (x < a) ⊎ (a + n ≤ x) → claim ow a n o x ≡ ow x
claim_other ow a n o x out = ground arith

-- A byte whose owner is not that of the claimed block is outside of it.
pub outside :
    (ow : Owners) (a n : ℕ) (o : Owner) (x : ℕ) → Owns ow a n o → ow x ≢ o → (x < a) ⊎ (a + n ≤ x)
outside ow a n o x own other = elim (Bool-cases (within a n x)) [
  | inl inside ↦ absurd (other (own x (ground arith) (ground arith)))
  | inr out ↦ ground arith
]

-- The list stays where its bytes and their owners do.
pub Chain-frame :
    (size : ℕ) (m m' : Mem) (ow ow' : Owners) (n p : ℕ)
    → 8 ≤ size
    → ((x q k : ℕ) → ow x ≡ free_block q k → k < n → (m' x ≡ m x) × (ow' x ≡ ow x))
    → Chain size m ow n p
    → Chain size m' ow' n p
Chain-frame size m m' ow ow' zero p big same chain = chain
Chain-frame size m m' ow ow' (suc n) p big same (real, word, own, rest) =
    let link : load_pointer m p ≡ load_pointer m' p =
      load_pointer-cong m m' p
        (λ x low high. sym (same x p n (own x low (omega (arith, high, big))) (omega arith)).0) in
    (
      real,
      word,
      λ x low high. (same x p n (own x low high) (omega arith)).1 ∙ own x low high,
      subst (λ q. Chain size m' ow' n q) link
          (Chain-frame size m m' ow ow' n (load_pointer m p) big
            (λ x q k f lt. same x q k f (omega (arith, lt))) rest),
    )

pub record IsSlab {W : Type 0} (taken : W → ℕ → Bool) (f : Fixalloc W) (live : Live) : Type 0 where
  pub owners : Owners
  pub length : ℕ
  pub size-ge : 8 ≤ f.size
  pub whole : f.size ≤ f.nalloc
  pub bound : f.nalloc ≤ fix_alloc_chunk
  pub left : f.nchunk ≤ fix_alloc_chunk
  pub below : (f.nchunk ≡ 0) ⊎ (f.chunk + f.nchunk < 2 ^ 63)
  pub chain : Chain f.size f.mem owners length f.list
  pub held : (p : ℕ) → live p ≡ true → (p ≢ 0) × (p < 2 ^ 64) × Owns owners p f.size (live_block p)
  -- A block begins a block's size behind the bytes of its chunk.
  pub ahead :
      (x : ℕ)
      → f.chunk ≤ x
      → x < f.chunk + f.nchunk
      → (owners (x + f.size) ≡ unowned) × (taken f.world x ≡ true)
  pub beyond : (x : ℕ) → taken f.world x ≡ false → owners (x + f.size) ≡ unowned
