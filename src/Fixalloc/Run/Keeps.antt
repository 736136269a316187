-- ===== src/Fixalloc/Run/Keeps.antt =====
-- What the operations of rgoffi/go/gocruntime/fixalloc.c do to the owners of the bytes.
use challenges.Common.{
  ℕ, zero, suc, ◌+◌, ◌^◌, ◌≤◌, ◌<◌, ◌≡◌, ◌≢◌, ◌⊎◌, inl, inr, refl, sym, ◌∙◌, subst, Bool, true,
  false, ◌==◌, ltb, if◌then◌else◌, Bool-cases, arith, ==_iff, ==-ne, ltb→lt, not_ltb→le, ℕ_discrete,
}
use challenges.Memory.{Mem, load_pointer}
use challenges.Fixalloc.{GoRuntime, Fixalloc, pop, refill}
use challenges.Fixalloc.Run.{IsPersistent, Live, set_live}
use challenges.Fixalloc.Run.Owners.{
  free_block, live_block, Owner, Owners, claim, Owns, Chain, claim_self, claim_other, outside,
  Chain-frame, IsSlab,
}

pub set_live-cases :
    (live : Live) (p q : ℕ) (b : Bool)
    → set_live live p b q ≡ true
    → ((q ≡ p) × (b ≡ true)) ⊎ ((q ≢ p) × (live q ≡ true))
set_live-cases live p q b e = elim (ℕ_discrete q p) [
  | yes same ↦
      let test : (q == p) ≡ true = (==_iff q p).1 same in
      let found : set_live live p b q ≡ b = rw test refl in inl (same, sym found ∙ e)
  | no other ↦
      let test : (q == p) ≡ false = ==-ne q p other in
      let found : set_live live p b q ≡ live q = rw test refl in inr (other, sym found ∙ e)
]

-- A byte of another owner stays with it.
pub spares :
    (ow : Owners) (a n : ℕ) (o o' : Owner) (x : ℕ)
    → Owns ow a n o
    → ow x ≢ o
    → claim ow a n o' x ≡ ow x
spares ow a n o o' x own other = claim_other ow a n o' x (outside ow a n o x own other)

-- The other blocks that are held when a block changes hands.
pub held-spares :
    (ow : Owners) (size a : ℕ) (o o' : Owner) (q : ℕ)
    → Owns ow a size o
    → live_block q ≢ o
    → Owns ow q size (live_block q)
    → Owns (claim ow a size o') q size (live_block q)
held-spares ow size a o o' q own other held x low high =
    let mine = held x low high in spares ow a size o o' x own (λ z. other (sym mine ∙ z)) ∙ mine

module _ {W : Type 0} (go : GoRuntime W) {exhausted : W → ℕ → Bool} {taken : W → ℕ → Bool}
    (rules : IsPersistent go exhausted taken) {f : Fixalloc W} {live : Live}
    (inv : IsSlab taken f live) where
  list_block :
      f.list ≢ 0
      → (n : ℕ) × (inv.length ≡ suc n)
        × (f.list < 2 ^ 64)
        × Owns inv.owners f.list f.size (free_block f.list n)
        × Chain f.size f.mem inv.owners n (load_pointer f.mem f.list)
  list_block some_freed = split inv.length inv.chain refl
    where
      split :
          (m : ℕ)
          → Chain f.size f.mem inv.owners m f.list
          → inv.length ≡ m
          → (n : ℕ) × (inv.length ≡ suc n)
            × (f.list < 2 ^ 64)
            × Owns inv.owners f.list f.size (free_block f.list n)
            × Chain f.size f.mem inv.owners n (load_pointer f.mem f.list)
      split zero chain e = absurd (some_freed chain)
      split (suc n) (real, word, own, rest) e = (n, e, word, own, rest)

  -- The first free block is not held.
  pub list-free : f.list ≢ 0 → live f.list ≡ false
  list-free some_freed =
      let (n, count, word, own, rest) = list_block some_freed in
      elim (Bool-cases (live f.list)) [
        | inr free ↦ free
        | inl holds ↦
            let first : f.list < f.list + f.size = omega (arith, inv.size-ge) in
            let mine = (inv.held f.list holds).2 f.list (omega arith) first in
            let other = own f.list (omega arith) first in absurd (let both = sym mine ∙ other in cc)
      ]

  pub pop-IsSlab : f.list ≢ 0 → IsSlab taken (pop go f).1 (set_live live (pop go f).0 true)
  unfolding pop
  pop-IsSlab some_freed =
      let (n, count, word, own, rest) = list_block some_freed in
      record {
        owners = claim inv.owners f.list f.size (live_block f.list);
        length = n;
        size-ge = inv.size-ge;
        whole = inv.whole;
        bound = inv.bound;
        left = inv.left;
        below = inv.below;
        chain =
            Chain-frame f.size f.mem cleared inv.owners _ n (load_pointer f.mem f.list) inv.size-ge
              (λ x q k e lt.
                let other : inv.owners x ≢ free_block f.list n =
                  λ z. let same : k ≡ n = cc in absurd (omega (arith, same, lt)) in
                (
                  cleared_outside x
                      (outside inv.owners f.list f.size (free_block f.list n) x own other),
                  spares inv.owners f.list f.size (free_block f.list n) (live_block f.list) x own
                      other,
                ))
              rest;
        held = λ p e. elim (set_live-cases live f.list p true e) [
          | inl (same, t) ↦ (
            λ z. some_freed (sym same ∙ z),
            omega (arith, same, word),
            subst
                (λ p.
                  Owns (claim inv.owners f.list f.size (live_block f.list)) p f.size (live_block p))
                (sym same) (claim_self inv.owners f.list f.size (live_block f.list)),
          )
          | inr (apart, t) ↦
              let (real, small, mine) = inv.held p t in
              (
                real,
                small,
                held-spares inv.owners f.size f.list _ (live_block f.list) p own (λ z. cc) mine,
              )
        ];
        ahead = λ x low high.
            let (mine, given) = inv.ahead x low high in
            (
              spares inv.owners f.list f.size _ (live_block f.list) (x + f.size) own (λ z. cc)
                  ∙ mine,
              given,
            );
        beyond = λ x e.
            let mine = inv.beyond x e in
            spares inv.owners f.list f.size _ (live_block f.list) (x + f.size) own (λ z. cc) ∙ mine;
      }
    where
      cleared : Mem
      cleared = if f.zero then go.memclr_noheap_pointers f.mem f.list f.size else f.mem

      cleared_outside : (x : ℕ) → (x < f.list) ⊎ (f.list + f.size ≤ x) → cleared x ≡ f.mem x
      cleared_outside x out = elim (Bool-cases f.zero) [
        | inl clears ↦ rw clears (rules.memclr-outside f.mem f.list f.size x out)
        | inr keeps ↦ rw keeps refl
      ]

  pub refill-IsSlab :
      (f.nchunk < f.size → exhausted f.world f.nalloc ≡ false)
      → IsSlab taken (refill go f) live × ((refill go f).size ≤ (refill go f).nchunk)
  unfolding refill
  refill-IsSlab granted = elim (Bool-cases (ltb f.nchunk f.size)) [
    | inr enough ↦ rw enough (inv, not_ltb→le f.nchunk f.size enough)
    | inl short ↦ rw short (
      (record {
        owners = inv.owners;
        length = inv.length;
        size-ge = inv.size-ge;
        whole = inv.whole;
        bound = inv.bound;
        left = inv.bound;
        below = inr (rules.below f.world f.nalloc (granted (ltb→lt f.nchunk f.size short)));
        chain = inv.chain;
        held = inv.held;
        ahead = λ x low high.
            let (new, given) =
              rules.fresh f.world f.nalloc x (granted (ltb→lt f.nchunk f.size short)) low high in
            (inv.beyond x new, given);
        beyond = λ x e. elim (Bool-cases (taken f.world x)) [
          | inr new ↦ inv.beyond x new
          | inl old ↦ absurd (let both = sym (rules.kept f.world f.nalloc x old) ∙ e in cc)
        ];
      }),
      inv.whole,
    )
  ]

  -- A block that is held stays as it is when the first free one is handed out.
  pub pop-spares :
      f.list ≢ 0 → (p x : ℕ) → live p ≡ true → p ≤ x → x < p + f.size → (pop go f).1.mem x ≡ f.mem x
  unfolding pop
  pop-spares some_freed p x holds low high =
      let (n, count, word, own, rest) = list_block some_freed in
      let mine = (inv.held p holds).2 x low high in
      let out : (x < f.list) ⊎ (f.list + f.size ≤ x) =
        outside inv.owners f.list f.size (free_block f.list n) x own
          (λ z. let both = sym mine ∙ z in cc) in
      elim (Bool-cases f.zero) [
        | inl clears ↦ rw clears (rules.memclr-outside f.mem f.list f.size x out)
        | inr keeps ↦ rw keeps refl
      ]
