-- ===== src/Fixalloc/Run/Changes.antt =====
-- What `alloc` at the end of a chunk and `init` of rgoffi/go/gocruntime/fixalloc.c do to the owners of
-- the bytes.
use mathlib.Core.Option.{some-injective}
use challenges.Common.{
  ℕ, ◌+◌, ◌-◌, ◌%◌, ◌^◌, ◌≤◌, ◌<◌, ◌≡◌, ◌⊎◌, inl, inr, refl, sym, ap, ◌∙◌, subst, Bool, true, false,
  some, arith, dec_lt, Bool-cases,
}
use challenges.Memory.Words.{add64, add64_of_lt, sub64, sub64_of_le}
use challenges.Fixalloc.{Fixalloc, fix_alloc_chunk, init, advance}
use challenges.Fixalloc.Run.{Live, set_live}
use challenges.Fixalloc.Run.Owners.{
  unowned, live_block, claim, Owns, claim_self, claim_other, Chain-frame, IsSlab,
}
use challenges.Fixalloc.Invariant.{suc_mul, init-IsFixalloc}
use challenges.Fixalloc.Run.Keeps.{set_live-cases, spares, held-spares}

module _ {W : Type 0} {taken : W → ℕ → Bool} {f : Fixalloc W} {live : Live}
    (inv : IsSlab taken f live) where
  size_le : f.size ≤ fix_alloc_chunk
  size_le = omega (arith, inv.whole, inv.bound)

  -- The block that is next in the chunk belongs to nobody.
  next_block : f.size ≤ f.nchunk → Owns inv.owners (f.chunk + f.size) f.size unowned
  next_block enough x low high =
      let at : x - f.size + f.size ≡ x = omega (arith, low) in
      let (mine, given) =
        inv.ahead (x - f.size) (omega (arith, low)) (omega (arith, low, high, enough)) in
      ap inv.owners (sym at) ∙ mine

  in_lower_half : f.size ≤ f.nchunk → f.chunk + f.nchunk < 2 ^ 63
  in_lower_half enough = elim inv.below [
    | inl none_left ↦ absurd (omega (arith, none_left, enough, inv.size-ge))
    | inr bounded ↦ bounded
  ]

  next_pointer : f.size ≤ f.nchunk → add64 f.chunk f.size ≡ f.chunk + f.size
  next_pointer enough = add64_of_lt f.chunk f.size (omega (arith, in_lower_half enough, enough))

  -- The block that is next in the chunk is not held.
  pub advance-free : f.size ≤ f.nchunk → live (advance f).0 ≡ false
  unfolding advance
  advance-free enough =
      let v : ℕ = f.chunk + f.size in
      ap live (next_pointer enough) ∙ elim (Bool-cases (live v)) [
        | inr free ↦ free
        | inl holds ↦
            let first : v < v + f.size = omega (arith, inv.size-ge) in
            let mine = (inv.held v holds).2 v (omega arith) first in
            let other = next_block enough v (omega arith) first in
            absurd (let both = sym mine ∙ other in cc)
      ]

  pub advance-IsSlab :
      f.size ≤ f.nchunk → IsSlab taken (advance f).1 (set_live live (advance f).0 true)
  unfolding advance
  advance-IsSlab enough =
      let small = in_lower_half enough in
      let next = next_pointer enough in
      let less : sub64 f.nchunk f.size % 2 ^ 32 ≡ f.nchunk - f.size = omega (
        arith,
        sub64_of_le f.nchunk f.size (omega (arith, inv.left)) (omega (arith, enough)),
        inv.left,
      ) in
      let v : ℕ = f.chunk + f.size in
      let mine : Owns inv.owners v f.size unowned = next_block enough in
      rw (next, less)
        (record {
          owners = claim inv.owners v f.size (live_block v);
          length = inv.length;
          size-ge = inv.size-ge;
          whole = inv.whole;
          bound = inv.bound;
          left = omega (arith, inv.left);
          below = inr (omega (arith, small, enough));
          chain =
              Chain-frame f.size f.mem f.mem inv.owners _ inv.length f.list inv.size-ge
                (λ x q k e lt. (
                  refl,
                  spares inv.owners v f.size unowned (live_block v) x mine
                      (λ z. let both = sym e ∙ z in cc),
                ))
                inv.chain;
          held = λ p e. elim (set_live-cases live v p true e) [
            | inl (same, t) ↦ (
              omega (arith, same, inv.size-ge),
              omega (arith, same, small, enough),
              subst (λ p. Owns (claim inv.owners v f.size (live_block v)) p f.size (live_block p))
                  (sym same) (claim_self inv.owners v f.size (live_block v)),
            )
            | inr (apart, t) ↦
                let (real, word, own) = inv.held p t in
                (
                  real,
                  word,
                  held-spares inv.owners f.size v unowned (live_block v) p mine (λ z. cc) own,
                )
          ];
          ahead = λ x low high.
              let (free, given) =
                inv.ahead x (omega (arith, low)) (omega (arith, low, high, enough)) in
              (
                claim_other inv.owners v f.size (live_block v) (x + f.size)
                      (inr (omega (arith, low)))
                    ∙ free,
                given,
              );
          beyond = λ x e.
              claim_other inv.owners v f.size (live_block v) (x + f.size) (not_in_chunk x e)
              ∙ inv.beyond x e;
        })
    where
      not_in_chunk :
          (x : ℕ)
          → taken f.world x ≡ false
          → (x + f.size < f.chunk + f.size) ⊎ (f.chunk + f.size + f.size ≤ x + f.size)
      not_in_chunk x e = elim (dec_lt x f.chunk) [
        | yes before ↦ inl (omega (arith, before))
        | no from ↦ elim (dec_lt x (f.chunk + f.size)) [
          | no behind ↦ inr (omega (arith, behind))
          | yes inside ↦
              let (free, given) =
                inv.ahead x (omega (arith, from)) (omega (arith, inside, enough)) in
              absurd (let both = sym given ∙ e in cc)
        ]
      ]

pub init-IsSlab :
    {W : Type 0} (taken : W → ℕ → Bool) (size : ℕ) (f g : Fixalloc W)
    → init size f ≡ some g
    → IsSlab taken g (λ p. false)
init-IsSlab taken size f g e = elim (init-IsFixalloc size f) [
  | inl (failed, large) ↦ absurd (let both = sym failed ∙ e in cc)
  | inr (h, made, inv, least, empty, none_left) ↦
      subst (λ k. IsSlab taken k (λ p. false)) (some-injective h g (sym made ∙ e))
        (let (n, blocks, bound) = inv.blocks in
          record {
            owners = λ x. unowned;
            length = 0;
            size-ge = inv.size-ge;
            whole = omega (arith, blocks, suc_mul n h.size);
            bound = bound;
            left = omega (arith, none_left);
            below = inl none_left;
            chain = empty;
            held = λ p z. absurd (cc);
            ahead = λ x low high. absurd (omega (arith, low, high, none_left));
            beyond = λ x z. refl;
          })
]
