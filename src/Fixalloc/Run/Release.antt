-- ===== src/Fixalloc/Run/Release.antt =====
-- What `dealloc` of rgoffi/go/gocruntime/fixalloc.c and the writes of a program do to the owners of the
-- bytes.
use challenges.Common.{
  ℕ, zero, suc, ◌+◌, ◌^◌, ◌≤◌, ◌<◌, ◌≡◌, ◌≢◌, ◌⊎◌, inl, inr, refl, sym, ap, ◌∙◌, subst, Bool, true,
  false, arith,
}
use challenges.Memory.{put, store_pointer}
use challenges.Memory.Laws.{put_ne, store_pointer-Outside, load_pointer-store_pointer}
use challenges.Fixalloc.{Fixalloc, dealloc}
use challenges.Fixalloc.Run.{Live, set_live}
use challenges.Fixalloc.Run.Owners.{
  free_block, live_block, claim, Chain, claim_self, outside, Chain-frame, IsSlab,
}
use challenges.Fixalloc.Run.Keeps.{set_live-cases, spares, held-spares}

module _ {W : Type 0} {taken : W → ℕ → Bool} {f : Fixalloc W} {live : Live}
    (inv : IsSlab taken f live) where
  list_word : f.list < 2 ^ 64
  list_word = word inv.length inv.chain
    where
      word : (n : ℕ) → Chain f.size f.mem inv.owners n f.list → f.list < 2 ^ 64
      word zero chain = omega (arith, chain)
      word (suc n) (real, small, own, rest) = small

  pub dealloc-IsSlab : (p : ℕ) → live p ≡ true → IsSlab taken (dealloc f p) (set_live live p false)
  unfolding dealloc
  dealloc-IsSlab p holds =
      let (real, word, mine) = inv.held p holds in
      let n : ℕ = inv.length in
      record {
        owners = claim inv.owners p f.size (free_block p n);
        length = suc n;
        size-ge = inv.size-ge;
        whole = inv.whole;
        bound = inv.bound;
        left = inv.left;
        below = inv.below;
        chain = (
          real,
          word,
          claim_self inv.owners p f.size (free_block p n),
          subst
              (λ q.
                Chain f.size (store_pointer f.mem p f.list)
                  (claim inv.owners p f.size (free_block p n)) n q)
              (sym (load_pointer-store_pointer f.mem p f.list list_word))
              (Chain-frame f.size f.mem _ inv.owners _ n f.list inv.size-ge
                (λ x q k e lt.
                  let other : inv.owners x ≢ live_block p = λ z. let both = sym e ∙ z in cc in
                  (
                    store_pointer-Outside f.mem p f.list x
                        (wide p x (outside inv.owners p f.size (live_block p) x mine other)),
                    spares inv.owners p f.size (live_block p) (free_block p n) x mine other,
                  ))
                inv.chain),
        );
        held = λ q e. elim (set_live-cases live p q false e) [
          | inl (same, t) ↦ absurd (cc)
          | inr (apart, t) ↦
              let (real_q, word_q, own) = inv.held q t in
              (
                real_q,
                word_q,
                held-spares inv.owners f.size p (live_block p) (free_block p n) q mine
                    (λ z. apart (let same : q ≡ p = cc in same)) own,
              )
        ];
        ahead = λ x low high.
            let (free, given) = inv.ahead x low high in
            (
              spares inv.owners p f.size (live_block p) (free_block p n) (x + f.size) mine
                    (λ z. let both = sym free ∙ z in cc)
                  ∙ free,
              given,
            );
        beyond = λ x e.
            let free = inv.beyond x e in
            spares inv.owners p f.size (live_block p) (free_block p n) (x + f.size) mine
              (λ z. let both = sym free ∙ z in cc)
            ∙ free;
      }
    where
      wide : (p x : ℕ) → (x < p) ⊎ (p + f.size ≤ x) → (x < p) ⊎ (p + 8 ≤ x)
      wide p x (inl before) = inl before
      wide p x (inr behind) = inr (omega (arith, behind, inv.size-ge))

  pub written-IsSlab :
      (p y v : ℕ)
      → live p ≡ true
      → p ≤ y
      → y < p + f.size
      → IsSlab taken (record f { mem = put f.mem y v }) live
  written-IsSlab p y v holds low high = record {
    owners = inv.owners;
    length = inv.length;
    size-ge = inv.size-ge;
    whole = inv.whole;
    bound = inv.bound;
    left = inv.left;
    below = inv.below;
    chain =
        Chain-frame f.size f.mem (put f.mem y v) inv.owners inv.owners inv.length f.list inv.size-ge
          (λ x q k e lt. (
            put_ne f.mem y v x (λ z.
                let mine = (inv.held p holds).2 y low high in
                let both = sym e ∙ ap inv.owners z ∙ mine in cc),
            refl,
          ))
          inv.chain;
    held = inv.held;
    ahead = inv.ahead;
    beyond = inv.beyond;
  }
