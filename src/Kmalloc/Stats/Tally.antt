-- ===== src/Kmalloc/Stats/Tally.antt =====
-- The pointers that a program holds, as a list, and how many of them lie in each bucket of
-- kmalloc/original/kmalloc.c.
use challenges.Common.{
  Among, IsDistinct, remove, remove-IsDistinct, remove-kept, remove-le, remove-ne, ℕ, ◌+◌, ◌%◌, ◌^◌,
  ◌≡◌, ◌≢◌, refl, sym, ap, ap₂, ◌∙◌, none, some, List, [], ◌∷◌, ◌==◌, ==_refl, ==-ne, if◌then◌else◌,
  inl, inr, arith, ℕ_discrete,
}
use challenges.Kmalloc.Run.{Live, set_live}
use challenges.Kmalloc.Run.Invariant.{none-some, set_live-same, set_live-other, set_live-cases}
use challenges.Kmalloc.Stats.{count_up, count_down}
use challenges.Kmalloc.Stats.Counter.{index_of}

-- How many of the pointers have the bucket `b` in their header.
unfoldable pub tally : (m : ℕ → ℕ) → (b : ℕ) → List ℕ → ℕ
tally m b [] = 0
tally m b (p ∷ ps) = (if index_of m p == b then 1 else 0) + tally m b ps

tally-cong :
    (m m' : ℕ → ℕ) (b : ℕ) (ps : List ℕ)
    → ((p : ℕ) → Among p ps → index_of m' p ≡ index_of m p)
    → tally m' b ps ≡ tally m b ps
unfolding tally
tally-cong m m' b [] same = refl
tally-cong m m' b (p ∷ ps) same =
    ap₂ (λ i n. (if i == b then 1 else 0) + n) (same p (inl refl))
      (tally-cong m m' b ps (λ q a. same q (inr a)))

tally-remove :
    (m : ℕ → ℕ) (b p : ℕ) (ps : List ℕ)
    → Among p ps
    → tally m b ps ≡ (if index_of m p == b then 1 else 0) + tally m b (remove p ps)
unfolding tally remove
tally-remove m b p [] a = absurd a
tally-remove m b p (x ∷ xs) a = elim (ℕ_discrete x p) [
  | yes same ↦ rw (same, ==_refl p) refl
  | no other ↦ elim a [
    | inl same ↦ absurd (other (sym same))
    | inr later ↦ rw (==-ne x p other) (omega (arith, tally-remove m b p xs later))
  ]
]

count_up-tally :
    (count : ℕ → ℕ) (i b n : ℕ)
    → count b ≡ n % 2 ^ 32
    → count_up count i b ≡ ((if i == b then 1 else 0) + n) % 2 ^ 32
count_up-tally count i b n e = elim (ℕ_discrete i b) [
  | yes same ↦ rw (same, ==_refl b) (omega (arith, e))
  | no other ↦ rw (==-ne i b other, ==-ne b i (λ z. other (sym z))) (omega (arith, e))
]

count_down-tally :
    (count : ℕ → ℕ) (i b n : ℕ)
    → count b ≡ ((if i == b then 1 else 0) + n) % 2 ^ 32
    → count_down count i b ≡ n % 2 ^ 32
count_down-tally count i b n e = elim (ℕ_discrete i b) [
  | yes same ↦
      let more : count b ≡ (1 + n) % 2 ^ 32 = rw (same, ==_refl b) at e in
      rw (same, ==_refl b) (omega (arith, more))
  | no other ↦
      let equal : count b ≡ (0 + n) % 2 ^ 32 = rw (==-ne i b other) at e in
      rw (==-ne b i (λ z. other (sym z))) (omega (arith, equal))
]

-- The pointers that are held, each once, and the counters, modulo the size of an `unsigned int`.
pub record IsTally (m : ℕ → ℕ) (live : Live) (count : ℕ → ℕ) : Type 0 where
  pub pointers : List ℕ
  pub distinct : IsDistinct pointers
  pub held : (p : ℕ) → Among p pointers → (n : ℕ) × (live p ≡ some n)
  pub complete : (p n : ℕ) → live p ≡ some n → Among p pointers
  pub counts : (b : ℕ) → count b ≡ tally m b pointers % 2 ^ 32

module _ {m : ℕ → ℕ} {live : Live} {count : ℕ → ℕ} (t : IsTally m live count) (m' : ℕ → ℕ) where
  -- The same pointers, whatever is held behind them.
  pub same-IsTally :
      (live' : Live)
      → ((p n : ℕ)
          → live p ≡ some n
          → (index_of m' p ≡ index_of m p) × ((k : ℕ) × (live' p ≡ some k)))
      → ((p n : ℕ) → live' p ≡ some n → (k : ℕ) × (live p ≡ some k))
      → IsTally m' live' count
  same-IsTally live' forth back = record {
    pointers = t.pointers;
    distinct = t.distinct;
    held = λ p a. let (n, e) = t.held p a in (forth p n e).1;
    complete = λ p n e. let (k, e') = back p n e in t.complete p k e';
    counts = λ b.
        t.counts b
        ∙ ap (λ n. n % 2 ^ 32)
            (sym
              (tally-cong m m' b t.pointers (λ p a. let (n, e) = t.held p a in (forth p n e).0)));
  }

  pub added-IsTally :
      (p n : ℕ)
      → live p ≡ none
      → ((q k : ℕ) → live q ≡ some k → index_of m' q ≡ index_of m q)
      → IsTally m' (set_live live p (some n)) (count_up count (index_of m' p))
  unfolding tally
  added-IsTally p n free same = record {
    pointers = p ∷ t.pointers;
    distinct = (λ a. let (k, e) = t.held p a in none-some k (sym free ∙ e), t.distinct);
    held = λ q a. elim (ℕ_discrete q p) [
      | yes here ↦ (n, ap (set_live live p (some n)) here ∙ set_live-same live p (some n))
      | no other ↦ elim a [
        | inl here ↦ absurd (other here)
        | inr later ↦ let (k, e) = t.held q later in (k, set_live-other live p q (some n) other ∙ e)
      ]
    ];
    complete = λ q k e. elim (set_live-cases live p q k (some n) e) [
      | inl (here, g) ↦ inl here
      | inr (other, g) ↦ inr (t.complete q k g)
    ];
    counts = λ b.
        let rest = tally-cong m m' b t.pointers (λ q a. let (k, e) = t.held q a in same q k e) in
        count_up-tally count (index_of m' p) b (tally m' b t.pointers)
          (t.counts b ∙ ap (λ n. n % 2 ^ 32) (sym rest));
  }

  pub dropped-IsTally :
      (p n : ℕ)
      → live p ≡ some n
      → ((q k : ℕ) → live q ≡ some k → q ≢ p → index_of m' q ≡ index_of m q)
      → IsTally m' (set_live live p none) (count_down count (index_of m p))
  dropped-IsTally p n holds same = record {
    pointers = remove p t.pointers;
    distinct = remove-IsDistinct p t.pointers t.distinct;
    held = λ q a.
        let (k, e) = t.held q (remove-le p q t.pointers a) in
        (k, set_live-other live p q none (remove-ne p q t.pointers t.distinct a) ∙ e);
    complete = λ q k e. elim (set_live-cases live p q k none e) [
      | inl (here, g) ↦ absurd (none-some k g)
      | inr (other, g) ↦ remove-kept p q t.pointers other (t.complete q k g)
    ];
    counts = λ b.
        let rest = tally-cong m m' b (remove p t.pointers) (λ q a.
          let (k, e) = t.held q (remove-le p q t.pointers a) in
          same q k e (remove-ne p q t.pointers t.distinct a)) in
        let gone = tally-remove m b p t.pointers (t.complete p n holds) in
        count_down-tally count (index_of m p) b (tally m' b (remove p t.pointers)) (
          t.counts b
          ∙ ap (λ n. n % 2 ^ 32)
              (gone ∙ ap (λ n. (if index_of m p == b then 1 else 0) + n) (sym rest)));
  }
