-- ===== src/Kmalloc/Resize/Search.antt =====
-- `findbucket` of kmalloc/original/kmalloc.c on the free lists of a well-formed heap.
use challenges.Common.{
  ℕ, zero, suc, ◌+◌, ◌≤◌, ◌<◌, ◌≡◌, ◌≢◌, ◌⊎◌, refl, sym, ap, Bool, true, false, none, some, ◌==◌,
  ◌||◌, ==_iff, ==-ne, arith, Bool-cases, inl, inr, ℕ_discrete,
}
use challenges.Memory.{Mem, null, load_pointer}
use challenges.Kmalloc.{Os, Heap, nbuckets, ov_next}
use challenges.Kmalloc.Buckets.{block_size, block_size-ge, bucket_size-ge, IsPage}
use challenges.Kmalloc.Layout.{free_block, Owners, Owns, IsPlace, Chain, IsHeap}
use challenges.Kmalloc.Resize.{search_list, search_buckets, findbucket, free_bucket}

-- The block that stands behind `d` others in the list that begins at `p`.
unfoldable pub nth_free : Mem → (p d : ℕ) → ℕ
nth_free m p zero = p
nth_free m p (suc d) = nth_free m (load_pointer m p) d

-- With a search length of `srchlen` the search ends, if the fuel allows one block more.
search_list-some :
    (fuel : ℕ) (m : Mem) (op srchlen p j : ℕ)
    → j ≤ srchlen
    → srchlen < j + fuel
    → (found : Bool) × (search_list fuel m op srchlen p j ≡ some found)
unfolding search_list
search_list-some zero m op srchlen p j low enough = absurd (omega (arith, low, enough))
search_list-some (suc fuel) m op srchlen p j low enough =
    elim (Bool-cases ((p == null) || (j == srchlen))) [
      | inl over ↦ (false, rw over refl)
      | inr more ↦ elim (Bool-cases (p == op)) [
        | inl here ↦ (true, rw (more, here) refl)
        | inr other ↦
            let (found, e) =
              search_list-some fuel m op srchlen (ov_next m p) (j + 1) (ground (arith, low, more))
                (omega (arith, enough)) in
            (found, rw (more, other) e)
      ]
    ]

module _ {pagesz pagebucket : ℕ} (page : IsPage pagesz pagebucket) (m : Mem) (ow : Owners) where
  -- What a list says of the block behind `d` others.
  pub Chain-nth :
      (b n d p : ℕ)
      → Chain pagesz m ow b n p
      → d < n
      → (rank : ℕ) × IsPlace pagesz b (nth_free m p d)
        × Owns ow (nth_free m p d) (block_size pagesz b) (free_block (nth_free m p d) b rank)
        × Chain pagesz m ow b rank (load_pointer m (nth_free m p d))
  unfolding nth_free
  Chain-nth b zero d p chain low = absurd (omega (arith, low))
  Chain-nth b (suc n) zero p (place, own, rest) low = (n, place, own, rest)
  Chain-nth b (suc n) (suc d) p (place, own, rest) low =
      Chain-nth b n d (load_pointer m p) rest (omega (arith, low))

  module _ (op b rank : ℕ) (owner : ow op ≡ free_block op b rank) where
    -- The block is in no other list.
    search_list-other :
        (fuel srchlen i n p j : ℕ)
        → i ≢ b
        → Chain pagesz m ow i n p
        → j ≤ srchlen
        → srchlen < j + fuel
        → search_list fuel m op srchlen p j ≡ some false
    unfolding search_list
    search_list-other zero srchlen i n p j other chain low enough =
        absurd (omega (arith, low, enough))
    search_list-other (suc fuel) srchlen i zero p j other chain low enough = rw chain refl
    search_list-other (suc fuel) srchlen i (suc n) p j other (place, own, rest) low enough =
        elim (Bool-cases ((p == null) || (j == srchlen))) [
          | inl over ↦ rw over refl
          | inr more ↦
              let here : ow p ≡ free_block p i n =
                own p (omega arith) (omega (arith, block_size-ge page i, bucket_size-ge i)) in
              let apart : (p == op) ≡ false = ==-ne p op (λ z. other (one_list p i n z here)) in
              rw (more, apart)
                (search_list-other fuel srchlen i n (ov_next m p) (j + 1) other rest
                  (ground (arith, low, more)) (omega (arith, enough)))
        ]
      where
        one_list : (p i n : ℕ) → p ≡ op → ow p ≡ free_block p i n → i ≡ b
        one_list p i n z here = let there = ap ow z in cc

    search_list-found :
        (d fuel srchlen n p j : ℕ)
        → Chain pagesz m ow b n p
        → d < n
        → op ≡ nth_free m p d
        → j + d < srchlen
        → d < fuel
        → search_list fuel m op srchlen p j ≡ some true
    unfolding search_list nth_free
    search_list-found d zero srchlen n p j chain low at near enough = absurd (omega (arith, enough))
    search_list-found d (suc fuel) srchlen zero p j chain low at near enough =
        absurd (omega (arith, low))
    search_list-found zero (suc fuel) srchlen (suc n) p j (place, own, rest) low at near enough =
        let there : (p == null) ≡ false = ==-ne p null place.not_null in
        let within : (j == srchlen) ≡ false =
          ==-ne j srchlen (λ z. absurd (omega (arith, z, near))) in
        let here : (p == op) ≡ true = (==_iff p op).1 (sym at) in rw (there, within, here) refl
    search_list-found (suc d) (suc fuel) srchlen (suc n) p j (place, own, rest) low at near enough =
        let there : (p == null) ≡ false = ==-ne p null place.not_null in
        let within : (j == srchlen) ≡ false =
          ==-ne j srchlen (λ z. absurd (omega (arith, z, near))) in
        rw (there, within)
          (elim (Bool-cases (p == op)) [
            | inl here ↦ rw here refl
            | inr other ↦ rw other (
                search_list-found d fuel srchlen n (ov_next m p) (j + 1) rest (omega (arith, low))
                  at (omega (arith, near)) (omega (arith, enough)))
          ])

module _ {W : Type 0} {brk : W → ℕ} {h : Heap W} {ow : Owners} {len : ℕ → ℕ}
    (inv : IsHeap brk h ow len) (op b rank fuel : ℕ) (owner : ow op ≡ free_block op b rank) where
  passed :
      (srchlen i : ℕ)
      → srchlen < fuel
      → i < nbuckets
      → i ≢ b
      → search_list fuel h.mem op srchlen (h.nextf i) 0 ≡ some false
  passed srchlen i enough low other =
      search_list-other inv.page h.mem ow op b rank owner fuel srchlen i (len i) (h.nextf i) 0 other
        (inv.chains i low) (omega arith) (omega (arith, enough))

  -- A search answers with the bucket of the block, or does not come to it.
  search_buckets-cases :
      (count srchlen i : ℕ)
      → srchlen < fuel
      → i + count ≤ nbuckets
      → (search_buckets count fuel h op srchlen i ≡ some none)
        ⊎ (search_buckets count fuel h op srchlen i ≡ some (some b))
  unfolding search_buckets
  search_buckets-cases zero srchlen i enough low = inl refl
  search_buckets-cases (suc count) srchlen i enough low =
      let next = search_buckets-cases count srchlen (i + 1) enough (omega (arith, low)) in
      elim (ℕ_discrete i b) [
        | no other ↦ rw (passed srchlen i enough (omega (arith, low)) other) next
        | yes here ↦
            let (found, e) =
              search_list-some fuel h.mem op srchlen (h.nextf i) 0 (omega arith)
                (omega (arith, enough)) in
            elim (Bool-cases found) [
              | inl there ↦ inr (rw (e, there) (ap (λ k. some (some k)) here))
              | inr missed ↦ rw (e, missed) next
            ]
      ]

  module _ (d srchlen : ℕ) (enough : srchlen < fuel) (at : op ≡ nth_free h.mem (h.nextf b) d)
      (low : d < len b) (near : d < srchlen) (bucket : b < nbuckets) where
    search_buckets-found :
        (count i : ℕ)
        → i ≤ b
        → b < i + count
        → i + count ≤ nbuckets
        → search_buckets count fuel h op srchlen i ≡ some (some b)
    unfolding search_buckets
    search_buckets-found zero i before behind all = absurd (omega (arith, before, behind))
    search_buckets-found (suc count) i before behind all = elim (ℕ_discrete i b) [
      | no other ↦ rw (passed srchlen i enough (omega (arith, all)) other) (
          search_buckets-found count (i + 1) (omega (arith, before, other)) (omega (arith, behind))
            (omega (arith, all)))
      | yes here ↦
          let found : search_list fuel h.mem op srchlen (h.nextf b) 0 ≡ some true =
            search_list-found inv.page h.mem ow op b rank owner d fuel srchlen (len b) (h.nextf b) 0
              (inv.chains b bucket) low at (omega (arith, near)) (omega (arith, near, enough)) in
          rw (here, found) refl
    ]

    -- One of the two searches of `krealloc` finds the block.
    pub free_bucket-found : (os : Os W) → 1 < fuel → free_bucket os fuel srchlen h op ≡ some b
    unfolding free_bucket findbucket
    free_bucket-found os more =
        let later : search_buckets nbuckets fuel h op srchlen 0 ≡ some (some b) =
          search_buckets-found nbuckets 0 (omega arith) (omega (arith, bucket)) (omega arith) in
        elim (search_buckets-cases nbuckets 1 0 more (omega arith)) [
          | inl missed ↦ rw (missed, later) refl
          | inr found ↦ rw found refl
        ]
