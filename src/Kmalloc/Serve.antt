-- ===== src/Kmalloc/Serve.antt =====
-- `kmalloc` (kmalloc/original/kmalloc.c) once the page size is set: a block is found, or NULL is
-- returned for a reason.
use challenges.Common.{
  ℕ, zero, suc, ◌+◌, ◌≤◌, ◌<◌, ◌≡◌, ◌≢◌, refl, ◌∙◌, sym, subst, ◌==◌, ◌⊎◌, inl, inr, arith,
  if◌then◌else◌, true, false, Option, none, some, Bool-cases, ◌>>=◌, ==_refl, ==_iff, ==-ne,
  lt→not_leb,
}
use challenges.Memory.{null}
use challenges.Memory.Words.{minus_one}
use challenges.Kmalloc.{
  Os, IsOs, Heap, nbuckets, overhead_size, update, morecore, take_block, obtain_block, serve,
  more_amount,
}
use challenges.Kmalloc.Buckets.{bucket_size, bucket_size-ge, block_size, block_size-ge, last_bucket}
use challenges.Kmalloc.Buckets.Choice.{Chosen, choose_bucket-Chosen}
use challenges.Kmalloc.Layout.{unowned, free_block, used_block, Owners, claim, Owns, Chain, IsHeap}
use challenges.Kmalloc.Layout.Switch.{claim-spares, claim_self}
use challenges.Kmalloc.Morecore.{morecore-Grown}
use challenges.Kmalloc.Take.{IsTaken, take_block-IsTaken}

-- No block in use loses a byte: its contents and its owner stay.
abbrev pub Keeps : {W : Type 0} → Heap W → Heap W → Owners → Owners → Type 0
Keeps h h' ow ow' =
    (x q c : ℕ) → ow x ≡ used_block q c → (h'.mem x ≡ h.mem x) × (ow' x ≡ used_block q c)

-- `p` is the data of a new block, the least that holds the request, made of bytes that no block in
-- use had before.
pub record IsFresh (pagesz : ℕ) (before after : Owners) (nbytes p : ℕ) : Type 0 where
  pub start : ℕ
  pub bucket : ℕ
  pub pointer : p ≡ start + overhead_size
  pub holds : Chosen pagesz nbytes (some bucket)
  pub owns : Owns after start (block_size pagesz bucket) (used_block start bucket)
  pub unused :
      (x q c : ℕ) → start ≤ x → x < start + block_size pagesz bucket → before x ≢ used_block q c

module _ {W : Type 0} (os : Os W) (brk : W → ℕ) where
  -- Why a request is refused: no block is that large, or the list of its bucket is empty and either no
  -- memory is asked for, for the last bucket, or `sbrk` has none.
  abbrev pub Refused : Heap W → (nbytes : ℕ) → Type 0
  Refused h nbytes =
      Chosen h.pagesz nbytes none
      ⊎ ((b : ℕ) × Chosen h.pagesz nbytes (some b)
          × (h.nextf b ≡ 0)
          × ((b ≡ last_bucket)
              ⊎ ((os.sbrk h.world (more_amount os h.pagesz (bucket_size b))).0 ≡ minus_one)))

  -- The heap is well formed after the call, nothing in use has changed, and the pointer is new or
  -- NULL for a reason.
  pub record IsServed (h : Heap W) (ow : Owners) (nbytes p : ℕ) (h' : Heap W) : Type 0 where
    pub owners : Owners
    pub lengths : ℕ → ℕ
    pub heap : IsHeap brk h' owners lengths
    pub same_page : h'.pagesz ≡ h.pagesz
    pub keeps : Keeps h h' ow owners
    -- Of a free block at most the two bytes of the header change.
    pub frees : (x q c k : ℕ) → ow x ≡ free_block q c k → q + 2 ≤ x → h'.mem x ≡ h.mem x
    pub answer : IsFresh h.pagesz ow owners nbytes p ⊎ ((p ≡ null) × Refused h nbytes)

  module _ (h h' h'' : Heap W) (ow ow' : Owners) (len : ℕ → ℕ) (p b nbytes start behind : ℕ)
      (big : 8 ≤ block_size h'.pagesz b) (same_page : h'.pagesz ≡ h.pagesz)
      (chosen : Chosen h.pagesz nbytes (some b))
      (spares : (x : ℕ) → ow x ≢ unowned → (h'.mem x ≡ h.mem x) × (ow' x ≡ ow x))
      (t : IsTaken brk h' ow' len b start behind p h'') where
    abbrev size : ℕ
    size = block_size h'.pagesz b

    abbrev after : Owners
    after = claim ow' start size (used_block start b)

    taken-Keeps : Keeps h h'' ow after
    taken-Keeps x q c f =
        let (m, o) = spares x (λ s. cc) in
        let (m', o') =
          claim-spares {m = h'.mem} {m' = h''.mem} ow' start size (free_block start b behind)
            (used_block start b) t.was_free (λ y out. t.kept y (ground arith) (ground arith)) x
            (λ s. cc) in
        (m' ∙ m, o' ∙ o ∙ f)

    taken-frees : (x q c k : ℕ) → ow x ≡ free_block q c k → q + 2 ≤ x → h''.mem x ≡ h.mem x
    taken-frees x q c k f l =
        let (m, o) = spares x (λ s. cc) in
        t.kept x (λ s. elsewhere x q c k (o ∙ f) l (omega arith) (omega arith))
          (λ s. elsewhere x q c k (o ∙ f) l (omega arith) (omega arith))
        ∙ m
      where
        elsewhere :
            (x q c k : ℕ) → ow' x ≡ free_block q c k → q + 2 ≤ x → start ≤ x → x < start + 2 → ⊥
        elsewhere x q c k g l low high =
            let was = t.was_free x low (omega (arith, big)) in let e : q ≡ start = cc in omega arith

    taken-IsFresh : IsFresh h.pagesz ow after nbytes p
    taken-IsFresh = record {
      start = start;
      bucket = b;
      pointer = t.pointer;
      holds = chosen;
      owns =
          subst (λ k. Owns after start (block_size k b) (used_block start b)) same_page
            (claim_self ow' start size (used_block start b));
      unused = λ x q c l r f.
          let (m, o) = spares x (λ s. cc) in
          let r' : x < start + size = subst (λ k. x < start + block_size k b) (sym same_page) r in
          let was = t.was_free x l r' in cc;
    }

    Taken-IsServed : IsServed h ow nbytes p h''
    Taken-IsServed = record {
      owners = after;
      lengths = update len b behind;
      heap = t.heap;
      same_page = t.same_page ∙ same_page;
      keeps = taken-Keeps;
      frees = taken-frees;
      answer = inl taken-IsFresh;
    }

  filled :
      (h : Heap W) (ow : Owners) (n : ℕ) {len : ℕ → ℕ}
      → IsHeap brk h ow len
      → (b : ℕ) → b ≤ last_bucket
      → len b ≡ suc n
      → (h.nextf b == null) ≡ false
  filled h ow n inv b le full =
      let front =
        subst (λ k. Chain h.pagesz h.mem ow b k (h.nextf b)) full (inv.chains b (omega arith)) in
      ==-ne (h.nextf b) null (front.0).not_null

  module _ (is_os : IsOs os brk) {h : Heap W} {ow : Owners} {len : ℕ → ℕ}
      (inv : IsHeap brk h ow len) (nbytes : ℕ) where
    abbrev pub Served : Option (ℕ × Heap W) → Type 0
    Served r = (p : ℕ) × (h' : Heap W) × (r ≡ some (p, h')) × IsServed h ow nbytes p h'

    unchanged : Refused h nbytes → IsServed h ow nbytes null h
    unchanged why = record {
      owners = ow;
      lengths = len;
      heap = inv;
      same_page = refl;
      keeps = λ x q c e. (refl, e);
      frees = λ x q c k e l. refl;
      answer = inr (refl, why);
    }

    big : (b : ℕ) → 8 ≤ block_size h.pagesz b
    big b = omega (arith, block_size-ge inv.page b, bucket_size-ge b)

    nonempty : (b n p : ℕ) → Chain h.pagesz h.mem ow b n p → p ≢ 0 → (k : ℕ) × (n ≡ suc k)
    nonempty b zero p c ne = absurd (ne c)
    nonempty b (suc k) p c ne = (k, refl)

    -- What `kmalloc` does with what `morecore` leaves.
    refilled : ℕ → Heap W → ℕ × Heap W
    refilled b h' = if h'.nextf b == null then (null, h') else take_block os b h'

    refill-Served :
        (b : ℕ)
        → b ≤ last_bucket
        → Chosen h.pagesz nbytes (some b)
        → h.nextf b ≡ 0
        → Served (morecore os b h >>= λ h'. some (refilled b h'))
    unfolding refilled
    refill-Served b le chosen empty =
        let (h', e, (same_page, outcome)) = morecore-Grown os is_os inv b le empty in
        rw e (elim outcome [
          | inl (none_left, why, inv', same) ↦
              let test : (h'.nextf b == null) ≡ true = (==_iff (h'.nextf b) null).1 none_left in
              rw test (
                null,
                h',
                refl,
                record {
                  owners = ow;
                  lengths = len;
                  heap = inv';
                  same_page = same_page;
                  keeps = λ x q c f. (same x, f);
                  frees = λ x q c k f l. same x;
                  answer = inr (refl, inr (b, chosen, empty, why));
                },
              )
          | inr (ow', n, inv', spares) ↦
              let full : update len b (suc n) b ≡ suc n = rw (==_refl b) in
              let test : (h'.nextf b == null) ≡ false = filled h' ow' n inv' b le full in
              rw test (
                (take_block os b h').0,
                (take_block os b h').1,
                refl,
                Taken-IsServed h h' _ ow ow' (update len b (suc n)) _ b nbytes _ _
                    (subst (λ k. 8 ≤ block_size k b) (sym same_page) (big b)) same_page chosen
                    spares (take_block-IsTaken os inv' b n le full),
              )
        ])

    obtain-Served :
        (b : ℕ) → b ≤ last_bucket → Chosen h.pagesz nbytes (some b) → Served (obtain_block os b h)
    unfolding obtain_block refilled
    obtain-Served b le chosen =
        rw (lt→not_leb nbuckets b (omega arith)) (elim (Bool-cases (h.nextf b == null)) [
          | inl e ↦ rw e (refill-Served b le chosen ((==_iff (h.nextf b) null).0 e))
          | inr ne ↦
              let (n, full) =
                nonempty b (len b) (h.nextf b) (inv.chains b (omega arith)) (ground arith) in
              rw ne (
                (take_block os b h).0,
                (take_block os b h).1,
                refl,
                Taken-IsServed h h _ ow ow len _ b nbytes _ _ (big b) refl chosen
                    (λ x s. (refl, refl)) (take_block-IsTaken os inv b n le full),
              )
        ])

    -- What `kmalloc` does with what its size loop finds.
    Chosen-Served :
        (r : Option ℕ)
        → Chosen h.pagesz nbytes r
        → Served (elim r [ none ↦ some (null, h) | some b ↦ obtain_block os b h ])
    Chosen-Served none chosen = (null, h, refl, unchanged (inl chosen))
    Chosen-Served (some b) chosen = obtain-Served b chosen.1 chosen

    -- A request of any size is answered, and the loop ends.
    pub serve-IsServed : Served (serve os nbytes h)
    unfolding serve
    serve-IsServed =
        let (r, e, chosen) = choose_bucket-Chosen inv.page nbytes in rw e (Chosen-Served r chosen)
