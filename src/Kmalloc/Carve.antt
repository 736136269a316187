-- ===== src/Kmalloc/Carve.antt =====
-- The loop of `morecore` (kmalloc/original/kmalloc.c): fresh memory is cut into a chain of free blocks.
use challenges.Common.{
  ℕ, zero, suc, ◌+◌, ◌*◌, ◌%◌, ◌^◌, ◌≤◌, ◌<◌, ◌≡◌, ◌≢◌, refl, ◌∙◌, sym, ap, inl, inr, arith, subst,
}
use challenges.Memory.{Mem, IsBytes, load_pointer, store_pointer}
use challenges.Memory.Laws.{
  store_pointer-IsBytes, store_pointer-Outside, load_pointer-cong, load_pointer-store_pointer,
  load_pointer-zero,
}
use challenges.Memory.Words.{add64, add64_of_lt}
use challenges.Kmalloc.{carve}
use challenges.Kmalloc.Buckets.{IsPage, block_size}
use challenges.Kmalloc.Layout.{
  unowned, free_block, used_block, Owners, claim, Owns, Chain, Chain-frame, IsPlace,
}
use challenges.Kmalloc.Layout.Switch.{claim-spares, claim_self}

-- The bytes of `suc count` blocks of `size` bytes.
unfoldable pub span : (size count : ℕ) → ℕ
span size zero = size
span size (suc count) = size + span size count

pub span-mul : (size count : ℕ) → span size count ≡ suc count * size
unfolding span
span-mul size zero = omega arith
span-mul size (suc count) = omega (arith, span-mul size count)

-- The owners once the blocks are linked: from `op` on, `suc count` free blocks of bucket `b`.
unfoldable pub carve_owners : Owners → (b size count op : ℕ) → Owners
carve_owners ow b size zero op = claim ow op size (free_block op b 0)
carve_owners ow b size (suc count) op =
    claim (carve_owners ow b size count (op + size)) op size (free_block op b (suc count))

pub carve_owners-below :
    (ow : Owners) (b size count op x : ℕ) → x < op → carve_owners ow b size count op x ≡ ow x
unfolding carve_owners
carve_owners-below ow b size zero op x h = ground arith
carve_owners-below ow b size (suc count) op x h =
    ground (arith, carve_owners-below ow b size count (op + size) x)

pub carve_owners-above :
    (ow : Owners) (b size count op x : ℕ)
    → op + span size count ≤ x
    → carve_owners ow b size count op x ≡ ow x
unfolding carve_owners span
carve_owners-above ow b size zero op x h = ground arith
carve_owners-above ow b size (suc count) op x h =
    ground (arith, carve_owners-above ow b size count (op + size) x)

-- No block is put in use.
pub carve_owners-used :
    (ow : Owners) (b size count op x q c : ℕ)
    → carve_owners ow b size count op x ≡ used_block q c
    → ow x ≡ used_block q c
unfolding carve_owners
carve_owners-used ow b size zero op x q c h = ground arith
carve_owners-used ow b size (suc count) op x q c h =
    ground (arith, carve_owners-used ow b size count (op + size) x q c)

-- The blocks have room below 2 ^ 63, at aligned addresses.
pub record IsRoom (size count op : ℕ) : Type 0 where
  pub not_null : op ≢ 0
  pub aligned : op % 8 ≡ 0
  pub even : size % 8 ≡ 0
  pub below : op + span size count ≤ 2 ^ 63
  pub big : 8 ≤ size

IsRoom-suc : {size count op : ℕ} → IsRoom size (suc count) op → IsRoom size count (op + size)
unfolding span
IsRoom-suc r = record {
  not_null = omega (arith, r.big);
  aligned = omega (arith, r.aligned, r.even);
  even = r.even;
  below = omega (arith, r.below);
  big = r.big;
}

next_lt : {size count op : ℕ} → IsRoom size (suc count) op → op + size < 2 ^ 64
unfolding span
next_lt r = omega (arith, r.below)

pub carve-below :
    {size count op : ℕ} (m : Mem) (x : ℕ)
    → IsRoom size count op
    → x < op
    → carve count size m op x ≡ m x
unfolding carve
carve-below {count = zero} m x r h = refl
carve-below {size} {count = suc count} {op} m x r h = rw (add64_of_lt op size (next_lt r)) (
    carve-below {count = count} (store_pointer m op (op + size)) x (IsRoom-suc r) (omega arith)
    ∙ store_pointer-Outside m op (op + size) x (inl h))

pub carve-above :
    {size count op : ℕ} (m : Mem) (x : ℕ)
    → IsRoom size count op
    → op + span size count ≤ x
    → carve count size m op x ≡ m x
unfolding carve span
carve-above {count = zero} m x r h = refl
carve-above {size} {count = suc count} {op} m x r h = rw (add64_of_lt op size (next_lt r)) (
    carve-above {count = count} (store_pointer m op (op + size)) x (IsRoom-suc r) (omega arith)
    ∙ store_pointer-Outside m op (op + size) x (inr (omega (arith, r.big))))

pub carve-IsBytes :
    (count size : ℕ) {m : Mem} (op : ℕ) → IsBytes m → IsBytes (carve count size m op)
unfolding carve
carve-IsBytes zero size op h = h
carve-IsBytes (suc count) size op h =
    carve-IsBytes count size (add64 op size) (store_pointer-IsBytes op (add64 op size) h)

room-IsPlace :
    {pagesz pagebucket : ℕ} (page : IsPage pagesz pagebucket) (b count op : ℕ)
    → IsRoom (block_size pagesz b) count op
    → IsPlace pagesz b op
unfolding span
room-IsPlace page b zero op r = record {
  not_null = r.not_null;
  aligned = r.aligned;
  below = r.below;
}
room-IsPlace page b (suc count) op r = record {
  not_null = r.not_null;
  aligned = r.aligned;
  below = omega (arith, r.below);
}

pub carve-zero : (size : ℕ) (m : Mem) (op : ℕ) → carve zero size m op ≡ m
unfolding carve
carve-zero size m op = refl

carve-suc :
    {size count op : ℕ} (m : Mem)
    → IsRoom size (suc count) op
    → carve (suc count) size m op ≡ carve count size (store_pointer m op (op + size)) (op + size)
unfolding carve
carve-suc {size} {op} m r = rw (add64_of_lt op size (next_lt r))

-- The first block is linked to the one behind it.
pub carve-first :
    {size count op : ℕ} (m : Mem)
    → IsRoom size (suc count) op
    → load_pointer (carve (suc count) size m op) op ≡ op + size
carve-first {size} {count} {op} m r =
    let linked : Mem = store_pointer m op (op + size) in
    rw (carve-suc m r) (
      load_pointer-cong (carve count size linked (op + size)) linked op
        (λ q l u. carve-below {count = count} linked q (IsRoom-suc r) (omega (arith, r.big)))
      ∙ load_pointer-store_pointer m op (op + size) (next_lt r))

-- In blank memory the loop makes a chain of `suc count` free blocks.
pub carve-Chain :
    {pagesz pagebucket : ℕ} (page : IsPage pagesz pagebucket) (ow : Owners) (b count op : ℕ)
    (m : Mem)
    → IsRoom (block_size pagesz b) count op
    → ((x : ℕ) → op ≤ x → ow x ≡ unowned)
    → ((x : ℕ) → op ≤ x → m x ≡ 0)
    → Chain pagesz
        (carve count (block_size pagesz b) m op)
        (carve_owners ow b (block_size pagesz b) count op)
        b
        (suc count)
        op
unfolding carve_owners
carve-Chain {pagesz} page ow b zero op m r free blank = (
  room-IsPlace page b zero op r,
  claim_self ow op (block_size pagesz b) (free_block op b 0),
  rw (carve-zero (block_size pagesz b) m op) (load_pointer-zero m op blank),
)
carve-Chain {pagesz} page ow b (suc count) op m r free blank =
    subst (λ m'. Chain pagesz m' owners b (suc (suc count)) op) (sym (carve-suc m r))
      (
        room-IsPlace page b (suc count) op r,
        claim_self rest op size (free_block op b (suc count)),
        subst (λ p. Chain pagesz filled owners b (suc count) p) (sym link)
            (Chain-frame page filled filled rest owners b (suc count) (op + size)
              (λ x q k e lt.
                claim-spares {m = filled} {m' = filled} rest op size unowned _ still_free
                  (λ y out. refl) x (λ s. cc))
              (carve-Chain page ow b count (op + size) linked (IsRoom-suc r)
                (λ x l. free x (omega arith))
                (λ x l.
                  store_pointer-Outside m op (op + size) x (inr (omega (arith, r.big)))
                  ∙ blank x (omega arith)))),
      )
  where
    size : ℕ
    size = block_size pagesz b

    rest : Owners
    rest = carve_owners ow b size count (op + size)

    owners : Owners
    owners = claim rest op size (free_block op b (suc count))

    linked : Mem
    linked = store_pointer m op (op + size)

    filled : Mem
    filled = carve count size linked (op + size)

    still_free : Owns rest op size unowned
    still_free x l u = carve_owners-below ow b size count (op + size) x u ∙ free x l

    link : load_pointer filled op ≡ op + size
    link = ap (λ m'. load_pointer m' op) (sym (carve-suc m r)) ∙ carve-first {count = count} m r
