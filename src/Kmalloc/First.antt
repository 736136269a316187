-- ===== src/Kmalloc/First.antt =====
-- Whole calls of `kmalloc` (kmalloc/original/kmalloc.c): the first, which sets up the page size and the
-- break, and every later one.
use native.Mathlib.Nat.{mul-mod_right, div-add-mod}
use challenges.Common.{
  ℕ, ◌+◌, ◌*◌, ◌/◌, ◌%◌, ◌≤◌, ◌<◌, ◌≡◌, ◌≢◌, refl, ◌∙◌, sym, ap, subst, ◌==◌, ◌⊎◌, inl, inr, arith,
  Bool, true, false, Option, some, Bool-cases, ==_iff, ==-ne,
}
use challenges.Memory.{IsBytes, null}
use challenges.Memory.Words.{minus_one}
use challenges.Kmalloc.{Os, IsOs, Heap, overhead_size, align_gap, setup, kmalloc}
use challenges.Kmalloc.Buckets.{IsPage, bucket_size-even, pagesz-ge}
use challenges.Kmalloc.Setup.{page_loop_lem, align_gap_lem}
use challenges.Kmalloc.Layout.{Owners, unowned, IsHeap}
use challenges.Kmalloc.Serve.{serve-IsServed, Served}

-- The static variables as the loader leaves them, and a break above which nothing was written.
pub record IsInitial {W : Type 0} (brk : W → ℕ) (h : Heap W) : Type 0 where
  pub no_page : h.pagesz ≡ 0
  pub no_bucket : h.pagebucket ≡ 0
  pub empty : (b : ℕ) → h.nextf b ≡ null
  pub bytes : IsBytes h.mem
  pub blank : (x : ℕ) → brk h.world ≤ x → h.mem x ≡ 0
  pub brk_pos : 0 < brk h.world

abbrev pub nobody : Owners
nobody _ = unowned

multiple_of_8 : (x page : ℕ) → page % 8 ≡ 0 → x % page ≡ 0 → x % 8 ≡ 0
multiple_of_8 x page e f =
    let whole : page ≡ 8 * (page / 8) = omega arith in
    let scaled : page * (x / page) ≡ 8 * (page / 8) * (x / page) =
      ap (λ (t : ℕ). t * (x / page)) whole in
    ap (λ t. t % 8) (omega (arith, div-add-mod x page, f, scaled))
    ∙ mul-mod_right 8 (page / 8 * (x / page))

module _ {W : Type 0} (os : Os W) {brk : W → ℕ} (is_os : IsOs os brk) where
  -- On a well-formed heap, with `1 << 31` on an `int` as the negative number that compilers make
  -- of it, a request of any size is answered: `kmalloc` reaches no other undefined behaviour and
  -- its loops end, the heap stays well formed, no block in use changes, and the result is a block
  -- that was not in use, from the least bucket that holds the request, or NULL, and then no
  -- bucket is large enough, or the list of the bucket is empty and either it is the last bucket,
  -- for which that number is the size and no memory is asked for, or `sbrk` has no memory for it.
  pub kmalloc-IsServed :
      {h : Heap W} {ow : Owners} {len : ℕ → ℕ} (inv : IsHeap brk h ow len) (nbytes : ℕ)
      → Served os brk is_os inv nbytes (kmalloc os nbytes h)
  unfolding kmalloc
  kmalloc-IsServed {h} inv nbytes =
      rw (==-ne h.pagesz 0 (λ e. absurd (omega (arith, pagesz-ge inv.page, e))))
        (serve-IsServed os brk is_os inv nbytes)

  module _ {pagebucket : ℕ} (page : IsPage os.page_size pagebucket) {h : Heap W}
      (init : IsInitial brk h) where
    -- What the call asks for to align the break.
    abbrev pub gap : ℕ
    gap = align_gap os.page_size (brk h.world)

    abbrev pub gap_answer : ℕ × W
    gap_answer = os.sbrk (os.sbrk h.world 0).1 gap

    abbrev pub ready : W → Heap W
    ready w = record h { pagesz = os.page_size; pagebucket = pagebucket; world = w }

    abbrev pub unready : Heap W
    unready = record h { pagesz = os.page_size; world = gap_answer.1 }

    still : brk (os.sbrk h.world 0).1 ≡ brk h.world
    still = elim (is_os.sbrk-cases h.world 0) [
      | inl (e, moved) ↦ omega arith
      | inr (e, same) ↦ same
    ]

    page_even : os.page_size % 8 ≡ 0
    page_even = omega (arith, page.shape, bucket_size-even pagebucket)

    pub ready-IsHeap : (w : W) → brk w ≡ brk h.world + gap → IsHeap brk (ready w) nobody (λ _. 0)
    ready-IsHeap w moved = record {
      bytes = init.bytes;
      page = page;
      chains = λ b lt. init.empty b;
      used = λ x a b e. cc;
      inside = λ x a b e. cc;
      above = λ x l. (refl, init.blank x (omega arith));
      top = λ b l. refl;
      brk_aligned =
          let on_page : (brk w + overhead_size) % os.page_size ≡ 0 =
            subst (λ t. (t + overhead_size) % os.page_size ≡ 0) (sym moved)
              (align_gap_lem page (brk h.world)).0 in
          omega (arith, multiple_of_8 (brk w + overhead_size) os.page_size page_even on_page);
      brk_pos = omega (arith, init.brk_pos);
    }

    -- The first call sets the page up, or finds no memory to align the break with.
    abbrev pub SetUp : Option (Bool × Heap W) → Type 0
    SetUp r =
        ((w : W) × (r ≡ some (true, ready w)) × (brk w ≡ brk h.world + gap))
        ⊎ ((r ≡ some (false, unready)) × (gap ≢ 0) × (gap_answer.0 ≡ minus_one))

    pub setup-SetUp : SetUp (setup os h)
    unfolding setup
    setup-SetUp = elim (Bool-cases (gap == 0)) [
      | inl none_needed ↦
          rw (is_os.sbrk-zero h.world, none_needed, page_loop_lem page)
            (inl ((os.sbrk h.world 0).1, refl, ground (arith, still)))
      | inr needed ↦ elim (is_os.sbrk-cases (os.sbrk h.world 0).1 gap) [
        | inl (e, moved) ↦
            let test : (gap_answer.0 == minus_one) ≡ false =
              ground (arith, e, is_os.brk-lt (os.sbrk h.world 0).1) in
            rw (is_os.sbrk-zero h.world, needed, test, page_loop_lem page)
              (inl (gap_answer.1, refl, omega (arith, still, moved)))
        | inr (e, same) ↦
            let test : (gap_answer.0 == minus_one) ≡ true = (==_iff gap_answer.0 minus_one).1 e in
            rw (is_os.sbrk-zero h.world, needed, test) (inr (refl, ground arith, e))
      ]
    ]

    -- From the static variables as they are loaded, with a page size that is a power of two and
    -- memory that is zero above the break, the first call of `kmalloc` sets up a well-formed
    -- heap with nothing in it and answers as a later call does from there, or it returns NULL
    -- because `sbrk` fails to align the break.
    pub kmalloc-first :
        (nbytes : ℕ)
        → ((w : W) × (inv : IsHeap brk (ready w) nobody (λ _. 0)) × Served os brk is_os inv nbytes
              (kmalloc os nbytes h))
          ⊎ ((kmalloc os nbytes h ≡ some (null, unready)) × (gap_answer.0 ≡ minus_one))
    unfolding kmalloc
    kmalloc-first nbytes =
        let first : (h.pagesz == 0) ≡ true = (==_iff h.pagesz 0).1 init.no_page in
        rw first (elim setup-SetUp [
          | inl (w, e, moved) ↦
              let inv = ready-IsHeap w moved in
              rw e (inl (w, inv, serve-IsServed os brk is_os inv nbytes))
          | inr (e, needed, failed) ↦ rw e (inr (refl, failed))
        ])
