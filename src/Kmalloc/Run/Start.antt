-- ===== src/Kmalloc/Run/Start.antt =====
-- Where a run of a program that uses kmalloc/original/kmalloc.c starts, and the invariant in every run.
use challenges.Common.{
  ℕ, ◌+◌, ◌*◌, ◌%◌, ◌^◌, ◌≡◌, ◌≢◌, refl, sym, ap, ◌∙◌, subst, some, true, false, ◌==◌, ==_iff,
  ==-ne, ◌⊎◌, inl, inr, arith,
}
use challenges.Memory.{null}
use challenges.Memory.Words.{minus_one}
use challenges.Kmalloc.{Os, IsOs, Heap, setup, kmalloc}
use challenges.Kmalloc.Buckets.{IsPage, pagesz-ge}
use challenges.Kmalloc.Layout.{IsHeap}
use challenges.Kmalloc.First.{
  IsInitial, nobody, gap, gap_answer, ready, ready-IsHeap, setup-SetUp, kmalloc-IsServed,
  kmalloc-first,
}
use challenges.Kmalloc.Resize.{kcalloc}
use challenges.Kmalloc.Run.{
  Live, no_live, set_live, Step, allocated, refused, released, cleared, resized, dropped, written,
  Reach, begun, later,
}
use challenges.Kmalloc.Run.Resizing.{cleared-IsRun, resized-IsRun, dropped-IsRun}
use challenges.Kmalloc.Run.Invariant.{
  IsRun, none-some, allocated-IsRun, refused-IsRun, released-IsRun, written-IsRun,
}

-- The page size is set and no block is in use, or the static variables are as they are loaded, and
-- `sbrk` has memory to align the break.
pub data IsStart {W : Type 0} (os : Os W) {brk : W → ℕ} (is_os : IsOs os brk) (h : Heap W)
    : Type 0 where
  set_up : (len : ℕ → ℕ) → IsHeap brk h nobody len → IsStart os is_os h
  loaded :
      {pagebucket : ℕ} (page : IsPage os.page_size pagebucket) (init : IsInitial brk h)
      → (gap_answer os is_os page init).0 ≢ minus_one
      → IsStart os is_os h

module _ {W : Type 0} (os : Os W) {brk : W → ℕ} (is_os : IsOs os brk) where
  pub Step-IsRun :
      {h h' : Heap W} {live live' : Live}
      → Step os h live h' live'
      → IsRun brk h live
      → IsRun brk h' live'
  Step-IsRun (allocated nbytes p e real) run = allocated-IsRun os is_os nbytes p e real run
  Step-IsRun (refused nbytes e) run = refused-IsRun os is_os nbytes e run
  Step-IsRun (released p n holds e) run = released-IsRun os is_os p n holds e run
  Step-IsRun {h' = h'} {live} (cleared nelem elsize p small e) run =
      subst (λ n. IsRun brk h' (set_live live p (some n))) (omega (arith, small))
        (cleared-IsRun os is_os nelem elsize p e run)
  Step-IsRun (resized fuel srchlen p n nbytes q holds e real) run =
      resized-IsRun os is_os fuel srchlen p n nbytes q holds e real run
  Step-IsRun (dropped fuel srchlen p n nbytes holds e) run =
      dropped-IsRun os is_os fuel srchlen p n nbytes holds e run
  Step-IsRun (written p n x v holds low high) run =
      written-IsRun os is_os p n x v holds low high run

  module _ {h0 : Heap W} {len0 : ℕ → ℕ} (inv0 : IsHeap brk h0 nobody len0) where
    pub Reach-IsRun : {h : Heap W} {live : Live} → Reach os h0 h live → IsRun brk h live
    Reach-IsRun begun = record { owners = nobody; lengths = len0; heap = inv0; held = λ p n e. cc }
    Reach-IsRun (later r st) = Step-IsRun st (Reach-IsRun r)

  module _ {pagebucket : ℕ} (page : IsPage os.page_size pagebucket) {h : Heap W}
      (init : IsInitial brk h) (granted : (gap_answer os is_os page init).0 ≢ minus_one) where
    pub set_up_heap :
        (w : W) × (setup os h ≡ some (true, ready os is_os page init w))
        × (brk w ≡ brk h.world + gap os is_os page init)
    set_up_heap = elim (setup-SetUp os is_os page init) [
      | inl (w, e, at) ↦ (w, e, at)
      | inr (e, needed, failed) ↦ absurd (granted failed)
    ]

    -- The heap that the first call sets up.
    abbrev pub first_heap : Heap W
    first_heap = ready os is_os page init set_up_heap.0

    pub first_heap-IsHeap : IsHeap brk first_heap nobody (λ _. 0)
    first_heap-IsHeap = ready-IsHeap os is_os page init set_up_heap.0 set_up_heap.2

    pub not_ready : (h.pagesz == 0) ≡ true
    not_ready = (==_iff h.pagesz 0).1 init.no_page

    pub is_ready : (first_heap.pagesz == 0) ≡ false
    is_ready = ==-ne first_heap.pagesz 0 (λ e. absurd (omega (arith, pagesz-ge page, e)))

    pub setup-first_heap : setup os h ≡ some (true, first_heap)
    setup-first_heap = set_up_heap.1

    -- The first call does what it does on that heap.
    kmalloc-first_heap : (nbytes : ℕ) → kmalloc os nbytes h ≡ kmalloc os nbytes first_heap
    unfolding kmalloc
    kmalloc-first_heap nbytes = rw (not_ready, is_ready, setup-first_heap) refl

    kcalloc-first_heap :
        (nelem elsize : ℕ) → kcalloc os nelem elsize h ≡ kcalloc os nelem elsize first_heap
    unfolding kcalloc
    kcalloc-first_heap nelem elsize = rw (kmalloc-first_heap (nelem * elsize % 2 ^ 64)) refl

    Step-first_heap :
        {h' : Heap W} {live' : Live}
        → Step os h no_live h' live'
        → Step os first_heap no_live h' live'
    Step-first_heap (allocated nbytes p e real) =
        allocated nbytes p (sym (kmalloc-first_heap nbytes) ∙ e) real
    Step-first_heap (refused nbytes e) = refused nbytes (sym (kmalloc-first_heap nbytes) ∙ e)
    Step-first_heap (released p n holds e) = absurd (none-some n holds)
    Step-first_heap (cleared nelem elsize p small e) =
        cleared nelem elsize p small (sym (kcalloc-first_heap nelem elsize) ∙ e)
    Step-first_heap (resized fuel srchlen p n nbytes q holds e real) = absurd (none-some n holds)
    Step-first_heap (dropped fuel srchlen p n nbytes holds e) = absurd (none-some n holds)
    Step-first_heap (written p n x v holds low high) = absurd (none-some n holds)

    -- A run that has begun is one from that heap.
    Reach-first_heap :
        {h' : Heap W} {live : Live}
        → Reach os h h' live
        → ((h' ≡ h) × (live ≡ no_live)) ⊎ Reach os first_heap h' live
    Reach-first_heap begun = inl (refl, refl)
    Reach-first_heap (later {h = g} {h' = g'} {live = l} {live' = l'} r st) =
        elim (Reach-first_heap r) [
          | inl (at_h, no_block) ↦ inr (
              later begun (
                Step-first_heap (
                  subst (λ m. Step os h m g' l') no_block
                    (subst (λ f. Step os f l g' l') at_h st))))
          | inr r' ↦ inr (later r' st)
        ]

  -- Where a pointer is held the heap is set up.
  pub start-IsRun :
      {h0 h : Heap W} {live : Live}
      → IsStart os is_os h0
      → Reach os h0 h live
      → (p n : ℕ) → live p ≡ some n
      → IsRun brk h live
  start-IsRun (set_up len inv) r p n holds = Reach-IsRun inv r
  start-IsRun (loaded page init granted) r p n holds = elim (Reach-first_heap page init granted r) [
    | inr r' ↦ Reach-IsRun (first_heap-IsHeap page init granted) r'
    | inl (at_h, no_block) ↦ absurd (none-some n (sym (ap (λ (l : Live). l p) no_block) ∙ holds))
  ]

  -- A request is answered, whether or not it is the first.
  pub start-answered :
      {h0 h : Heap W} {live : Live} (nbytes : ℕ)
      → IsStart os is_os h0
      → Reach os h0 h live
      → (q : ℕ) × (h' : Heap W) × (kmalloc os nbytes h ≡ some (q, h'))
  start-answered nbytes (set_up len inv) r =
      let (q, h', e, s) = kmalloc-IsServed os is_os (Reach-IsRun inv r).heap nbytes in (q, h', e)
  start-answered nbytes (loaded page init granted) r = elim (Reach-first_heap page init granted r) [
    | inr r' ↦
        let run = Reach-IsRun (first_heap-IsHeap page init granted) r' in
        let (q, h', e, s) = kmalloc-IsServed os is_os run.heap nbytes in (q, h', e)
    | inl (at_h, no_block) ↦
        subst (λ g. (q : ℕ) × (h' : Heap W) × (kmalloc os nbytes g ≡ some (q, h'))) (sym at_h)
          (elim (kmalloc-first os is_os page init nbytes) [
            | inl (w, inv, (q, h', e, s)) ↦ (q, h', e)
            | inr (e, failed) ↦ (null, _, e)
          ])
  ]
