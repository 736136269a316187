-- ===== src/FindString/Large/Threads.antt =====
-- What the threads of `process_large_file` in eset/find_string_in_files/src/main.cpp keep in every order
-- of their steps.
use mathlib.Core.List.{append_assoc, Perm, perm_middle}
use mathlib.Core.List.Perm
use challenges.Common.{
  length, ℕ, zero, suc, ◌+◌, ◌-◌, ◌^◌, ◌≤◌, ◌<◌, ◌≡◌, refl, sym, ap, some, List, [], ◌∷◌, ◌++◌,
  arith, subst, le→not_ltb, lt→not_leb,
}
use challenges.Memory.Words.{sub64, is_negative}
use challenges.FindString.Strings.{Text}
use challenges.FindString.Occurrences.{process_chunk-Occurs}
use challenges.FindString.Format.{format_output}
use challenges.FindString.Files.Errors.{end_zero-fill}
use challenges.FindString.Large.{
  chunk_size, thread_limit, next_size, read_chunk, read_in_order, Large, Step, start, join, read,
  print, Reach, opened, later,
}

pub next_size-chunk : (left_so_far : ℕ) → next_size left_so_far ≡ chunk_size
unfolding next_size
next_size-chunk left_so_far = rw (le→not_ltb (sub64 left_so_far chunk_size) 0 (omega arith)) refl

-- Every size in the list is that of a chunk.
abbrev pub AllChunks : List ℕ → Type 0
AllChunks [] = Unit {0}
AllChunks (n ∷ ns) = (n ≡ chunk_size) × AllChunks ns

AllChunks-split :
    (a b : List ℕ) (n : ℕ) → AllChunks (a ++ (n ∷ b)) → (n ≡ chunk_size) × AllChunks (a ++ b)
AllChunks-split [] b n (here, rest) = (here, rest)
AllChunks-split (k ∷ a) b n (here, rest) =
    let (at, others) = AllChunks-split a b n rest in (at, (here, others))

pub length-split {ℓ} :
    {A : Type ℓ} (a b : List A) (n : A) → length (a ++ (n ∷ b)) ≡ suc (length (a ++ b))
unfolding length
length-split [] b n = refl
length-split (k ∷ a) b n = ap suc (length-split a b n)

module _ {S : Type 0} (readsome : S → ℕ → Text × S) (target path : Text) where
  read_chunk-defined :
      (stream : S) (n : ℕ)
      → suc n < 2 ^ 31 - 1
      → (block : Text) × (read_chunk readsome target path stream (suc n)
          ≡ some (block, (readsome stream (suc n)).1))
  unfolding read_chunk is_negative
  read_chunk-defined stream n small =
      let (t, e, size) = end_zero-fill n (readsome stream (suc n)).0 in
      let (out, found, _, _, _) = process_chunk-Occurs t target path (omega (arith, size, small)) in
      (
        format_output out target,
        rw (lt→not_leb (2 ^ 63) (suc n) (omega (arith, small)), e, found) refl,
      )

  pub read_chunk-some :
      (stream : S)
      → (block : Text) × (read_chunk readsome target path stream chunk_size
          ≡ some (block, (readsome stream chunk_size).1))
  read_chunk-some stream = read_chunk-defined stream 16383 (omega arith)

  -- The chunks were read one after the other, and each is written once, or is still to be written.
  pub record IsRunning (stream : S) (s : Large S) : Type 0 where
    pub reads : ℕ
    pub blocks : List Text
    pub in_order : read_in_order readsome target path reads stream ≡ some (blocks, s.stream)
    pub each_once : Perm (s.printed ++ s.computed) blocks
    pub sizes : AllChunks s.waiting
    pub threads : length s.waiting + length s.computed ≤ s.thread_pool
    pub limit : s.thread_pool ≤ thread_limit + 1

  Step-IsRunning :
      {stream : S} {s t : Large S}
      → Step readsome target path s t
      → IsRunning stream s
      → IsRunning stream t
  unfolding read_in_order length
  Step-IsRunning {stream} {s} (start more low) inv = record {
    reads = inv.reads;
    blocks = inv.blocks;
    in_order = inv.in_order;
    each_once = inv.each_once;
    sizes = (next_size-chunk s.left_so_far, inv.sizes);
    threads = omega (arith, inv.threads);
    limit = omega (arith, low);
  }
  Step-IsRunning {stream} {s} (join over some_thread no_waiting no_computed) inv = record {
    reads = inv.reads;
    blocks = inv.blocks;
    in_order = inv.in_order;
    each_once = inv.each_once;
    sizes = inv.sizes;
    threads = rw (no_waiting, no_computed) (omega arith);
    limit = omega arith;
  }
  Step-IsRunning {stream} {s} (read a b n block next at e) inv =
      let (n_size, others) = AllChunks-split a b n (subst AllChunks at inv.sizes) in
      let e' : read_chunk readsome target path s.stream chunk_size ≡ some (block, next) =
        subst (λ k. read_chunk readsome target path s.stream k ≡ some (block, next)) n_size e in
      record {
        reads = suc inv.reads;
        blocks = block ∷ inv.blocks;
        in_order = rw (inv.in_order, e') refl;
        each_once = Perm.trans (perm_middle s.printed s.computed) (Perm.cons block inv.each_once);
        sizes = others;
        threads = omega (arith, inv.threads, ap length at, length-split a b n);
        limit = inv.limit;
      }
  Step-IsRunning {stream} {s} (print a b block at) inv = record {
    reads = inv.reads;
    blocks = inv.blocks;
    in_order = inv.in_order;
    each_once =
        Perm.trans
          (subst (λ l. Perm l (s.printed ++ s.computed))
            (sym (append_assoc s.printed (block ∷ []) (a ++ b)))
            (Perm.append_left s.printed
              (subst (λ l. Perm (block ∷ (a ++ b)) l) (sym at) (Perm.symm (perm_middle a b)))))
          inv.each_once;
    sizes = inv.sizes;
    threads = omega (arith, inv.threads, ap length at, length-split a b block);
    limit = inv.limit;
  }

  -- Whatever the order in which the threads of `process_large_file` run, what they have written
  -- and what they have still to write is a rearrangement of what reading the same number of
  -- chunks one after the other gives, which also leaves the stream as it is; every thread that
  -- has not read is to read a whole chunk; the threads that are not done are among those that are
  -- not joined, and these are never more than 501.
  pub Reach-IsRunning :
      (stream : S) (size n : ℕ) (s : Large S)
      → Reach readsome target path stream size n s
      → IsRunning stream s
  unfolding read_in_order length
  Reach-IsRunning stream size zero s opened = record {
    reads = 0;
    blocks = [];
    in_order = refl;
    each_once = Perm.nil;
    sizes = tt;
    threads = omega arith;
    limit = omega arith;
  }
  Reach-IsRunning stream size (suc n) t (later {s} r st) =
      Step-IsRunning st (Reach-IsRunning stream size n s r)
