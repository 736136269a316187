-- ===== src/FindString/Large/Schedules.antt =====
-- A file of whole chunks in `process_large_file` of eset/find_string_in_files/src/main.cpp.
use mathlib.Core.List.{Perm, append-nil}
use mathlib.Core.List.Perm
use mathlib.Core.List as Lists
use mathlib.Core.Nat as Unary
use challenges.Common.{
  length, length-append, ℕ, zero, suc, ◌+◌, ◌%◌, ◌/◌, ◌^◌, ◌*◌, ◌≤◌, ◌<◌, ◌≡◌, ◌⊎◌, inl, inr, refl,
  sym, ap, ◌∙◌, Option, none, some, List, [], ◌∷◌, ◌++◌, Option-cases, arith, subst,
}
use challenges.Memory.Words.{sub64}
use challenges.FindString.Strings.{Text}
use challenges.FindString.Large.{
  chunk_size, read_chunk, read_in_order, Large, Step, start, join, read, print, Reach, opened,
  later,
}
use challenges.FindString.Large.Threads.{IsRunning, Reach-IsRunning, length-split}
use challenges.FindString.Large.Endings.{IsDone, CanStep, Reach-CanStep}

native : Unary.ℕ → ℕ
native Unary.zero = 0
native (Unary.suc n) = suc (native n)

native-length {ℓ} : {A : Type ℓ} (l : List A) → native (Lists.length l) ≡ length l
unfolding native length
native-length [] = refl
native-length (a ∷ l) = ap suc (native-length l)

length-Perm {ℓ} : {A : Type ℓ} (l r : List A) → Perm l r → length l ≡ length r
length-Perm l r p = sym (native-length l) ∙ ap native (Perm.length-eq p) ∙ native-length r

length-nil {ℓ} : {A : Type ℓ} (l : List A) → length l ≤ 0 → l ≡ []
unfolding length
length-nil [] h = refl
length-nil (a ∷ l) h = absurd (omega (arith, h))

append-nil_of {ℓ} : {A : Type ℓ} (l r : List A) → r ≡ [] → l ++ r ≡ l
append-nil_of l r e = ap (λ k. l ++ k) e ∙ append-nil l

-- A bound of the steps to come.
abbrev measure : {S : Type 0} → Large S → ℕ
measure s =
    4 * (s.left_so_far / chunk_size) + 2 * length s.waiting + length s.computed + s.thread_pool

blocks_of : {S : Type 0} → Option (List Text × S) → List Text
blocks_of none = []
blocks_of (some (blocks, s)) = blocks

module _ {S : Type 0} (readsome : S → ℕ → Text × S) (target path : Text) where
  length-read_in_order :
      (n : ℕ) (stream next : S) (blocks : List Text)
      → read_in_order readsome target path n stream ≡ some (blocks, next)
      → length blocks ≡ n
  unfolding read_in_order length blocks_of
  length-read_in_order zero stream next blocks e = ap length (sym (ap blocks_of e))
  length-read_in_order (suc n) stream next blocks e =
      elim (Option-cases (read_in_order readsome target path n stream)) [
        | inl failed ↦ absurd (let no_result = rw failed at e in cc)
        | inr ((before, s), read_before) ↦
            let e' = rw read_before at e in
            elim (Option-cases (read_chunk readsome target path s chunk_size)) [
              | inl failed ↦ absurd (let no_result = rw failed at e' in cc)
              | inr ((block, t), read_next) ↦
                  let whole : some (block ∷ before, t) ≡ some (blocks, next) = rw read_next at e' in
                  ap length (sym (ap blocks_of whole))
                  ∙ ap suc (length-read_in_order n stream s before read_before)
            ]
      ]

  -- Each chunk is still to start, or waits, or is computed or printed.
  record IsCounted (size n : ℕ) (s : Large S) : Type 0 where
    total :
        (length s.printed + length s.computed + length s.waiting) * chunk_size + s.left_so_far
        ≡ size
    steps : n + measure s ≤ 4 * (size / chunk_size)

  Step-IsCounted :
      {size n : ℕ} {s t : Large S}
      → size < 2 ^ 64
      → size % chunk_size ≡ 0
      → Step readsome target path s t
      → IsCounted size n s
      → IsCounted size (suc n) t
  unfolding sub64 length
  Step-IsCounted {size} {n} {s} small whole (start more low) c =
      let big : chunk_size ≤ s.left_so_far = omega (arith, more, c.total, whole) in
      record {
        total = omega (arith, c.total, big, small);
        steps = omega (arith, c.steps, c.total, big, small);
      }
  Step-IsCounted {size} {n} {s} small whole (join over some_thread no_waiting no_computed) c =
      record { total = c.total; steps = omega (arith, c.steps, some_thread) }
  Step-IsCounted {size} {n} {s} small whole (read a b k block next at e) c =
      let split : length s.waiting ≡ suc (length (a ++ b)) = ap length at ∙ length-split a b k in
      record { total = omega (arith, c.total, split); steps = omega (arith, c.steps, split) }
  Step-IsCounted {size} {n} {s} small whole (print a b block at) c =
      let split : length s.computed ≡ suc (length (a ++ b)) =
        ap length at ∙ length-split a b block in
      record {
        total = omega (arith, c.total, split, length-append s.printed (block ∷ []));
        steps = omega (arith, c.steps, split);
      }

  Reach-IsCounted :
      (stream : S) (size n : ℕ) (s : Large S)
      → size < 2 ^ 64
      → size % chunk_size ≡ 0
      → Reach readsome target path stream size n s
      → IsCounted size n s
  unfolding length
  Reach-IsCounted stream size zero s small whole opened = record {
    total = omega arith;
    steps = omega arith;
  }
  Reach-IsCounted stream size (suc n) t small whole (later {s} r st) =
      Step-IsCounted small whole st (Reach-IsCounted stream size n s small whole r)

  -- For a file of less than 2 ^ 64 bytes that is a whole number of chunks, every run of
  -- `process_large_file` and its threads has at most four steps for each chunk, and until all
  -- threads are started and joined there is a next step.
  pub Reach-steps :
      (stream : S) (size n : ℕ) (s : Large S)
      → size < 2 ^ 64
      → size % chunk_size ≡ 0
      → Reach readsome target path stream size n s
      → (n ≤ 4 * (size / chunk_size))
        × (IsDone readsome target path s ⊎ CanStep readsome target path s)
  Reach-steps stream size n s small whole r = (
    omega (arith, (Reach-IsCounted stream size n s small whole r).steps),
    Reach-CanStep readsome target path stream size n s r,
  )

  -- For a file of less than 2 ^ 64 bytes that is a whole number of chunks, whatever the order in
  -- which the threads of `process_large_file` run, what is written when all of them are joined is
  -- a rearrangement of what reading the chunks of the file one after the other gives, and the
  -- stream is where that leaves it.
  pub Reach-written :
      (stream : S) (size n : ℕ) (s : Large S)
      → size < 2 ^ 64
      → size % chunk_size ≡ 0
      → Reach readsome target path stream size n s
      → IsDone readsome target path s
      → (blocks : List Text) × (read_in_order readsome target path (size / chunk_size) stream
          ≡ some (blocks, s.stream))
        × Perm s.printed blocks
  Reach-written stream size n s small whole r (none_left, joined) =
      let inv : IsRunning readsome target path stream s =
        Reach-IsRunning readsome target path stream size n s r in
      let c : IsCounted size n s = Reach-IsCounted stream size n s small whole r in
      let nothing : s.computed ≡ [] = length-nil s.computed (omega (arith, inv.threads, joined)) in
      let printed : s.printed ++ s.computed ≡ s.printed =
        append-nil_of s.printed s.computed nothing in
      let each : Perm s.printed inv.blocks = subst (λ l. Perm l inv.blocks) printed inv.each_once in
      let count : inv.reads ≡ size / chunk_size = omega (
        arith,
        inv.threads,
        joined,
        none_left,
        c.total,
        length-read_in_order inv.reads stream s.stream inv.blocks inv.in_order,
        length-Perm s.printed inv.blocks each,
      ) in
      (
        inv.blocks,
        subst (λ k. read_in_order readsome target path k stream ≡ some (inv.blocks, s.stream)) count
            inv.in_order,
        each,
      )
