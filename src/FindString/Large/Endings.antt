-- ===== src/FindString/Large/Endings.antt =====
-- Whether `process_large_file` of eset/find_string_in_files/src/main.cpp comes to its end.
use challenges.Common.{
  ℕ, zero, suc, ◌%◌, ◌^◌, ◌<◌, ◌≡◌, ◌≢◌, ◌⊎◌, inl, inr, refl, sym, ap, ◌∙◌, some, List, [], ◌∷◌,
  arith, subst, dec_lt, ℕ_discrete,
}
use challenges.Memory.Words.{sub64}
use challenges.FindString.Strings.{Text}
use challenges.FindString.Large.{
  chunk_size, thread_limit, read_chunk, Large, Step, start, join, read, print, Reach, opened, later,
}
use challenges.FindString.Large.Threads.{AllChunks, IsRunning, read_chunk-some, Reach-IsRunning}

List-cases {ℓ} : {A : Type ℓ} (l : List A) → (l ≡ []) ⊎ ((a : A) × (b : List A) × (l ≡ a ∷ b))
List-cases [] = inl refl
List-cases (a ∷ b) = inr (a, b, refl)

module _ {S : Type 0} (readsome : S → ℕ → Text × S) (target path : Text) where
  -- All is started, and all threads are joined.
  abbrev pub IsDone : Large S → Type 0
  IsDone s = (s.left_so_far ≡ 0) × (s.thread_pool ≡ 0)

  abbrev pub CanStep : Large S → Type 0
  CanStep s = (t : Large S) × Step readsome target path s t

  CanStep-idle : (s : Large S) → s.waiting ≡ [] → s.computed ≡ [] → IsDone s ⊎ CanStep s
  CanStep-idle s no_waiting no_computed = elim (ℕ_discrete s.left_so_far 0) [
    | yes all ↦ elim (ℕ_discrete s.thread_pool 0) [
      | yes joined ↦ inl (all, joined)
      | no some_thread ↦ inr (_, join (inr all) (omega (arith, some_thread)) no_waiting no_computed)
    ]
    | no more ↦ elim (dec_lt thread_limit s.thread_pool) [
      | yes over ↦ inr (_, join (inl over) (omega (arith, over)) no_waiting no_computed)
      | no low ↦ inr (_, start more (omega (arith, low)))
    ]
  ]

  CanStep-computed : (s : Large S) → s.waiting ≡ [] → IsDone s ⊎ CanStep s
  CanStep-computed s no_waiting = elim (List-cases s.computed) [
    | inl no_computed ↦ CanStep-idle s no_waiting no_computed
    | inr (block, b, at) ↦ inr (_, print [] b block at)
  ]

  pub Reach-CanStep :
      (stream : S) (size n : ℕ) (s : Large S)
      → Reach readsome target path stream size n s
      → IsDone s ⊎ CanStep s
  Reach-CanStep stream size n s r =
      let inv : IsRunning readsome target path stream s =
        Reach-IsRunning readsome target path stream size n s r in
      elim (List-cases s.waiting) [
        | inl no_waiting ↦ CanStep-computed s no_waiting
        | inr (k, b, at) ↦
            let all : AllChunks (k ∷ b) = subst AllChunks at inv.sizes in
            let (block, e) = read_chunk-some readsome target path s.stream in
            inr (
              _,
              read [] b k block (readsome s.stream chunk_size).1 at (
                  subst
                    (λ m.
                      read_chunk readsome target path s.stream m
                      ≡ some (block, (readsome s.stream chunk_size).1))
                    (sym all.0) e),
            )
      ]

  -- What is left keeps its remainder, below 2 ^ 64.
  left-mod :
      {stream : S} {size : ℕ} (n : ℕ) (s : Large S)
      → Reach readsome target path stream size n s
      → size < 2 ^ 64
      → (s.left_so_far < 2 ^ 64) × (s.left_so_far % chunk_size ≡ size % chunk_size)
  unfolding sub64
  left-mod {size = size} zero s opened small = (small, refl)
  left-mod {size = size} (suc n) t (later {s} r st) small = step st (left-mod n s r small)
    where
      step :
          {t : Large S}
          → Step readsome target path s t
          → (s.left_so_far < 2 ^ 64) × (s.left_so_far % chunk_size ≡ size % chunk_size)
          → (t.left_so_far < 2 ^ 64) × (t.left_so_far % chunk_size ≡ size % chunk_size)
      step (start more low) (below, same) = (omega arith, omega (arith, below, same))
      step (join over some_thread no_waiting no_computed) h = h
      step (read a b k block next at e) h = h
      step (print a b block at) h = h

  -- For a file of less than 2 ^ 64 bytes that is not a whole number of chunks,
  -- `process_large_file` never comes to its end: in every state that it reaches there is
  -- something left to start, and there is a next step.
  pub Reach-endless :
      (stream : S) (size n : ℕ) (s : Large S)
      → size < 2 ^ 64
      → size % chunk_size ≢ 0
      → Reach readsome target path stream size n s
      → (s.left_so_far ≢ 0) × CanStep s
  Reach-endless stream size n s small odd r =
      let (below, same) = left-mod n s r small in
      let more : s.left_so_far ≢ 0 = λ z. odd (sym same ∙ ap (λ k. k % chunk_size) z) in
      elim (Reach-CanStep stream size n s r) [
        | inl done ↦ absurd (more done.0)
        | inr on ↦ (more, on)
      ]
