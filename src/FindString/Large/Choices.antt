-- ===== src/FindString/Large/Choices.antt =====
-- The turns of the threads of `process_large_file` in eset/find_string_in_files/src/main.cpp against
-- their steps.
use challenges.Common.{
  ℕ, zero, suc, ◌≤◌, ◌<◌, ◌≡◌, ◌≢◌, ◌⊎◌, inl, inr, refl, ap, Bool, true, false, ◌&&◌, ◌||◌, none,
  some, List, [], ◌∷◌, ◌++◌, ltb, ◌==◌, arith, Bool-cases, Option-cases, ==_iff, ==-ne, ltb→lt,
  lt→ltb, not_ltb→le, le→not_ltb,
}
use challenges.FindString.Strings.{Text}
use challenges.FindString.Large.{thread_limit, read_chunk, Large, Step, start, join, read, print}
use challenges.FindString.Large.Turns.{
  Turn, starts, joins, reads, writes, pick, is_empty, take_turn,
}

pick-cases {ℓ} :
    {A : Type ℓ} (i : ℕ) (l : List A)
    → (pick i l ≡ none)
      ⊎ ((a : List A) × (x : A) × (b : List A) × (l ≡ a ++ (x ∷ b)) × (pick i l ≡ some (x, a ++ b)))
unfolding pick
pick-cases i [] = inl refl
pick-cases zero (y ∷ l) = inr ([], y, l, refl, refl)
pick-cases (suc i) (y ∷ l) = elim (pick-cases i l) [
  | inl failed ↦ inl (rw failed refl)
  | inr (a, x, b, at, e) ↦ inr (y ∷ a, x, b, ap (λ k. y ∷ k) at, rw e refl)
]

pick-append {ℓ} :
    {A : Type ℓ} (a b : List A) (x : A) → (i : ℕ) × (pick i (a ++ (x ∷ b)) ≡ some (x, a ++ b))
unfolding pick
pick-append [] b x = (0, refl)
pick-append (y ∷ a) b x = let (i, e) = pick-append a b x in (suc i, rw e refl)

is_empty-cases {ℓ} :
    {A : Type ℓ} (l : List A) → ((is_empty l ≡ true) × (l ≡ [])) ⊎ (is_empty l ≡ false)
is_empty-cases [] = inl (refl, refl)
is_empty-cases (x ∷ l) = inr refl

start-cases :
    (left pool : ℕ)
    → (((left == 0) || ltb thread_limit pool) ≡ true)
      ⊎ ((((left == 0) || ltb thread_limit pool) ≡ false) × (left ≢ 0) × (pool ≤ thread_limit))
start-cases left pool = elim (Bool-cases (left == 0)) [
  | inl all ↦ inl (rw all refl)
  | inr more ↦ elim (Bool-cases (ltb thread_limit pool)) [
    | inl over ↦ inl (rw (more, over) refl)
    | inr low ↦ inr (rw (more, low) refl, ground arith, not_ltb→le thread_limit pool low)
  ]
]

join-cases :
    (left pool : ℕ)
    → (((ltb thread_limit pool || (left == 0)) && ltb 0 pool) ≡ false)
      ⊎ ((((ltb thread_limit pool || (left == 0)) && ltb 0 pool) ≡ true)
          × ((thread_limit < pool) ⊎ (left ≡ 0))
          × (0 < pool))
join-cases left pool = elim (Bool-cases (ltb 0 pool)) [
  | inr nothing ↦ elim (Bool-cases (ltb thread_limit pool || (left == 0))) [
    | inl due ↦ inl (rw (due, nothing) refl)
    | inr not_due ↦ inl (rw not_due refl)
  ]
  | inl some_thread ↦ elim (Bool-cases (ltb thread_limit pool)) [
    | inl over ↦ inr (
      rw (over, some_thread) refl,
      inl (ltb→lt thread_limit pool over),
      ltb→lt 0 pool some_thread,
    )
    | inr low ↦ elim (Bool-cases (left == 0)) [
      | inl all ↦
          inr (
            rw (low, all, some_thread) refl,
            inr ((==_iff left 0).0 all),
            ltb→lt 0 pool some_thread,
          )
      | inr more ↦ inl (rw (low, more) refl)
    ]
  ]
]

due_test :
    (left pool : ℕ)
    → (thread_limit < pool) ⊎ (left ≡ 0)
    → (ltb thread_limit pool || (left == 0)) ≡ true
due_test left pool (inl over) = rw (lt→ltb thread_limit pool over) refl
due_test left pool (inr all) = rw (all, or_true (ltb thread_limit pool)) refl
  where
    or_true : (b : Bool) → (b || true) ≡ true
    or_true true = refl
    or_true false = refl

module _ {S : Type 0} (readsome : S → ℕ → Text × S) (target path : Text) where
  -- The turn leads to a step, or there is none for it.
  abbrev pub Taken : Turn → Large S → Type 0
  Taken turn s =
      (take_turn readsome target path turn s ≡ none)
      ⊎ ((t : Large S) × Step readsome target path s t
          × (take_turn readsome target path turn s ≡ some t))

  pub take_turn-Taken : (turn : Turn) (s : Large S) → Taken turn s
  unfolding take_turn
  take_turn-Taken starts s = elim (start-cases s.left_so_far s.thread_pool) [
    | inl stopped ↦ inl (rw stopped refl)
    | inr (test, more, low) ↦ inr (_, start more low, rw test refl)
  ]
  take_turn-Taken joins s = elim (join-cases s.left_so_far s.thread_pool) [
    | inl not_due ↦ inl (rw not_due refl)
    | inr (test, due, some_thread) ↦ elim (is_empty-cases s.waiting) [
      | inr busy ↦ inl (rw (test, busy) refl)
      | inl (idle, no_waiting) ↦ elim (is_empty-cases s.computed) [
        | inr busy ↦ inl (rw (test, idle, busy) refl)
        | inl (done, no_computed) ↦
            inr (_, join due some_thread no_waiting no_computed, rw (test, idle, done) refl)
      ]
    ]
  ]
  take_turn-Taken (reads thread) s = elim (pick-cases thread s.waiting) [
    | inl failed ↦ inl (rw failed refl)
    | inr (a, n, b, at, e) ↦ elim (Option-cases (read_chunk readsome target path s.stream n)) [
      | inl failed ↦ inl (rw (e, failed) refl)
      | inr ((block, next), found) ↦ inr (_, read a b n block next at found, rw (e, found) refl)
    ]
  ]
  take_turn-Taken (writes thread) s = elim (pick-cases thread s.computed) [
    | inl failed ↦ inl (rw failed refl)
    | inr (a, block, b, at, e) ↦ inr (_, print a b block at, rw e refl)
  ]

  -- Every step is a turn.
  pub Step-take_turn :
      {s t : Large S}
      → Step readsome target path s t
      → (turn : Turn) × (take_turn readsome target path turn s ≡ some t)
  unfolding take_turn
  Step-take_turn {s} (start more low) =
      (starts, rw (==-ne s.left_so_far 0 more, le→not_ltb thread_limit s.thread_pool low) refl)
  Step-take_turn {s} (join due some_thread no_waiting no_computed) = (
    joins,
    rw
        (
          due_test s.left_so_far s.thread_pool due,
          lt→ltb 0 s.thread_pool some_thread,
          no_waiting,
          no_computed,
        )
        refl,
  )
  Step-take_turn {s} (read a b n block stream at e) =
      let (i, picked) = pick-append a b n in (reads i, rw (at, picked, e) refl)
  Step-take_turn {s} (print a b block at) =
      let (i, picked) = pick-append a b block in (writes i, rw (at, picked) refl)
