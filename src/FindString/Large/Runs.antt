-- ===== src/FindString/Large/Runs.antt =====
-- Whole runs of the threads of `process_large_file` in eset/find_string_in_files/src/main.cpp.
use mathlib.Core.Option.{some-injective}
use challenges.Common.{
  ℕ, zero, suc, ◌+◌, ◌%◌, ◌/◌, ◌*◌, ◌^◌, ◌≤◌, ◌<◌, ◌≡◌, ◌↔◌, inl, inr, refl, sym, some, List, [],
  ◌∷◌, ◌==◌, arith, Bool-cases, Option-cases, ==_iff, subst, ℕ_discrete,
}
use challenges.FindString.Strings.{Text}
use challenges.FindString.Large.{chunk_size, Large, Reach, opened, later}
use challenges.FindString.Large.Turns.{Turn, take_turns, run_threads, concat}
use challenges.FindString.Large.Choices.{take_turn-Taken, Step-take_turn}
use challenges.FindString.Large.Endings.{IsDone, Reach-endless}
use challenges.FindString.Large.Schedules.{Reach-steps}

module _ {S : Type 0} (readsome : S → ℕ → Text × S) (target path : Text) (stream : S)
    (size : ℕ) where
  abbrev initial : Large S
  initial = record {
    stream = stream;
    left_so_far = size;
    thread_pool = 0;
    waiting = [];
    computed = [];
    printed = [];
  }

  take_turns-Reach :
      (turns : List Turn) (n : ℕ) (s t : Large S)
      → Reach readsome target path stream size n s
      → take_turns readsome target path turns s ≡ some t
      → (m : ℕ) × Reach readsome target path stream size m t
  unfolding take_turns
  take_turns-Reach [] n s t r e =
      (n, subst (λ k. Reach readsome target path stream size n k) (some-injective s t e) r)
  take_turns-Reach (turn ∷ turns) n s t r e = elim (take_turn-Taken readsome target path turn s) [
    | inl failed ↦ absurd (let no_result = rw failed at e in cc)
    | inr (next, st, taken) ↦ take_turns-Reach turns (suc n) next t (later r st) (rw taken at e)
  ]

  -- A run that ends has gone through steps to a state in which all is done.
  pub run_threads-Reach :
      (turns : List Turn) (printed : Text)
      → run_threads readsome target path turns stream size ≡ some printed
      → (n : ℕ) × (s : Large S) × Reach readsome target path stream size n s
        × IsDone readsome target path s
        × (printed ≡ concat s.printed)
  unfolding run_threads
  run_threads-Reach turns printed e =
      elim (Option-cases (take_turns readsome target path turns initial)) [
        | inl failed ↦ absurd (let no_result = rw failed at e in cc)
        | inr (last, taken) ↦
            let (n, r) = take_turns-Reach turns 0 initial last opened taken in
            let e' = rw taken at e in
            elim (Bool-cases (last.left_so_far == 0)) [
              | inr more ↦ absurd (let no_result = rw more at e' in cc)
              | inl all ↦ elim (Bool-cases (last.thread_pool == 0)) [
                | inr busy ↦ absurd (let no_result = rw (all, busy) at e' in cc)
                | inl joined ↦
                    let done : IsDone readsome target path last =
                      ((==_iff last.left_so_far 0).0 all, (==_iff last.thread_pool 0).0 joined) in
                    (
                      n,
                      last,
                      r,
                      done,
                      some-injective printed (concat last.printed) (sym (rw (all, joined) at e')),
                    )
              ]
            ]
      ]

  -- The rest of a run: as many turns as there may be steps are enough.
  ending :
      (fuel n : ℕ) (s : Large S)
      → size < 2 ^ 64
      → size % chunk_size ≡ 0
      → 4 * (size / chunk_size) ≤ n + fuel
      → Reach readsome target path stream size n s
      → (turns : List Turn) × (t : Large S) × (take_turns readsome target path turns s ≡ some t)
        × IsDone readsome target path t
  unfolding take_turns
  ending zero n s small whole enough r =
      elim (Reach-steps readsome target path stream size n s small whole r).1 [
        | inl done ↦ ([], s, refl, done)
        | inr (t, st) ↦ absurd (
            omega (
              arith,
              enough,
              (Reach-steps readsome target path stream size (suc n) t small whole (later r st)).0,
            ))
      ]
  ending (suc fuel) n s small whole enough r =
      elim (Reach-steps readsome target path stream size n s small whole r).1 [
        | inl done ↦ ([], s, refl, done)
        | inr (t, st) ↦
            let (turn, taken) = Step-take_turn readsome target path st in
            let (turns, last, e, done) =
              ending fuel (suc n) t small whole (omega (arith, enough)) (later r st) in
            (turn ∷ turns, last, rw taken e, done)
      ]

  pub run_threads-ends :
      size < 2 ^ 64
      → ((turns : List Turn) × (printed : Text) × (run_threads readsome target path turns stream
              size
            ≡ some printed))
        ↔ (size % chunk_size ≡ 0)
  unfolding run_threads
  run_threads-ends small = (to, from)
    where
      to :
          (turns : List Turn) × (printed : Text) × (run_threads readsome target path turns stream
                size
              ≡ some printed)
          → size % chunk_size ≡ 0
      to (turns, printed, e) =
          let (n, last, r, done, shown) = run_threads-Reach turns printed e in
          elim (ℕ_discrete (size % chunk_size) 0) [
            | yes whole ↦ whole
            | no odd ↦
                absurd
                  ((Reach-endless readsome target path stream size n last small odd r).0 done.0)
          ]

      from :
          size % chunk_size ≡ 0
          → (turns : List Turn) × (printed : Text) × (run_threads readsome target path turns stream
                size
              ≡ some printed)
      from whole =
          let (turns, last, e, (all, joined)) =
            ending (4 * (size / chunk_size)) 0 initial small whole (omega arith) opened in
          (turns, concat last.printed, rw (e, all, joined) refl)
