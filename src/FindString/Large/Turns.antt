-- ===== src/FindString/Large/Turns.antt =====
-- A schedule of the threads of `process_large_file` in eset/find_string_in_files/src/main.cpp: whose
-- turn it is, and what the turns lead to.
use challenges.Common.{
  ℕ, zero, suc, ◌+◌, Bool, true, false, ◌&&◌, ◌||◌, Option, none, some, List, [], ◌∷◌, ◌++◌, ltb,
  ◌==◌, if◌then◌else◌, ◌>>=◌,
}
use challenges.Memory.Words.{sub64}
use challenges.FindString.Strings.{Text}
use challenges.FindString.Large.{chunk_size, thread_limit, next_size, read_chunk, Large}

-- The loop starts a thread or joins them all; or one of the threads reads, or writes.
pub data Turn : Type 0 where
  starts : Turn
  joins : Turn
  reads : (thread : ℕ) → Turn
  writes : (thread : ℕ) → Turn

-- One of a list, and the others.
unfoldable pub pick {ℓ} : {A : Type ℓ} → ℕ → List A → Option (A × List A)
pick i [] = none
pick zero (x ∷ xs) = some (x, xs)
pick (suc i) (x ∷ xs) = do picked ← pick i xs; some (picked.0, x ∷ picked.1)

abbrev pub is_empty {ℓ} : {A : Type ℓ} → List A → Bool
is_empty [] = true
is_empty (x ∷ xs) = false

unfoldable pub concat : List Text → Text
concat [] = []
concat (s ∷ ss) = s ++ concat ss

module _ {S : Type 0} (readsome : S → ℕ → Text × S) (target path : Text) where
  -- `none` where it cannot be the turn of that one.
  unfoldable pub take_turn : Turn → Large S → Option (Large S)
  unfolding sub64 next_size pick read_chunk
  take_turn starts s =
      if (s.left_so_far == 0) || ltb thread_limit s.thread_pool
      then none
      else some (record s {
        left_so_far = sub64 s.left_so_far chunk_size;
        thread_pool = s.thread_pool + 1;
        waiting = next_size s.left_so_far ∷ s.waiting;
      })
  take_turn joins s =
      if ((ltb thread_limit s.thread_pool || (s.left_so_far == 0)) && ltb 0 s.thread_pool)
        && (is_empty s.waiting && is_empty s.computed)
      then some (record s { thread_pool = 0 })
      else none
  take_turn (reads thread) s = do
    picked ← pick thread s.waiting
    done ← read_chunk readsome target path s.stream picked.0
    some (record s { stream = done.1; waiting = picked.1; computed = done.0 ∷ s.computed })
  take_turn (writes thread) s = do
    picked ← pick thread s.computed
    some (record s { computed = picked.1; printed = s.printed ++ (picked.0 ∷ []) })

  unfoldable pub take_turns : List Turn → Large S → Option (Large S)
  unfolding take_turn
  take_turns [] s = some s
  take_turns (turn ∷ turns) s = do next ← take_turn turn s; take_turns turns next

  -- What the threads write in these turns, if they end with everything started and joined.
  unfoldable pub run_threads : List Turn → (stream : S) (size : ℕ) → Option Text
  unfolding take_turns concat
  run_threads turns stream size = do
    last ← take_turns turns (record {
      stream = stream;
      left_so_far = size;
      thread_pool = 0;
      waiting = [];
      computed = [];
      printed = [];
    })
    if (last.left_so_far == 0) && (last.thread_pool == 0) then some (concat last.printed) else none
