-- ===== src/FindString/Large.antt =====
-- `read_chunk` and `process_large_file` of eset/find_string_in_files/src/main.cpp: the loop that starts
-- the threads, and the threads in any order. What a thread does under a mutex is one step.
pub mod Choices
pub mod Chunks
pub mod Endings
pub mod Runs
pub mod Schedules
pub mod Threads
pub mod Turns
use challenges.Common.{
  ℕ, zero, suc, ◌+◌, ◌-◌, ◌^◌, ◌*◌, ◌≤◌, ◌<◌, ◌≡◌, ◌≢◌, ◌⊎◌, Bool, Option, none, some, List, [],
  ◌∷◌, ◌++◌, ltb, leb, if◌then◌else◌, ◌>>=◌,
}
use challenges.Memory.Words.{sub64, is_negative}
use challenges.FindString.Strings.{Text}
use challenges.FindString.{process_chunk}
use challenges.FindString.Files.{fill, end_zero}
use challenges.FindString.Format.{format_output}

abbrev pub chunk_size : ℕ
chunk_size = 16384

abbrev pub thread_limit : ℕ
thread_limit = 500

-- The size of the next chunk: the difference is unsigned, and never below 0.
unfoldable pub next_size : (left_so_far : ℕ) → ℕ
unfolding sub64
next_size left_so_far = if ltb (sub64 left_so_far chunk_size) 0 then left_so_far else chunk_size

module _ {S : Type 0} (readsome : S → ℕ → Text × S) (target path : Text) where
  -- What a thread reads and then writes, and the stream after it; undefined for a size of 0.
  unfoldable pub read_chunk : (stream : S) (curr_chunk_size : ℕ) → Option (Text × S)
  unfolding is_negative fill end_zero process_chunk format_output
  read_chunk stream curr_chunk_size = if is_negative curr_chunk_size then some ([], stream) else (do
    chunk ← end_zero (fill curr_chunk_size (readsome stream curr_chunk_size).0)
    out ← process_chunk chunk target path
    some (format_output out target, (readsome stream curr_chunk_size).1))

  -- The first `n` chunks of the stream, one after the other; the last one read stands first.
  unfoldable pub read_in_order : (n : ℕ) (stream : S) → Option (List Text × S)
  unfolding read_chunk
  read_in_order zero stream = some ([], stream)
  read_in_order (suc n) stream = do
    before ← read_in_order n stream
    next ← read_chunk before.1 chunk_size
    some (next.0 ∷ before.0, next.1)

-- The function with its threads: what is left to start, the threads that are not joined, those that
-- have not read yet by the size they read, what the others are to write, and what was written.
pub record Large (S : Type 0) : Type 0 where
  pub stream : S
  pub left_so_far : ℕ
  pub thread_pool : ℕ
  pub waiting : List ℕ
  pub computed : List Text
  pub printed : List Text

module _ {S : Type 0} (readsome : S → ℕ → Text × S) (target path : Text) where
  pub data Step (s : Large S) : Large S → Type 0 where
    start :
        s.left_so_far ≢ 0
        → s.thread_pool ≤ thread_limit
        → Step s (record s {
          left_so_far = sub64 s.left_so_far chunk_size;
          thread_pool = s.thread_pool + 1;
          waiting = next_size s.left_so_far ∷ s.waiting;
        })
    -- within the loop and behind it
    join :
        (thread_limit < s.thread_pool) ⊎ (s.left_so_far ≡ 0)
        → 0 < s.thread_pool
        → s.waiting ≡ []
        → s.computed ≡ []
        → Step s (record s { thread_pool = 0 })
    read :
        (a b : List ℕ) (n : ℕ) (block : Text) (stream : S)
        → s.waiting ≡ a ++ (n ∷ b)
        → read_chunk readsome target path s.stream n ≡ some (block, stream)
        → Step s (record s { stream = stream; waiting = a ++ b; computed = block ∷ s.computed })
    print :
        (a b : List Text) (block : Text)
        → s.computed ≡ a ++ (block ∷ b)
        → Step s (record s { computed = a ++ b; printed = s.printed ++ (block ∷ []) })

  -- What a file of `size` bytes leads to in `n` steps.
  pub data Reach (stream : S) (size : ℕ) : ℕ → Large S → Type 0 where
    opened : Reach stream size 0 (record {
      stream = stream;
      left_so_far = size;
      thread_pool = 0;
      waiting = [];
      computed = [];
      printed = [];
    })
    later : {n : ℕ} {s t : Large S} → Reach stream size n s → Step s t → Reach stream size (suc n) t
