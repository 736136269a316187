-- ===== src/Examples/Schedule.antt =====
-- The theorems on the threads of eset/find_string_in_files/src/main.cpp at a file of one chunk, and at
-- one that is a byte longer.
use mathlib.Core.List.{Perm}
use challenges.Common.{
  length, ℕ, ◌+◌, ◌*◌, ◌/◌, ◌%◌, ◌^◌, ◌≤◌, ◌≡◌, ◌≢◌, ◌⊎◌, ◌↔◌, inr, refl, sym, subst, true, false,
  some, List, [], ◌∷◌, ◌++◌, arith,
}
use challenges.Memory.Words.{sub64}
use challenges.FindString.Strings.{Text}
use challenges.FindString.Large.{
  chunk_size, next_size, read_chunk, read_in_order, Large, start, join, read, print, Reach, opened,
  later,
}
use challenges.FindString.Large.Threads.{
  IsRunning, read_chunk-some, next_size-chunk, Reach-IsRunning,
}
use challenges.FindString.Large.Endings.{IsDone, CanStep}
use challenges.FindString.Large.Schedules.{Reach-steps}
use challenges.FindString.Large.Turns.{Turn, concat}
use challenges.FindString.{MatchInfo}
use challenges.FindString.Format.{format_output}
use challenges.FindString.Occurrences.{In, IsAbove, Occurs, HasPath, offsets}
use challenges.FindString.Large.Chunks.{read_chunk-Occurs}
use challenges.FindString.Files.{Entry}
use challenges.FindString.Main.{Output, FileSystem, large_one, main}
use challenges.FindString.Main.Schedules.{main-rearranged, main-ends}

-- A stream that counts its reads, and gives two bytes for each.
abbrev two_bytes : ℕ → ℕ → Text × ℕ
two_bytes reads n = (b'n' ∷ (b'e' ∷ []), reads + 1)

abbrev target : Text
target = b'n' ∷ (b'e' ∷ [])

abbrev path : Text
path = b'f' ∷ []

abbrev block : Text
block = (read_chunk-some two_bytes target path 0).0

-- What `size` leaves to start after one thread, with what the thread has done so far.
abbrev after :
    (size pool : ℕ) (waiting : List ℕ) (computed printed : List Text) (reads : ℕ) → Large ℕ
after size pool waiting computed printed reads = record {
  stream = reads;
  left_so_far = sub64 size chunk_size;
  thread_pool = pool;
  waiting = waiting;
  computed = computed;
  printed = printed;
}

started :
    (size : ℕ)
    → size ≢ 0
    → Reach two_bytes target path 0 size 1 (after size 1 (next_size size ∷ []) [] [] 0)
started size more = later opened (start more (omega arith))

has_read :
    (size : ℕ) → size ≢ 0 → Reach two_bytes target path 0 size 2 (after size 1 [] (block ∷ []) [] 1)
has_read size more = later (started size more) (
    read [] [] (next_size size) block 1 refl (
      subst (λ n. read_chunk two_bytes target path 0 n ≡ some (block, 1))
        (sym (next_size-chunk size)) (read_chunk-some two_bytes target path 0).1))

finished : Reach two_bytes target path 0 16384 4 (after 16384 0 [] [] (block ∷ []) 1)
unfolding sub64
finished =
    later (later (has_read 16384 (λ z. absurd (omega (arith, z)))) (print [] [] block refl))
      (join (inr refl) (omega arith) refl refl)

Reach-IsRunning_example : IsRunning two_bytes target path 0 (after 16385 1 [] (block ∷ []) [] 1)
Reach-IsRunning_example =
    Reach-IsRunning two_bytes target path 0 16385 2 (after 16385 1 [] (block ∷ []) [] 1)
      (has_read 16385 (λ z. absurd (omega (arith, z))))

Reach-steps_example :
    (4 ≤ 4 * (16384 / chunk_size))
    × (IsDone two_bytes target path (after 16384 0 [] [] (block ∷ []) 1)
        ⊎ CanStep two_bytes target path (after 16384 0 [] [] (block ∷ []) 1))
Reach-steps_example =
    Reach-steps two_bytes target path 0 16384 4 (after 16384 0 [] [] (block ∷ []) 1) (omega arith)
      refl finished

-- A large file of whole chunks.
abbrev large_file : Entry
large_file = record { path = path; file_size = 2 ^ 29; content = some [] }

abbrev large_files : FileSystem ℕ
large_files = record {
  exists = λ name. true;
  is_directory = λ name. false;
  entry = λ name. large_file;
  entries = λ name. [];
  stream = λ name. 0;
  readsome = two_bytes;
}

main-ends_example :
    ((schedule : Entry → List Turn) × (result : ℕ × Output) × (main large_files schedule
          (path ∷ (path ∷ (target ∷ [])))
        ≡ some result))
    ↔ (2 ^ 29 % chunk_size ≡ 0)
main-ends_example =
    main-ends large_files path path target [] [] refl refl refl (omega arith) (omega arith)

whole_run :
    (schedule : Entry → List Turn) × (result : ℕ × Output) × (main large_files schedule
        (path ∷ (path ∷ (target ∷ [])))
      ≡ some result)
whole_run =
    (main-ends large_files path path target [] [] refl refl refl (omega arith) (omega arith)).1 refl

main-rearranged_example :
    (order : List Text) × (blocks : List Text) × (last : ℕ) × (read_in_order two_bytes target path
        (2 ^ 29 / chunk_size)
        0
      ≡ some (blocks, last))
    × Perm order blocks
    × (whole_run.1.0 ≡ 0)
    × (whole_run.1.1.out ≡ large_one ++ concat order)
    × (whole_run.1.1.err ≡ [])
main-rearranged_example =
    main-rearranged large_files path path target [] [] refl refl refl (omega arith) (omega arith)
      whole_run.0 whole_run.1.0 whole_run.1.1 whole_run.2

-- A stream with "one.\n" in each read.
abbrev lines : ℕ → ℕ → Text × ℕ
lines reads n = (b'o' ∷ (b'n' ∷ (b'e' ∷ (b'.' ∷ (b'\n' ∷ [])))), reads + 1)

read_chunk-Occurs_example :
    (ms : List MatchInfo) × (read_chunk lines target path 0 5 ≡ some (format_output ms target, 1))
    × IsAbove 0 (offsets ms)
    × HasPath path ms
    × ((p : ℕ) → In p (offsets ms) ↔ Occurs (b'o' ∷ (b'n' ∷ (b'e' ∷ (b'.' ∷ [])))) target p)
unfolding length
read_chunk-Occurs_example =
    read_chunk-Occurs lines path (b'o' ∷ (b'n' ∷ (b'e' ∷ (b'.' ∷ [])))) b'\n' b'n' (b'e' ∷ []) 0 1 5
      refl refl (omega arith)
      ((λ z. absurd (omega (arith, z))), ((λ z. absurd (omega (arith, z))), tt))
