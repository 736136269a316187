-- ===== src/Examples/Runtime.antt =====
-- The theorems on rgoffi/go/gocruntime at concrete inputs.
use challenges.Common.{
  inl, ◌⊎◌, ◌↔◌, List, [], ◌∷◌, ◌++◌, ℕ, suc, ◌+◌, ◌*◌, ◌%◌, ◌≤◌, ◌^◌, bit_or, if◌then◌else◌, ◌≡◌,
  ◌≢◌, inr, refl, some, arith,
}
use challenges.Atomic.Routines.{execute, calls_or, execute-result}
use challenges.Atomic.Register.{uint64, compares, perform, register, perform-register}
use challenges.Memory.{load_bytes, Mem, within}
use challenges.Memory.Laws.{Outside}
use challenges.Atomic.{compare_and_swap_pointer, load_uint32, load_int32, store_int32, load_pointer}
use challenges.Atomic.Amd64.{load}
use challenges.Atomic.Words.{Elsewhere, load_int32-store_int32}
use challenges.Atomic.Pointers.{compare_and_swap_pointer-unchanged}
use challenges.Goruntime.{
  write_memory, rounds, Threads, Reach, created, later, modify_ptr_1, Line, thread1_line, ptr_line,
  show1, add1, read_memory, main, Allocate, TestAtomicity, Step,
}
use challenges.Goruntime.Main.{main-Swapped}
use challenges.Goruntime.Write.{numbers_of, reduced, read_memory-write_memory}
use challenges.Goruntime.Rounds.{Merge}
use challenges.Goruntime.Atomicity.{done, IsAllocate, test_atomicity-zero}

abbrev blank : Mem
blank _ = 0

perform-register_example :
    (res : ℕ) × (m' : Mem) × (perform uint64 (compares 0 7) blank 64 ≡ some (res, m'))
    × (res ≡ (register 8 (compares 0 7) (load_bytes 8 blank 64)).0)
    × (load_bytes 8 m' 64 ≡ (register 8 (compares 0 7) (load_bytes 8 blank 64)).1)
    × Elsewhere 8 64 blank m'
perform-register_example = perform-register uint64 (compares 0 7) blank 64 tt (omega arith)

-- Every byte is 1.
abbrev ones : Mem
ones _ = 1

one_or_more : 1 ≤ load_uint32 ones 64
unfolding load
one_or_more = omega arith

load_int32-store_int32_example :
    (load_uint32 (store_int32 blank 64 5) 64 ≡ 5) × (load_int32 (store_int32 blank 64 5) 64 ≢ 5)
load_int32-store_int32_example = load_int32-store_int32 blank 64 5 (omega arith) (ground arith)

compare_and_swap_pointer-unchanged_example :
    load_pointer (compare_and_swap_pointer blank 64 0 128).1 64 ≡ load_pointer blank 64
compare_and_swap_pointer-unchanged_example =
    compare_and_swap_pointer-unchanged blank 64 0 128 (inr (omega arith))

-- What `rand` returns.
abbrev numbers : ℕ → ℕ
numbers i = i * i + 250

read_memory-write_memory_example :
    (numbers_of (read_memory 8 0 (write_memory numbers 8 0 blank 64) 64) 0 ≡ reduced numbers 8 0)
    × ((q : ℕ) → Outside 64 8 q → write_memory numbers 8 0 blank 64 q ≡ blank q)
read_memory-write_memory_example = read_memory-write_memory numbers 8 blank 64

execute-result_example :
    ((execute (calls_or 6) blank 64).0 ≡ 0)
    × (load_bytes 4 (execute (calls_or 6) blank 64).1 64
        ≡ bit_or (load_bytes 4 blank 64) 6 % 256 ^ 4)
    × Elsewhere 4 64 blank (execute (calls_or 6) blank 64).1
execute-result_example = execute-result (calls_or 6) blank 64 tt

-- Memory that is handed out at 64, cleared.
abbrev allocate : Allocate
allocate m n = (64, λ q. if within 64 n q then 0 else m q)

allocate-IsAllocate : IsAllocate allocate
allocate-IsAllocate = record {
  zeroed = λ m n q low high. ground (arith, low, high);
  bytes = λ m n bytes a. ground (arith, bytes a);
}

-- After the first round of the first thread.
abbrev one_round : Threads
one_round = record {
  mem = modify_ptr_1 (allocate ones 16).1 64 0;
  out = thread1_line 0 ∷ [];
  shown1 = 1;
  first = 1;
  shown2 = 0;
  second = 0;
}

after_round : Reach 64 (allocate ones 16).1 one_round
after_round = later (later created (show1 refl (omega arith))) (add1 refl)

abbrev printed : List Line
printed = ptr_line 0 ∷ []

test_atomicity-zero_example :
    (TestAtomicity allocate ones printed
      ↔ ((ls : List Line) × Merge rounds rounds ls × (printed ≡ ls ++ (ptr_line 0 ∷ []))))
    × (done one_round ≤ 60)
    × (((one_round.first ≡ rounds) × (one_round.second ≡ rounds))
        ⊎ ((t : Threads) × Step 64 one_round t × (done t ≡ suc (done one_round))))
test_atomicity-zero_example =
    test_atomicity-zero allocate ones allocate-IsAllocate (λ a. omega arith) printed after_round

main-Swapped_example :
    ((main allocate ones 100 200).shown_ptr ≡ 202)
    × ((main allocate ones 100 200).shown_val ≡ 202)
    × ((main allocate ones 100 200).temp ≡ 64)
    × (load_bytes 4 (main allocate ones 100 200).mem 64 ≡ 80)
main-Swapped_example =
    main-Swapped allocate ones 100 200 (inl (omega arith)) (inl (omega arith)) (inl (omega arith))
      (omega arith) (omega arith)
