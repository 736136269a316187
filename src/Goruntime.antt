-- ===== src/Goruntime.antt =====
-- rgoffi/go/gocruntime/goruntime.c: `write_memory`, `read_memory`, `main`, and the two threads of
-- `test_atomicity` with the order of what they print and of their accesses to the word they share. The memory of
-- Go is a parameter.
pub mod Atomicity
pub mod Main
pub mod Rounds
pub mod Write
use challenges.Common.{
  ℕ, zero, suc, ◌+◌, ◌-◌, ◌/◌, ◌%◌, ◌^◌, ◌<◌, ◌≡◌, List, [], ◌∷◌, ◌++◌, Option, none, some, ltb,
  ◌==◌, if◌then◌else◌,
}
use challenges.Memory.{Mem, null, put, load_bytes, store_bytes, load_pointer, store_pointer}
use challenges.Atomic.{swap_pointer}
use challenges.Atomic.Amd64.{xadd, exchange_add, exchange, load}

-- The loop of `write_memory` from `i` on, over the numbers that `rand` returns.
unfoldable pub write_memory : (rand : ℕ → ℕ) → (count i : ℕ) → Mem → (ptr : ℕ) → Mem
unfolding put
write_memory rand zero i m ptr = m
write_memory rand (suc count) i m ptr =
    write_memory rand count (i + 1) (put m (ptr + i) (rand i % 0xff)) ptr

unfoldable pub hex_digit : ℕ → ℕ
hex_digit d = if ltb d 10 then b'0' + d else b'a' + (d - 10)

-- What printf writes of a byte for "0x%x\n".
unfoldable pub hex_line : ℕ → List ℕ
unfolding hex_digit
hex_line v =
    let low : List ℕ = hex_digit (v % 16) ∷ (b'\n' ∷ []) in
    b'0' ∷ (b'x' ∷ (if ltb v 16 then low else hex_digit (v / 16) ∷ low))

-- The loop of `read_memory` from `i` on: what it writes to the output.
unfoldable pub read_memory : (count i : ℕ) → Mem → (ptr : ℕ) → List ℕ
unfolding hex_line
read_memory zero i m ptr = []
read_memory (suc count) i m ptr = hex_line (m (ptr + i)) ++ read_memory count (i + 1) m ptr

-- allocate_go_memory: a pointer to `n` bytes, and the memory.
abbrev pub Allocate : Type 0
Allocate = Mem → (n : ℕ) → ℕ × Mem

-- The rounds of each thread.
abbrev pub rounds : ℕ
rounds = 15

-- `(uint32_t) -i`
abbrev pub negated : ℕ → ℕ
negated i = (2 ^ 32 - i) % 2 ^ 32

-- The call of `_xadd` in the round `i` of `modify_ptr_1`, and of `modify_ptr_2`.
unfoldable pub modify_ptr_1 : Mem → (ptr i : ℕ) → Mem
unfolding exchange_add
modify_ptr_1 m ptr i = (xadd m ptr i).1

unfoldable pub modify_ptr_2 : Mem → (ptr i : ℕ) → Mem
unfolding exchange_add
modify_ptr_2 m ptr i = (xadd m ptr (negated i)).1

-- A line of output: "[thread1] i = %d\n", "[thread2] i = %d\n" or "*ptr = %d\n".
pub data Line : Type 0 where
  thread1_line : (i : ℕ) → Line
  thread2_line : (i : ℕ) → Line
  ptr_line : (v : ℕ) → Line

-- The memory and the output, and for each thread how many lines it has written and how many calls it
-- has made.
pub record Threads : Type 0 where
  pub mem : Mem
  pub out : List Line
  pub shown1 : ℕ
  pub first : ℕ
  pub shown2 : ℕ
  pub second : ℕ

-- One of the threads writes the line of its round, or makes the call behind it.
pub data Step (ptr : ℕ) (s : Threads) : Threads → Type 0 where
  show1 :
      s.shown1 ≡ s.first
      → s.first < rounds
      → Step ptr s (record s { out = s.out ++ (thread1_line s.first ∷ []); shown1 = s.first + 1 })
  add1 :
      s.shown1 ≡ s.first + 1
      → Step ptr s (record s { mem = modify_ptr_1 s.mem ptr s.first; first = s.first + 1 })
  show2 :
      s.shown2 ≡ s.second
      → s.second < rounds
      → Step ptr s (record s { out = s.out ++ (thread2_line s.second ∷ []); shown2 = s.second + 1 })
  add2 :
      s.shown2 ≡ s.second + 1
      → Step ptr s (record s { mem = modify_ptr_2 s.mem ptr s.second; second = s.second + 1 })

-- Both threads at their beginning.
abbrev pub at_start : Mem → Threads
at_start m = record { mem = m; out = []; shown1 = 0; first = 0; shown2 = 0; second = 0 }

-- What `test_atomicity` reaches from the memory it has allocated, in any order of what the threads do.
pub data Reach (ptr : ℕ) (m : Mem) : Threads → Type 0 where
  created : Reach ptr m (at_start m)
  later : {s t : Threads} → Reach ptr m s → Step ptr s t → Reach ptr m t

-- `test_atomicity` prints `out`: both threads have made their calls on the word that was allocated.
pub data TestAtomicity (allocate : Allocate) (m : Mem) (out : List Line) : Type 0 where
  joined :
      {s : Threads}
      → Reach (allocate m 16).0 (allocate m 16).1 s
      → s.first ≡ rounds
      → s.second ≡ rounds
      → out ≡ s.out ++ (ptr_line (load s.mem (allocate m 16).0) ∷ [])
      → TestAtomicity allocate m out

-- What `main` leaves: what it prints of `*ptr` and of `val`, the pointer that it is given back, and the
-- memory.
pub record Swapped : Type 0 where
  pub shown_ptr : ℕ
  pub shown_val : ℕ
  pub temp : ℕ
  pub mem : Mem

-- `main`, with its variables `ptr` and `val` in memory at the given addresses.
unfoldable pub main : Allocate → Mem → (ptr val : ℕ) → Swapped
unfolding load_pointer store_pointer load_bytes store_bytes exchange
main allocate m ptr val =
    let (p, m1) = allocate m 4 in
    let m2 : Mem = store_pointer m1 ptr p in
    let m3 : Mem = store_bytes 4 m2 (load_pointer m2 ptr) 80 in
    let m4 : Mem = store_bytes 4 m3 val 0xca in
    let (temp, m5) = swap_pointer m4 ptr val in
    record {
      shown_ptr = load_bytes 4 m5 (load_pointer m5 ptr);
      shown_val = load_bytes 4 m5 val;
      temp = temp;
      mem = m5;
    }
