-- ===== src/Goruntime/Rounds.antt =====
-- What the threads of `test_atomicity` in rgoffi/go/gocruntime/goruntime.c keep, in any order.
use challenges.Common.{
  List, [], ◌∷◌, ◌++◌, subst, ℕ, zero, suc, ◌+◌, ◌%◌, ◌^◌, ◌≤◌, ◌<◌, ◌≡◌, ◌⊎◌, inl, inr, refl, ◌∙◌,
  ap, arith,
}
use challenges.Memory.{Mem, IsBytes, load_bytes}
use challenges.Memory.Laws.{load_bytes-store_bytes, load_bytes-lt}
use challenges.Atomic.Amd64.{load}
use challenges.Goruntime.{
  rounds, negated, modify_ptr_1, modify_ptr_2, Line, thread1_line, thread2_line, Threads, Step,
  show1, add1, show2, add2, Reach, created, later,
}

-- 0 + 1 + ... + (n - 1)
unfoldable pub triangle : ℕ → ℕ
triangle zero = 0
triangle (suc n) = triangle n + n

-- Any order of the first `i` lines of one thread and the first `j` lines of the other.
pub data Merge : (i j : ℕ) → List Line → Type 0 where
  nothing : Merge 0 0 []
  from1 : {i j : ℕ} {ls : List Line} → Merge i j ls → Merge (i + 1) j (ls ++ (thread1_line i ∷ []))
  from2 : {i j : ℕ} {ls : List Line} → Merge i j ls → Merge i (j + 1) (ls ++ (thread2_line j ∷ []))

-- Within a round a thread has written one line more than it has made calls.
abbrev pub IsRound : (shown calls : ℕ) → Type 0
IsRound shown calls = (shown ≡ calls) ⊎ ((shown ≡ calls + 1) × (calls < rounds))

-- The sum of the calls that were made, in both threads, and what they have written.
pub record IsSum (ptr : ℕ) (m : Mem) (s : Threads) : Type 0 where
  pub first-le : s.first ≤ rounds
  pub second-le : s.second ≤ rounds
  pub round1 : IsRound s.shown1 s.first
  pub round2 : IsRound s.shown2 s.second
  pub lines : Merge s.shown1 s.shown2 s.out
  pub total :
      (load s.mem ptr + triangle s.second) % 2 ^ 32 ≡ (load m ptr + triangle s.first) % 2 ^ 32

within_round : (shown calls : ℕ) → IsRound shown calls → shown ≡ calls + 1 → calls < rounds
within_round shown calls (inl between) at = absurd (omega (arith, between, at))
within_round shown calls (inr (one_more, more)) at = more

triangle_next : (n : ℕ) → triangle (n + 1) ≡ triangle n + n
unfolding triangle
triangle_next n = ap triangle (the_next n)
  where
    the_next : (k : ℕ) → k + 1 ≡ suc k
    the_next k = omega arith

load-modify_ptr_1 :
    (m : Mem) (ptr i : ℕ) → load (modify_ptr_1 m ptr i) ptr ≡ (load m ptr + i) % 2 ^ 32
unfolding load modify_ptr_1
load-modify_ptr_1 m ptr i =
    load_bytes-store_bytes 4 m ptr ((load_bytes 4 m ptr + i) % 256 ^ 4) ∙ omega arith

load-modify_ptr_2 :
    (m : Mem) (ptr i : ℕ) → load (modify_ptr_2 m ptr i) ptr ≡ (load m ptr + negated i) % 2 ^ 32
unfolding load modify_ptr_2
load-modify_ptr_2 m ptr i =
    load_bytes-store_bytes 4 m ptr ((load_bytes 4 m ptr + negated i) % 256 ^ 4) ∙ omega arith

Step-IsSum : {ptr : ℕ} {m : Mem} {s t : Threads} → Step ptr s t → IsSum ptr m s → IsSum ptr m t
Step-IsSum {ptr} {m} {s} (show1 at more) inv = record {
  first-le = inv.first-le;
  second-le = inv.second-le;
  round1 = inr (refl, more);
  round2 = inv.round2;
  lines = from1 (subst (λ i. Merge i s.shown2 s.out) at inv.lines);
  total = inv.total;
}
Step-IsSum {ptr} {m} {s} (show2 at more) inv = record {
  first-le = inv.first-le;
  second-le = inv.second-le;
  round1 = inv.round1;
  round2 = inr (refl, more);
  lines = from2 (subst (λ j. Merge s.shown1 j s.out) at inv.lines);
  total = inv.total;
}
Step-IsSum {ptr} {m} {s} (add1 at) inv =
    let more = within_round s.shown1 s.first inv.round1 at in
    record {
      first-le = omega (arith, more);
      second-le = inv.second-le;
      round1 = inl at;
      round2 = inv.round2;
      lines = inv.lines;
      total = omega (arith, load-modify_ptr_1 s.mem ptr s.first, inv.total, triangle_next s.first);
    }
Step-IsSum {ptr} {m} {s} (add2 at) inv =
    let more = within_round s.shown2 s.second inv.round2 at in
    record {
      first-le = inv.first-le;
      second-le = omega (arith, more);
      round1 = inv.round1;
      round2 = inl at;
      lines = inv.lines;
      total =
          omega
            (arith, load-modify_ptr_2 s.mem ptr s.second, inv.total, triangle_next s.second, more);
    }

pub Reach-IsSum : {ptr : ℕ} {m : Mem} {s : Threads} → Reach ptr m s → IsSum ptr m s
unfolding triangle
Reach-IsSum created = record {
  first-le = omega arith;
  second-le = omega arith;
  round1 = inl refl;
  round2 = inl refl;
  lines = nothing;
  total = refl;
}
Reach-IsSum (later r st) = Step-IsSum st (Reach-IsSum r)

load-lt : (m : Mem) (ptr : ℕ) → IsBytes m → load m ptr < 2 ^ 32
unfolding load
load-lt m ptr bytes = omega (arith, load_bytes-lt 4 ptr bytes)

Step-lt :
    {ptr : ℕ} {s t : Threads} → Step ptr s t → load s.mem ptr < 2 ^ 32 → load t.mem ptr < 2 ^ 32
Step-lt (show1 at more) small = small
Step-lt (show2 at more) small = small
Step-lt {ptr} {s} (add1 at) small = omega (arith, load-modify_ptr_1 s.mem ptr s.first)
Step-lt {ptr} {s} (add2 at) small = omega (arith, load-modify_ptr_2 s.mem ptr s.second)

Reach-lt : {ptr : ℕ} {m : Mem} {s : Threads} → IsBytes m → Reach ptr m s → load s.mem ptr < 2 ^ 32
Reach-lt {ptr} {m} bytes created = load-lt m ptr bytes
Reach-lt bytes (later r st) = Step-lt st (Reach-lt bytes r)

pub Reach-load :
    {ptr : ℕ} {m : Mem} {s : Threads}
    → IsBytes m
    → Reach ptr m s
    → s.first ≡ rounds
    → s.second ≡ rounds
    → load s.mem ptr ≡ load m ptr
Reach-load {ptr} {m} {s} bytes r end1 end2 = omega (
  arith,
  (Reach-IsSum r).total,
  ap triangle end1,
  ap triangle end2,
  load-lt m ptr bytes,
  Reach-lt bytes r,
)
