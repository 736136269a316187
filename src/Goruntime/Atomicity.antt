-- ===== src/Goruntime/Atomicity.antt =====
-- `test_atomicity` of rgoffi/go/gocruntime/goruntime.c, in any order of what its two threads do.
use challenges.Common.{
  List, [], ◌∷◌, ◌++◌, subst, ℕ, suc, ◌+◌, ◌≤◌, ◌<◌, ◌≡◌, ◌⊎◌, ◌↔◌, inl, inr, refl, sym, ◌∙◌, ap,
  dec_lt, arith,
}
use challenges.Memory.{Mem, IsBytes, load_bytes}
use challenges.Memory.Laws.{load_bytes-cong}
use challenges.Atomic.Amd64.{load}
use challenges.Goruntime.{
  rounds, Line, ptr_line, Threads, Step, show1, add1, show2, add2, Reach, created, later, Allocate,
  TestAtomicity, joined,
}
use challenges.Goruntime.Rounds.{Merge, nothing, from1, from2, IsRound, Reach-IsSum, Reach-load}

-- Memory that is handed out is all zero, and stays bytes.
pub record IsAllocate (allocate : Allocate) : Type 0 where
  pub zeroed :
      (m : Mem) (n q : ℕ) → (allocate m n).0 ≤ q → q < (allocate m n).0 + n → (allocate m n).1 q ≡ 0
  pub bytes : (m : Mem) (n : ℕ) → IsBytes m → IsBytes (allocate m n).1

-- What a thread has done: its lines and its calls.
abbrev pub done : Threads → ℕ
done s = s.shown1 + s.first + s.shown2 + s.second

round-le : (shown calls : ℕ) → IsRound shown calls → calls ≤ rounds → shown ≤ rounds
round-le shown calls (inl between) le = omega (arith, between, le)
round-le shown calls (inr (one_more, more)) le = omega (arith, one_more, more)

-- The threads of `test_atomicity` do at most 60 things in all, and until both have ended one of them
-- can go on.
Reach-ends :
    {ptr : ℕ} {m : Mem} {s : Threads}
    → Reach ptr m s
    → (done s ≤ 60)
      × (((s.first ≡ rounds) × (s.second ≡ rounds))
          ⊎ ((t : Threads) × Step ptr s t × (done t ≡ suc (done s))))
Reach-ends {s = s} r =
    let inv = Reach-IsSum r in
    (
      omega (
        arith,
        inv.first-le,
        inv.second-le,
        round-le s.shown1 s.first inv.round1 inv.first-le,
        round-le s.shown2 s.second inv.round2 inv.second-le,
      ),
      elim inv.round1 [
        | inr (at, more) ↦ inr (_, add1 at, omega arith)
        | inl at1 ↦ elim (dec_lt s.first rounds) [
          | yes more ↦ inr (_, show1 at1 more, omega (arith, at1))
          | no ended ↦ elim inv.round2 [
            | inr (at, more) ↦ inr (_, add2 at, omega arith)
            | inl at2 ↦ elim (dec_lt s.second rounds) [
              | yes more ↦ inr (_, show2 at2 more, omega (arith, at2))
              | no both ↦
                  inl (ground (arith, inv.first-le, ended), ground (arith, inv.second-le, both))
            ]
          ]
        ]
      ],
    )

-- Every order of lines comes about.
Merge-Reach :
    {ptr : ℕ} {m : Mem} {i j : ℕ} {ls : List Line}
    → Merge i j ls
    → i ≤ rounds
    → j ≤ rounds
    → (k : Mem) × Reach ptr m
        (record { mem = k; out = ls; shown1 = i; first = i; shown2 = j; second = j })
Merge-Reach {m = m} nothing le1 le2 = (m, created)
Merge-Reach {ptr} {m} (from1 {i} {j} {ls} merge) le1 le2 =
    let (k, r) = Merge-Reach merge (omega (arith, le1)) le2 in
    (_, later (later r (show1 refl (omega (arith, le1)))) (add1 refl))
Merge-Reach (from2 merge) le1 le2 =
    let (k, r) = Merge-Reach merge le1 (omega (arith, le2)) in
    (_, later (later r (show2 refl (omega (arith, le2)))) (add2 refl))

-- A thread that has made all its calls has written all its lines.
ended-shown : (shown calls : ℕ) → IsRound shown calls → calls ≡ rounds → shown ≡ rounds
ended-shown shown calls (inl between) at = between ∙ at
ended-shown shown calls (inr (one_more, more)) at = absurd (omega (arith, more, at))

module _ (allocate : Allocate) (m : Mem) (rules : IsAllocate allocate) (bytes : IsBytes m) where
  joined-zero :
      {s : Threads}
      → Reach (allocate m 16).0 (allocate m 16).1 s
      → s.first ≡ rounds
      → s.second ≡ rounds
      → load s.mem (allocate m 16).0 ≡ 0
  unfolding load load_bytes
  joined-zero r end1 end2 =
      Reach-load (rules.bytes m 16 bytes) r end1 end2
      ∙ load_bytes-cong 4 (allocate m 16).1 (λ _. 0) (allocate m 16).0
          (λ q low high. rules.zeroed m 16 q low (omega (arith, high)))

  -- Where memory is handed out cleared, what `test_atomicity` can print are exactly the 15 lines
  -- of each of its two threads, each thread's in their order, in any order between the two, and
  -- then 0 for the word they share; the threads write a line or make a call at most 60 times in
  -- all, and until both have made all their calls one of them can go on.
  pub test_atomicity-zero :
      (out : List Line) {s : Threads}
      → Reach (allocate m 16).0 (allocate m 16).1 s
      → (TestAtomicity allocate m out
          ↔ ((ls : List Line) × Merge rounds rounds ls × (out ≡ ls ++ (ptr_line 0 ∷ []))))
        × (done s ≤ 60)
        × (((s.first ≡ rounds) × (s.second ≡ rounds))
            ⊎ ((t : Threads) × Step (allocate m 16).0 s t × (done t ≡ suc (done s))))
  test_atomicity-zero out {s} r = ((prints_zero, prints), (Reach-ends r).0, (Reach-ends r).1)
    where
      prints_zero :
          TestAtomicity allocate m out
          → (ls : List Line) × Merge rounds rounds ls × (out ≡ ls ++ (ptr_line 0 ∷ []))
      prints_zero (joined {s = t} r end1 end2 e) =
          let inv = Reach-IsSum r in
          (
            t.out,
            subst (λ i. Merge i rounds t.out) (ended-shown t.shown1 t.first inv.round1 end1)
                (subst (λ j. Merge t.shown1 j t.out) (ended-shown t.shown2 t.second inv.round2 end2)
                  inv.lines),
            e ∙ ap (λ v. t.out ++ (ptr_line v ∷ [])) (joined-zero r end1 end2),
          )

      prints :
          (ls : List Line) × Merge rounds rounds ls × (out ≡ ls ++ (ptr_line 0 ∷ []))
          → TestAtomicity allocate m out
      prints (ls, merge, e) =
          let (k, r') = Merge-Reach merge (omega arith) (omega arith) in
          joined r' refl refl
            (e ∙ ap (λ v. ls ++ (ptr_line v ∷ [])) (sym (joined-zero r' refl refl)))
