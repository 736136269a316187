-- ===== src/Goruntime/Write.antt =====
-- What `write_memory` of rgoffi/go/gocruntime/goruntime.c writes, and `read_memory` prints.
use challenges.Common.{
  ℕ, zero, suc, ◌+◌, ◌-◌, ◌*◌, ◌%◌, ◌/◌, ◌≤◌, ◌<◌, ◌≡◌, inl, inr, refl, ◌∙◌, arith, ap, ap₂, sym,
  ℕ_discrete, List, [], ◌∷◌, ◌++◌, ltb, ◌==◌, if◌then◌else◌, true, false, Bool-cases,
}
use challenges.Memory.{Mem, put}
use challenges.Memory.Laws.{Outside, put_self, put_ne}
use challenges.Goruntime.{write_memory, hex_digit, hex_line, read_memory}

write_memory-Outside :
    (rand : ℕ → ℕ) (count i : ℕ) (m : Mem) (ptr q : ℕ)
    → Outside (ptr + i) count q
    → write_memory rand count i m ptr q ≡ m q
unfolding write_memory
write_memory-Outside rand zero i m ptr q out = refl
write_memory-Outside rand (suc count) i m ptr q out =
    write_memory-Outside rand count (i + 1) (put m (ptr + i) (rand i % 255)) ptr q
      (ground (arith, out))
    ∙ put_ne m (ptr + i) (rand i % 255) q (λ e. absurd (ground (arith, out, e)))

write_memory-within :
    (rand : ℕ → ℕ) (count i : ℕ) (m : Mem) (ptr k : ℕ)
    → i ≤ k
    → k < i + count
    → write_memory rand count i m ptr (ptr + k) ≡ rand k % 255
unfolding write_memory
write_memory-within rand zero i m ptr k low high = absurd (omega (arith, low, high))
write_memory-within rand (suc count) i m ptr k low high =
    let written : Mem = put m (ptr + i) (rand i % 255) in
    elim (ℕ_discrete i k) [
      | yes here ↦
          write_memory-Outside rand count (i + 1) written ptr (ptr + k) (inl (omega (arith, here)))
          ∙ ap (λ t. written (ptr + t)) (sym here)
          ∙ put_self m (ptr + i) (rand i % 255)
          ∙ omega (arith, ap (λ t. rand t) here)
      | no later ↦
          write_memory-within rand count (i + 1) written ptr k (ground (arith, low, later))
            (omega (arith, high))
    ]

-- The numbers that `read_memory` is to show.
abbrev pub reduced : (rand : ℕ → ℕ) → (count i : ℕ) → List ℕ
reduced rand zero i = []
reduced rand (suc count) i = (rand i % 255) ∷ reduced rand count (i + 1)

abbrev digit_value : ℕ → ℕ
digit_value c = if ltb c b'a' then c - b'0' else c - b'a' + 10

-- Read lines of hexadecimal numbers back: `acc` is the number so far.
unfoldable pub numbers_of : List ℕ → (acc : ℕ) → List ℕ
numbers_of [] acc = []
numbers_of (c ∷ s) acc = elim (c == b'\n') [
  | true ↦ acc ∷ numbers_of s 0
  | false ↦ numbers_of s (if c == b'x' then 0 else acc * 16 + digit_value c)
]

numbers_of-hex_digit :
    (d acc : ℕ) (s : List ℕ)
    → d < 16
    → numbers_of (hex_digit d ∷ s) acc ≡ numbers_of s (acc * 16 + d)
unfolding numbers_of hex_digit
numbers_of-hex_digit d acc s small = elim (Bool-cases (ltb d 10)) [
  | inl decimal ↦ ground arith
  | inr letter ↦ ground arith
]

numbers_of-prefix : (s : List ℕ) → numbers_of (b'0' ∷ (b'x' ∷ s)) 0 ≡ numbers_of s 0
unfolding numbers_of
numbers_of-prefix s = refl

numbers_of-newline : (acc : ℕ) (s : List ℕ) → numbers_of (b'\n' ∷ s) acc ≡ acc ∷ numbers_of s 0
unfolding numbers_of
numbers_of-newline acc s = refl

numbers_of-hex_line :
    (v : ℕ) (s : List ℕ) → v < 256 → numbers_of (hex_line v ++ s) 0 ≡ v ∷ numbers_of s 0
unfolding hex_line
numbers_of-hex_line v s small = elim (Bool-cases (ltb v 16)) [
  | inl one ↦
      rw (one, numbers_of-prefix)
        (numbers_of-hex_digit (v % 16) 0 (b'\n' ∷ s) (omega arith)
          ∙ numbers_of-newline (0 * 16 + v % 16) s
          ∙ ap (λ k. k ∷ numbers_of s 0) (ground (arith, one)))
  | inr two ↦
      rw (two, numbers_of-prefix)
        (numbers_of-hex_digit (v / 16) 0 (hex_digit (v % 16) ∷ (b'\n' ∷ s)) (omega (arith, small))
          ∙ numbers_of-hex_digit (v % 16) (0 * 16 + v / 16) (b'\n' ∷ s) (omega arith)
          ∙ numbers_of-newline ((0 * 16 + v / 16) * 16 + v % 16) s
          ∙ ap (λ k. k ∷ numbers_of s 0) (omega arith))
]

read_memory-numbers :
    (rand : ℕ → ℕ) (count i : ℕ) (m : Mem) (ptr : ℕ)
    → ((k : ℕ) → i ≤ k → k < i + count → m (ptr + k) ≡ rand k % 255)
    → numbers_of (read_memory count i m ptr) 0 ≡ reduced rand count i
unfolding read_memory numbers_of
read_memory-numbers rand zero i m ptr holds = refl
read_memory-numbers rand (suc count) i m ptr holds =
    let here : m (ptr + i) ≡ rand i % 255 = holds i (omega arith) (omega arith) in
    numbers_of-hex_line (m (ptr + i)) _ (omega (arith, here))
    ∙ ap₂ (λ v s. v ∷ s) here
        (read_memory-numbers rand count (i + 1) m ptr
          (λ k low high. holds k (omega (arith, low)) (omega (arith, high))))

-- The lines that `read_memory` prints of bytes that `write_memory` has filled, read back as
-- hexadecimal numbers, are the numbers of `rand` in their order, each reduced below 255, and
-- `write_memory` leaves all other memory as it is.
pub read_memory-write_memory :
    (rand : ℕ → ℕ) (size : ℕ) (m : Mem) (ptr : ℕ)
    → (numbers_of (read_memory size 0 (write_memory rand size 0 m ptr) ptr) 0 ≡ reduced rand size 0)
      × ((q : ℕ) → Outside ptr size q → write_memory rand size 0 m ptr q ≡ m q)
read_memory-write_memory rand size m ptr = (
  read_memory-numbers rand size 0 _ ptr
      (λ k low high. write_memory-within rand size 0 m ptr k low high),
  λ q out. write_memory-Outside rand size 0 m ptr q (ground (arith, out)),
)
