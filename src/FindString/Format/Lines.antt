-- ===== src/FindString/Format/Lines.antt =====
-- What `format_output` of eset/find_string_in_files/src/main.cpp writes: its lines, and what a line
-- can hold.
use challenges.Common.{
  ℕ, zero, suc, ◌+◌, ◌/◌, ◌%◌, ◌^◌, ◌≡◌, ◌⊎◌, inl, inr, refl, List, [], ◌∷◌, ◌++◌, ltb, ◌==◌,
  if◌then◌else◌, Bool-cases, arith,
}
use challenges.FindString.Strings.{Text}
use challenges.FindString.{MatchInfo}
use challenges.FindString.Format.{
  format_byte, format_string, digits, print_i32, closing, format_match, format_output,
}

-- How often a byte stands in a text.
unfoldable pub count : ℕ → Text → ℕ
count b [] = 0
count b (c ∷ s) = (if c == b then 1 else 0) + count b s

pub count-append : (b : ℕ) (s t : Text) → count b (s ++ t) ≡ count b s + count b t
unfolding count
count-append b [] t = omega arith
count-append b (c ∷ s) t = omega (arith, count-append b s t)

-- \b, \t, \n, \r and the space
abbrev IsBlank : ℕ → Type 0
IsBlank b = (b ≡ 8) ⊎ (b ≡ 9) ⊎ (b ≡ 10) ⊎ (b ≡ 13) ⊎ (b ≡ 32)

count-format_byte : (b : ℕ) → IsBlank b → (c : ℕ) → count b (format_byte c) ≡ 0
unfolding count format_byte
count-format_byte b h c = ground arith

count-format_string : (b : ℕ) → IsBlank b → (str : Text) → count b (format_string str) ≡ 0
unfolding count format_string
count-format_string b h [] = refl
count-format_string b h (c ∷ str) = omega (
  arith,
  count-append b (format_byte c) (format_string str),
  count-format_byte b h c,
  count-format_string b h str,
)

count-digits : (fuel n : ℕ) (s : Text) → count b'\n' (digits fuel n s) ≡ count b'\n' s
unfolding count digits
count-digits zero n s = refl
count-digits (suc fuel) n s = elim (Bool-cases (ltb n 10)) [
  | inl here ↦ rw here (ground arith)
  | inr more ↦ rw more (omega (arith, count-digits fuel (n / 10) ((b'0' + n % 10) ∷ s), no_newline))
]
  where
    no_newline : count b'\n' ((b'0' + n % 10) ∷ s) ≡ count b'\n' s
    no_newline = ground arith

count-print_i32 : (n : ℕ) → count b'\n' (print_i32 n) ≡ 0
unfolding count print_i32
count-print_i32 n = elim (Bool-cases (ltb n (2 ^ 31))) [
  | inl low ↦ rw (low, count-digits) refl
  | inr high ↦ rw (high, count-digits) refl
]

-- The newlines in the names and in the target, and one for each match.
unfoldable pub newlines : List MatchInfo → (target : Text) → ℕ
newlines [] target = 0
newlines (c ∷ v) target = count b'\n' c.filename + count b'\n' target + 1 + newlines v target

count-format_match :
    (target : Text) (c : MatchInfo)
    → count b'\n' (format_match target c) ≡ count b'\n' c.filename + count b'\n' target + 1
unfolding count format_match
count-format_match target c =
    let tail : Text = format_string c.suffix ++ (b'\n' ∷ []) in
    let behind : Text = format_string c.prefix ++ (b' ' ∷ (target ++ (b' ' ∷ tail))) in
    omega (
      arith,
      count-append b'\n' c.filename (b'(' ∷ (print_i32 c.offset ++ (closing ++ behind))),
      count-append b'\n' (print_i32 c.offset) (closing ++ behind),
      count-append b'\n' (format_string c.prefix) (b' ' ∷ (target ++ (b' ' ∷ tail))),
      count-append b'\n' target (b' ' ∷ tail),
      count-append b'\n' (format_string c.suffix) (b'\n' ∷ []),
      count-print_i32 c.offset,
      count-format_string b'\n' (inr (inr (inl refl))) c.prefix,
      count-format_string b'\n' (inr (inr (inl refl))) c.suffix,
    )

pub count-format_output :
    (v : List MatchInfo) (target : Text) → count b'\n' (format_output v target) ≡ newlines v target
unfolding count format_output newlines
count-format_output [] target = refl
count-format_output (c ∷ v) target = omega (
  arith,
  count-append b'\n' (format_match target c) (format_output v target),
  count-format_match target c,
  count-format_output v target,
)
