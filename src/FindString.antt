-- ===== src/FindString.antt =====
-- eset/find_string_in_files/src/main.cpp: the search for a string in a file or a tree of files.
pub mod Strings
pub mod Context
pub mod Files
pub mod Format
pub mod Large
pub mod Main
pub mod Matches
pub mod Occurrences
use challenges.Common.{
  length, ℕ, zero, suc, ◌+◌, ◌-◌, ◌%◌, ◌^◌, Bool, ◌&&◌, Option, none, some, List, [], ◌∷◌, ltb, leb,
  ◌==◌, if◌then◌else◌, ◌>>=◌,
}
use challenges.Memory.Words.{sign_extend}
use challenges.FindString.Strings.{Text, npos, find, substr}

-- `struct MatchInfo`; the offset is the pattern of an `i32`.
pub record MatchInfo : Type 0 where
  pub filename : Text
  pub offset : ℕ
  pub prefix : Text
  pub suffix : Text

-- "(null)"
abbrev pub null_text : Text
null_text = b'(' ∷ (b'n' ∷ (b'u' ∷ (b'l' ∷ (b'l' ∷ (b')' ∷ [])))))

-- static_cast<i32>
abbrev pub to_i32 : ℕ → ℕ
to_i32 n = n % 2 ^ 32

-- `pos + 1` on an `i32`: undefined for the greatest.
abbrev pub next_i32 : ℕ → Option ℕ
next_i32 pos = if pos == 2 ^ 31 - 1 then none else some ((pos + 1) % 2 ^ 32)

-- What the loop of `process_chunk` keeps of the match at `pos`.
unfoldable pub match_info : (chunk target path : Text) (pos : ℕ) → MatchInfo
unfolding length substr sign_extend
match_info chunk target path pos = record {
  filename = path;
  offset = pos;
  prefix = if ltb pos (2 ^ 31) && leb 3 pos then substr chunk (pos - 3) 3 else null_text;
  suffix =
      if ltb ((sign_extend pos + length target + 3) % 2 ^ 64) (length chunk)
      then substr chunk (pos + length target) 3
      else null_text;
}

-- `while (pos != std::string::npos)`
unfoldable pub match_loop :
    (fuel : ℕ) (chunk target path : Text) (pos : ℕ) → Option (List MatchInfo)
unfolding find sign_extend match_info
match_loop zero chunk target path pos = none
match_loop (suc fuel) chunk target path pos =
    let rest = do
      next ← next_i32 pos
      match_loop fuel chunk target path (to_i32 (find chunk target (sign_extend next)))
    in if sign_extend pos == npos
      then some []
      else (do positions ← rest; some (match_info chunk target path pos ∷ positions))

-- A text has a place more than bytes.
unfoldable pub process_chunk : (chunk target path : Text) → Option (List MatchInfo)
unfolding find length match_loop
process_chunk chunk target path =
    match_loop (length chunk + 2) chunk target path (to_i32 (find chunk target 0))
