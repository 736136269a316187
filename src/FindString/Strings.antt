-- ===== src/FindString/Strings.antt =====
-- What eset/find_string_in_files/src/main.cpp uses of std::string: a text is the list of its bytes.
use challenges.Common.{
  length, ℕ, zero, suc, ◌-◌, ◌^◌, Bool, true, false, ◌&&◌, List, [], ◌∷◌, ltb, ◌==◌, if◌then◌else◌,
}

abbrev pub Text : Type 0
Text = List ℕ

-- std::string::npos
abbrev pub npos : ℕ
npos = 2 ^ 64 - 1

unfoldable pub drop : ℕ → Text → Text
drop zero s = s
drop (suc n) [] = []
drop (suc n) (c ∷ s) = drop n s

unfoldable pub take : ℕ → Text → Text
take zero s = []
take (suc n) [] = []
take (suc n) (c ∷ s) = c ∷ take n s

-- Does the text begin with `t`?
unfoldable pub starts_with : (t s : Text) → Bool
starts_with [] s = true
starts_with (c ∷ t) [] = false
starts_with (c ∷ t) (d ∷ s) = (c == d) && starts_with t s

-- The first place at which the text has `t`, where it begins at `pos` itself.
unfoldable pub search : (s t : Text) (pos : ℕ) → ℕ
unfolding starts_with
search [] t pos = if starts_with t [] then pos else npos
search (c ∷ s) t pos = if starts_with t (c ∷ s) then pos else search s t (suc pos)

-- s.find (t, pos)
unfoldable pub find : (s t : Text) (pos : ℕ) → ℕ
unfolding length drop search
find s t pos = if ltb (length s) pos then npos else search (drop pos s) t pos

-- s.substr (pos, n), for a pos within the text
unfoldable pub substr : Text → (pos n : ℕ) → Text
unfolding take drop
substr s pos n = take n (drop pos s)
