-- ===== src/FindString/Format.antt =====
-- `format_string` and `format_output` of eset/find_string_in_files/src/main.cpp: what they write.
pub mod Lines
use challenges.Common.{
  ℕ, zero, suc, ◌+◌, ◌-◌, ◌/◌, ◌%◌, ◌^◌, List, [], ◌∷◌, ◌++◌, ltb, ◌==◌, if◌then◌else◌,
}
use challenges.FindString.Strings.{Text}
use challenges.FindString.{MatchInfo}

-- "<space>"
abbrev pub space_name : Text
space_name = (b'<' ∷ (b's' ∷ (b'p' ∷ (b'a' ∷ (b'c' ∷ (b'e' ∷ (b'>' ∷ [])))))))

-- The case of `\b` has no `break`, and goes on into that of the space.
unfoldable pub format_byte : ℕ → Text
format_byte c =
    if c == b'\t'
    then b'\\' ∷ (b't' ∷ [])
    else if c == b'\n'
    then b'\\' ∷ (b'n' ∷ [])
    else if c == b'\r'
    then b'\\' ∷ (b'r' ∷ [])
    else if c == 8
    then b'\\' ∷ (b'b' ∷ space_name)
    else if c == b' '
    then space_name
    else c ∷ []

unfoldable pub format_string : Text → Text
unfolding format_byte
format_string [] = []
format_string (c ∷ str) = format_byte c ++ format_string str

-- The decimal digits of a number in front of a text, at most `fuel` of them.
unfoldable pub digits : (fuel n : ℕ) → Text → Text
digits zero n s = s
digits (suc fuel) n s =
    let here : Text = (b'0' + n % 10) ∷ s in
    let more = digits fuel (n / 10) here in if ltb n 10 then here else more

-- `<<` of an `i32`: ten digits are enough.
unfoldable pub print_i32 : ℕ → Text
unfolding digits
print_i32 n = if ltb n (2 ^ 31) then digits 10 n [] else b'-' ∷ digits 10 (2 ^ 32 - n) []

-- "): "
abbrev closing : Text
closing = b')' ∷ (b':' ∷ (b' ' ∷ []))

unfoldable pub format_match : (target : Text) → MatchInfo → Text
unfolding print_i32 format_string
format_match target c =
    c.filename
    ++ (b'('
        ∷ (print_i32 c.offset
            ++ (closing
                ++ (format_string c.prefix
                    ++ (b' ' ∷ (target ++ (b' ' ∷ (format_string c.suffix ++ (b'\n' ∷ [])))))))))

unfoldable pub format_output : List MatchInfo → (target : Text) → Text
unfolding format_match
format_output [] target = []
format_output (c ∷ v) target = format_match target c ++ format_output v target
