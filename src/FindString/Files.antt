-- ===== src/FindString/Files.antt =====
-- `process_small_file` of eset/find_string_in_files/src/main.cpp.
pub mod Errors
pub mod Small
use challenges.Common.{
  ℕ, zero, suc, ◌+◌, ◌^◌, ◌*◌, ◌<◌, Option, none, some, List, [], ◌∷◌, ◌++◌, ◌>>=◌,
}
use challenges.FindString.Strings.{Text}
use challenges.FindString.{MatchInfo, process_chunk}

-- What the library tells of a directory entry; the content is `none` where it cannot be opened.
pub record Entry : Type 0 where
  pub path : Text
  pub file_size : ℕ
  pub content : Option Text

abbrev pub file_size_limit : ℕ
file_size_limit = 512 * 1024 * 1024

-- A buffer of `n` zero bytes, with the text read into it.
unfoldable pub fill : (n : ℕ) → Text → Text
fill zero s = []
fill (suc n) [] = 0 ∷ fill n []
fill (suc n) (c ∷ s) = c ∷ fill n s

-- `buffer.data()[size-1] = 0`: undefined for an empty buffer.
unfoldable pub end_zero : Text → Option Text
end_zero [] = none
end_zero (c ∷ []) = some (0 ∷ [])
end_zero (c ∷ (d ∷ s)) = do rest ← end_zero (d ∷ s); some (c ∷ rest)

-- "could not open a file "
abbrev pub could_not_open : Text
could_not_open =
    (b'c'
      ∷ (b'o'
          ∷ (b'u'
              ∷ (b'l'
                  ∷ (b'd'
                      ∷ (b' '
                          ∷ (b'n'
                              ∷ (b'o'
                                  ∷ (b't'
                                      ∷ (b' '
                                          ∷ (b'o'
                                              ∷ (b'p'
                                                  ∷ (b'e'
                                                      ∷ (b'n'
                                                          ∷ (b' '
                                                            ∷ (b'a'
                                                            ∷ (b' '
                                                            ∷ (b'f'
                                                            ∷ (b'i'
                                                            ∷ (b'l'
                                                            ∷ (b'e'
                                                            ∷ (b' ' ∷ []))))))))))))))))))))))

-- The matches, and what goes to std::cerr.
unfoldable pub process_small_file : Entry → (target : Text) → Option (List MatchInfo × Text)
unfolding fill end_zero process_chunk
process_small_file entry target = elim entry.content [
  | none ↦ some ([], could_not_open ++ (entry.path ++ (b'\n' ∷ [])))
  | some content ↦ do
    buffer ← end_zero (fill entry.file_size content)
    matches ← process_chunk buffer target entry.path
    some (matches, [])
]
