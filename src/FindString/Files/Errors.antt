-- ===== src/FindString/Files/Errors.antt =====
-- Where `process_small_file` of eset/find_string_in_files/src/main.cpp has no result.
use challenges.Common.{
  length, ℕ, zero, suc, ◌<◌, ◌≡◌, ◌⊎◌, ◌↔◌, inl, inr, refl, ap, ◌∙◌, none, some, List, [], ◌∷◌,
  arith,
}
use challenges.FindString.Strings.{Text}
use challenges.FindString.{MatchInfo, process_chunk}
use challenges.FindString.Files.{Entry, file_size_limit, fill, end_zero, process_small_file}
use challenges.FindString.Occurrences.{process_chunk-Occurs}

ℕ-cases : (n : ℕ) → (n ≡ 0) ⊎ ((k : ℕ) × (n ≡ suc k))
ℕ-cases zero = inl refl
ℕ-cases (suc n) = inr (n, refl)

length-fill : (n : ℕ) (s : Text) → length (fill n s) ≡ n
unfolding fill length
length-fill zero s = refl
length-fill (suc n) [] = ap suc (length-fill n [])
length-fill (suc n) (c ∷ s) = ap suc (length-fill n s)

end_zero-length :
    (c : ℕ) (s : Text) → (t : Text) × (end_zero (c ∷ s) ≡ some t) × (length t ≡ suc (length s))
unfolding end_zero length
end_zero-length c [] = (0 ∷ [], refl, refl)
end_zero-length c (d ∷ s) =
    let (t, e, size) = end_zero-length d s in (c ∷ t, rw e refl, ap suc size)

pub end_zero-fill :
    (n : ℕ) (s : Text) → (t : Text) × (end_zero (fill (suc n) s) ≡ some t) × (length t ≡ suc n)
unfolding fill
end_zero-fill n [] =
    let (t, e, size) = end_zero-length 0 (fill n []) in (t, e, size ∙ ap suc (length-fill n []))
end_zero-fill n (c ∷ s) =
    let (t, e, size) = end_zero-length c (fill n s) in (t, e, size ∙ ap suc (length-fill n s))

pub process_small_file-read :
    (entry : Entry) (content target t : Text) (ms : List MatchInfo)
    → entry.content ≡ some content
    → end_zero (fill entry.file_size content) ≡ some t
    → process_chunk t target entry.path ≡ some ms
    → process_small_file entry target ≡ some (ms, [])
unfolding process_small_file
process_small_file-read entry content target t ms opened read found = rw (opened, read, found) refl

process_small_file-some :
    (entry : Entry) (content target : Text) (n : ℕ)
    → entry.content ≡ some content
    → entry.file_size ≡ suc n
    → suc n < file_size_limit
    → (ms : List MatchInfo) × (process_small_file entry target ≡ some (ms, []))
process_small_file-some entry content target n opened size small =
    let (t, e, t_size) = end_zero-fill n content in
    let (ms, found, _, _, _) =
      process_chunk-Occurs t target entry.path (omega (arith, t_size, small)) in
    let read : end_zero (fill entry.file_size content) ≡ some t =
      ap (λ k. end_zero (fill k content)) size ∙ e in
    (ms, process_small_file-read entry content target t ms opened read found)

-- For a small file that can be opened `process_small_file` has undefined behaviour exactly where
-- the file is empty.
pub process_small_file-undefined :
    (entry : Entry) (content target : Text)
    → entry.content ≡ some content
    → entry.file_size < file_size_limit
    → (process_small_file entry target ≡ none) ↔ (entry.file_size ≡ 0)
process_small_file-undefined entry content target opened small = (to, from)
  where
    to : process_small_file entry target ≡ none → entry.file_size ≡ 0
    to e = elim (ℕ-cases entry.file_size) [
      | inl empty ↦ empty
      | inr (n, size) ↦
          let (ms, result) =
            process_small_file-some entry content target n opened size
              (omega (arith, size, small)) in
          absurd (cc)
    ]

    from : entry.file_size ≡ 0 → process_small_file entry target ≡ none
    from e = unfold process_small_file fill end_zero in rw (opened, e) refl
