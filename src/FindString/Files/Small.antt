-- ===== src/FindString/Files/Small.antt =====
-- Which occurrences `process_small_file` of eset/find_string_in_files/src/main.cpp reports.
use mathlib.Core.List.{append_assoc, append-nil}
use challenges.Common.{
  length, ℕ, suc, ◌-◌, ◌^◌, ◌<◌, ◌≡◌, ◌≢◌, ◌↔◌, refl, sym, ap, ◌∙◌, some, List, [], ◌∷◌, ◌++◌,
  arith,
}
use challenges.FindString.Strings.{Text}
use challenges.FindString.{MatchInfo, process_chunk}
use challenges.FindString.Files.{Entry, file_size_limit, fill, end_zero, process_small_file}
use challenges.FindString.Files.Errors.{process_small_file-read}
use challenges.FindString.Occurrences.{In, IsAbove, Occurs, HasPath, offsets, process_chunk-Occurs}

-- No byte of the text is zero.
abbrev pub HasNoZero : Text → Type 0
HasNoZero [] = Unit {0}
HasNoZero (c ∷ s) = (c ≢ 0) × HasNoZero s

last : Text → ℕ
last [] = 1
last (c ∷ []) = c
last (c ∷ (d ∷ s)) = last (d ∷ s)

init : Text → Text
init [] = []
init (c ∷ []) = []
init (c ∷ (d ∷ s)) = c ∷ init (d ∷ s)

last-append : (a : Text) (c : ℕ) (s : Text) → last (a ++ (c ∷ s)) ≡ last (c ∷ s)
unfolding last
last-append [] c s = refl
last-append (x ∷ []) c s = refl
last-append (x ∷ (y ∷ a)) c s = last-append (y ∷ a) c s

init-append : (a : Text) (c : ℕ) (s : Text) → init (a ++ (c ∷ s)) ≡ a ++ init (c ∷ s)
unfolding init
init-append [] c s = refl
init-append (x ∷ []) c s = refl
init-append (x ∷ (y ∷ a)) c s = ap (λ r. x ∷ r) (init-append (y ∷ a) c s)

last-HasNoZero : (s : Text) → HasNoZero s → last s ≢ 0
unfolding last
last-HasNoZero [] h e = absurd (omega (arith, e))
last-HasNoZero (c ∷ []) h e = h.0 e
last-HasNoZero (c ∷ (d ∷ s)) h e = last-HasNoZero (d ∷ s) h.1 e

end_zero-snoc : (s : Text) (c : ℕ) → end_zero (s ++ (c ∷ [])) ≡ some (s ++ (0 ∷ []))
unfolding end_zero
end_zero-snoc [] c = refl
end_zero-snoc (x ∷ []) c = refl
end_zero-snoc (x ∷ (y ∷ s)) c = rw (end_zero-snoc (y ∷ s) c) refl

fill-whole : (s : Text) → fill (length s) s ≡ s
unfolding fill length
fill-whole [] = refl
fill-whole (c ∷ s) = ap (λ r. c ∷ r) (fill-whole s)

-- Behind a zero byte there is no place for a target without one.
Occurs-snoc :
    (s : Text) (c : ℕ) (target : Text) (p : ℕ)
    → HasNoZero (c ∷ target)
    → Occurs (s ++ (0 ∷ [])) (c ∷ target) p ↔ Occurs s (c ∷ target) p
unfolding last init
Occurs-snoc s c target p no_zero = (to, from)
  where
    to : Occurs (s ++ (0 ∷ [])) (c ∷ target) p → Occurs s (c ∷ target) p
    to (a, [], e, at) =
        let zero_end : 0 ≡ last (c ∷ target) =
          sym (last-append s 0 [])
          ∙ ap last e
          ∙ last-append a c (target ++ [])
          ∙ ap last (append-nil (c ∷ target)) in
        absurd (last-HasNoZero (c ∷ target) no_zero (sym zero_end))
    to (a, d ∷ b, e, at) = (
      a,
      init (d ∷ b),
      sym (init-append s 0 [] ∙ append-nil s)
          ∙ ap init e
          ∙ init-append a c (target ++ (d ∷ b))
          ∙ ap (λ r. a ++ r) (init-append (c ∷ target) d b),
      at,
    )

    from : Occurs s (c ∷ target) p → Occurs (s ++ (0 ∷ [])) (c ∷ target) p
    from (a, b, e, at) = (
      a,
      b ++ (0 ∷ []),
      ap (λ r. r ++ (0 ∷ [])) e
          ∙ append_assoc a (c ∷ (target ++ b)) (0 ∷ [])
          ∙ ap (λ r. a ++ r) (append_assoc (c ∷ target) b (0 ∷ [])),
      at,
    )

length-snoc : (s : Text) (c d : ℕ) → length (s ++ (c ∷ [])) ≡ length (s ++ (d ∷ []))
unfolding length
length-snoc [] c d = refl
length-snoc (x ∷ s) c d = ap suc (length-snoc s c d)

-- A buffer that is read whole is searched without its last byte.
pub buffer-Occurs :
    (path s : Text) (end c : ℕ) (target : Text) (n : ℕ)
    → n ≡ length (s ++ (end ∷ []))
    → n < 2 ^ 31 - 1
    → HasNoZero (c ∷ target)
    → (t : Text) × (ms : List MatchInfo) × (end_zero (fill n (s ++ (end ∷ []))) ≡ some t)
      × (process_chunk t (c ∷ target) path ≡ some ms)
      × IsAbove 0 (offsets ms)
      × HasPath path ms
      × ((p : ℕ) → In p (offsets ms) ↔ Occurs s (c ∷ target) p)
buffer-Occurs path s end c target n size small no_zero =
    let bound : length (s ++ (0 ∷ [])) < 2 ^ 31 - 1 =
      omega (arith, length-snoc s end 0, size, small) in
    let (ms, e, above, same_path, occurs) =
      process_chunk-Occurs (s ++ (0 ∷ [])) (c ∷ target) path bound in
    let buffer : end_zero (fill n (s ++ (end ∷ []))) ≡ some (s ++ (0 ∷ [])) =
      ap (λ n. end_zero (fill n (s ++ (end ∷ [])))) size
      ∙ ap end_zero (fill-whole (s ++ (end ∷ [])))
      ∙ end_zero-snoc s end in
    (
      s ++ (0 ∷ []),
      ms,
      buffer,
      e,
      above,
      same_path,
      λ p.
          let (there, back) = Occurs-snoc s c target p no_zero in
          (λ i. there ((occurs p).0 i), λ o. (occurs p).1 (back o)),
    )

pub process_small_file-Occurs :
    (entry : Entry) (s : Text) (end c : ℕ) (target : Text)
    → entry.content ≡ some (s ++ (end ∷ []))
    → entry.file_size ≡ length (s ++ (end ∷ []))
    → entry.file_size < file_size_limit
    → HasNoZero (c ∷ target)
    → (ms : List MatchInfo) × (process_small_file entry (c ∷ target) ≡ some (ms, []))
      × IsAbove 0 (offsets ms)
      × HasPath entry.path ms
      × ((p : ℕ) → In p (offsets ms) ↔ Occurs s (c ∷ target) p)
process_small_file-Occurs entry s end c target opened size small no_zero =
    let (t, ms, read, found, above, path, occurs) =
      buffer-Occurs entry.path s end c target entry.file_size size (omega (arith, small)) no_zero in
    (
      ms,
      process_small_file-read entry (s ++ (end ∷ [])) (c ∷ target) t ms opened read found,
      above,
      path,
      occurs,
    )
