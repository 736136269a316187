-- ===== src/FindString/Context.antt =====
-- The text around a match that `process_chunk` of eset/find_string_in_files/src/main.cpp keeps.
use mathlib.Core.List.{Memᴰ}
use mathlib.Core.List.Memᴰ
use mathlib.Core.Option.{some-injective}
use challenges.Common.{
  length, length-append, ℕ, suc, ◌+◌, ◌-◌, ◌%◌, ◌^◌, ◌≤◌, ◌<◌, ◌≡◌, inl, inr, refl, sym, ap, ◌∙◌,
  true, some, List, [], ◌∷◌, ◌++◌, map, ltb, leb, if◌then◌else◌, dec_lt, arith, subst, lt→ltb,
  le→not_ltb, le→leb,
}
use challenges.Memory.Words.{sign_extend}
use challenges.FindString.Strings.{Text, drop, take, substr}
use challenges.FindString.Matches.{places, process_chunk-places}
use challenges.FindString.Occurrences.{In, In-places→OccursFrom}
use challenges.FindString.{MatchInfo, match_info, null_text, process_chunk}

-- The last three bytes of what stands before a match, if there are three.
abbrev pub last_three : Text → Text
last_three [] = null_text
last_three (a ∷ []) = null_text
last_three (a ∷ (b ∷ [])) = null_text
last_three (a ∷ (b ∷ (c ∷ []))) = a ∷ (b ∷ (c ∷ []))
last_three (a ∷ (b ∷ (c ∷ (d ∷ s)))) = last_three (b ∷ (c ∷ (d ∷ s)))

-- The first three bytes of what stands behind it, if there are four.
abbrev pub first_three : Text → Text
first_three (a ∷ (b ∷ (c ∷ (d ∷ s)))) = a ∷ (b ∷ (c ∷ []))
first_three s = null_text

drop-append : (s t : Text) → drop (length s) (s ++ t) ≡ t
unfolding drop length
drop-append [] t = refl
drop-append (c ∷ s) t = drop-append s t

substr-before :
    (a b c : ℕ) (s t : Text)
    → substr ((a ∷ (b ∷ (c ∷ s))) ++ t) (length (a ∷ (b ∷ (c ∷ s))) - 3) 3
      ≡ last_three (a ∷ (b ∷ (c ∷ s)))
unfolding substr length drop take
substr-before a b c [] t = refl
substr-before a b c (d ∷ s) t =
    let next : suc (suc (suc (suc (length s)))) - 3 ≡ suc (suc (suc (suc (length s))) - 3) =
      omega arith in
    rw next (substr-before b c d s t)

last_three-short : (s : Text) → length s < 3 → last_three s ≡ null_text
unfolding length
last_three-short [] h = refl
last_three-short (a ∷ []) h = refl
last_three-short (a ∷ (b ∷ [])) h = refl
last_three-short (a ∷ (b ∷ (c ∷ s))) h = absurd (omega (arith, h))

substr-after :
    (s t u : Text) → 3 < length u → substr (s ++ (t ++ u)) (length s + length t) 3 ≡ first_three u
unfolding substr length drop take
substr-after [] [] (a ∷ (b ∷ (c ∷ (d ∷ u)))) h = refl
substr-after [] [] [] h = absurd (omega (arith, h))
substr-after [] [] (a ∷ []) h = absurd (omega (arith, h))
substr-after [] [] (a ∷ (b ∷ [])) h = absurd (omega (arith, h))
substr-after [] [] (a ∷ (b ∷ (c ∷ []))) h = absurd (omega (arith, h))
substr-after [] (c ∷ t) u h =
    let next : 0 + suc (length t) ≡ suc (0 + length t) = omega arith in
    rw next (substr-after [] t u h)
substr-after (c ∷ s) t u h =
    let next : suc (length s) + length t ≡ suc (length s + length t) = omega arith in
    rw next (substr-after s t u h)

first_three-short : (s : Text) → length s ≤ 3 → first_three s ≡ null_text
unfolding length
first_three-short [] h = refl
first_three-short (a ∷ []) h = refl
first_three-short (a ∷ (b ∷ [])) h = refl
first_three-short (a ∷ (b ∷ (c ∷ []))) h = refl
first_three-short (a ∷ (b ∷ (c ∷ (d ∷ s)))) h = absurd (omega (arith, h))

prefix-last_three :
    (before t : Text)
    → (if leb 3 (length before) then substr (before ++ t) (length before - 3) 3 else null_text)
      ≡ last_three before
unfolding length
prefix-last_three [] t = refl
prefix-last_three (a ∷ []) t = refl
prefix-last_three (a ∷ (b ∷ [])) t = refl
prefix-last_three (a ∷ (b ∷ (c ∷ s))) t =
    rw (le→leb 3 (suc (suc (suc (length s)))) (omega arith)) (substr-before a b c s t)

suffix-first_three :
    (before target after : Text)
    → (if ltb 3 (length after)
        then substr (before ++ (target ++ after)) (length before + length target) 3
        else null_text)
      ≡ first_three after
suffix-first_three before target after = elim (dec_lt 3 (length after)) [
  | yes long ↦ rw (lt→ltb 3 (length after) long) (substr-after before target after long)
  | no short ↦
      rw (le→not_ltb 3 (length after) (omega (arith, short)))
        (sym (first_three-short after (omega (arith, short))))
]

match_info-append :
    (before target after path : Text)
    → length (before ++ (target ++ after)) < 2 ^ 31
    → match_info (before ++ (target ++ after)) target path (length before) ≡ record {
      filename = path;
      offset = length before;
      prefix = last_three before;
      suffix = first_three after;
    }
unfolding match_info sign_extend
match_info-append before target after path small =
    let size : length (before ++ (target ++ after))
        ≡ length before + (length target + length after) =
      rw (length-append, length-append) refl in
    let low : ltb (length before) (2 ^ 31) ≡ true =
      lt→ltb (length before) (2 ^ 31) (omega (arith, size, small)) in
    let room : ltb ((length before + length target + 3) % 2 ^ 64)
          (length (before ++ (target ++ after)))
        ≡ ltb 3 (length after) =
      ground (arith, size, small) in
    rw (low, room) (rw (prefix-last_three, suffix-first_three) refl)

Memᴰ-map :
    (f : ℕ → MatchInfo) (ps : List ℕ) (m : MatchInfo)
    → Memᴰ m (map f ps)
    → (p : ℕ) × In p ps × (m ≡ f p)
Memᴰ-map f [] m i = absurd (Memᴰ.not-nil i)
Memᴰ-map f (p ∷ ps) m i = elim (Memᴰ.cases_cons i) [
  | inl e ↦ (p, inl refl, e)
  | inr later ↦ let (q, there, e) = Memᴰ-map f ps m later in (q, inr there, e)
]

-- Each match that `process_chunk` returns for a text of less than 2 ^ 31 - 1 bytes stands between
-- two parts of the text: its offset is the length of the part before it, its prefix the last three
-- bytes of that part, or (null) where it has fewer, and its suffix the first three bytes of the
-- part behind it, or (null) where that has fewer than four.
pub process_chunk-context :
    (chunk target path : Text) (ms : List MatchInfo) (m : MatchInfo)
    → length chunk < 2 ^ 31 - 1
    → process_chunk chunk target path ≡ some ms
    → Memᴰ m ms
    → (before : Text) × (after : Text) × (chunk ≡ before ++ (target ++ after))
      × (m ≡ record {
        filename = path;
        offset = length before;
        prefix = last_three before;
        suffix = first_three after;
      })
process_chunk-context chunk target path ms m small e i =
    let same : map (match_info chunk target path) (places chunk target 0) ≡ ms =
      some-injective (map (match_info chunk target path) (places chunk target 0)) ms
        (sym (process_chunk-places chunk target path small) ∙ e) in
    let (p, there, m_at) =
      Memᴰ-map (match_info chunk target path) (places chunk target 0) m
        (subst (λ l. Memᴰ m l) (sym same) i) in
    let (before, after, split, at) = In-places→OccursFrom chunk target 0 p there in
    let offset : p ≡ length before = omega (arith, at) in
    (
      before,
      after,
      split,
      m_at
          ∙ ap (match_info chunk target path) offset
          ∙ ap (λ c. match_info c target path (length before)) split
          ∙ match_info-append before target after path
              (subst (λ c. length c < 2 ^ 31) split (omega (arith, small))),
    )
