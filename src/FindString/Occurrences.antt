-- ===== src/FindString/Occurrences.antt =====
-- Where a string occurs in a text, against what `process_chunk` of
-- eset/find_string_in_files/src/main.cpp reports.
use challenges.Common.{
  length, ℕ, suc, ◌+◌, ◌-◌, ◌^◌, ◌≤◌, ◌<◌, ◌≡◌, ◌⊎◌, ◌↔◌, inl, inr, refl, sym, ap, ◌∙◌, true, some,
  List, [], ◌∷◌, ◌++◌, map, ◌==◌, ==_iff, ==_refl, Bool-cases, arith, subst,
}
use challenges.FindString.Strings.{Text, starts_with}
use challenges.FindString.{MatchInfo, match_info, process_chunk}
use challenges.FindString.Matches.{places, process_chunk-places}

abbrev pub In : ℕ → List ℕ → Type 0
In p [] = ⊥
In p (x ∷ xs) = (p ≡ x) ⊎ In p xs

-- Each number is above `n`, and above those before it.
abbrev pub IsAbove : ℕ → List ℕ → Type 0
IsAbove n [] = Unit {0}
IsAbove n (x ∷ xs) = (n ≤ x) × IsAbove (suc x) xs

-- `p` bytes of the text stand before the target.
abbrev pub Occurs : (s target : Text) → ℕ → Type 0
Occurs s target p = (a : Text) × (b : Text) × (s ≡ a ++ (target ++ b)) × (length a ≡ p)

starts_with→append : (t s : Text) → starts_with t s ≡ true → (b : Text) × (s ≡ t ++ b)
unfolding starts_with
starts_with→append [] s h = (s, refl)
starts_with→append (c ∷ t) [] h = absurd (cc)
starts_with→append (c ∷ t) (d ∷ s) h = elim (Bool-cases (c == d)) [
  | inl same ↦
      let at : c ≡ d = (==_iff c d).0 same in
      let (b, e) = starts_with→append t s (rw same at h) in
      (b, ap (λ x. x ∷ s) (sym at) ∙ ap (λ r. c ∷ r) e)
  | inr other ↦ absurd (let no_match = rw other at h in cc)
]

append→starts_with : (t b : Text) → starts_with t (t ++ b) ≡ true
unfolding starts_with
append→starts_with [] b = refl
append→starts_with (c ∷ t) b = rw (==_refl c, append→starts_with t b) refl

-- The same for a text that begins at `n`.
abbrev pub OccursFrom : (s target : Text) (n p : ℕ) → Type 0
OccursFrom s target n p = (a : Text) × (b : Text) × (s ≡ a ++ (target ++ b)) × (n + length a ≡ p)

pub In-places→OccursFrom :
    (s target : Text) (n p : ℕ) → In p (places s target n) → OccursFrom s target n p
unfolding places length
In-places→OccursFrom [] target n p i = elim (Bool-cases (starts_with target [])) [
  | inl here ↦ elim (rw here at i) [
    | inl at ↦ let (b, e) = starts_with→append target [] here in ([], b, e, omega (arith, at))
    | inr none_left ↦ absurd none_left
  ]
  | inr other ↦ absurd (rw other at i)
]
In-places→OccursFrom (c ∷ s) target n p i = elim (Bool-cases (starts_with target (c ∷ s))) [
  | inl here ↦ elim (rw here at i) [
    | inl at ↦ let (b, e) = starts_with→append target (c ∷ s) here in ([], b, e, omega (arith, at))
    | inr later ↦ behind (In-places→OccursFrom s target (suc n) p later)
  ]
  | inr other ↦ behind (In-places→OccursFrom s target (suc n) p (rw other at i))
]
  where
    behind : OccursFrom s target (suc n) p → OccursFrom (c ∷ s) target n p
    behind (a, b, e, at) = (c ∷ a, b, ap (λ r. c ∷ r) e, omega (arith, at))

In-here : (s target : Text) (n : ℕ) → starts_with target s ≡ true → In n (places s target n)
unfolding places
In-here [] target n h = rw h (inl refl)
In-here (c ∷ s) target n h = rw h (inl refl)

OccursFrom→In-places :
    (a b target : Text) (n : ℕ) → In (n + length a) (places (a ++ (target ++ b)) target n)
unfolding places length
OccursFrom→In-places [] b target n =
    let e : n + 0 ≡ n = omega arith in
    rw e (In-here (target ++ b) target n (append→starts_with target b))
OccursFrom→In-places (c ∷ a) b target n =
    let e : n + suc (length a) ≡ suc n + length a = omega arith in
    let later : In (n + suc (length a)) (places (a ++ (target ++ b)) target (suc n)) =
      subst (λ k. In k (places (a ++ (target ++ b)) target (suc n))) (sym e)
        (OccursFrom→In-places a b target (suc n)) in
    elim (Bool-cases (starts_with target (c ∷ (a ++ (target ++ b))))) [
      | inl here ↦ rw here (inr later)
      | inr other ↦ rw other later
    ]

IsAbove-weaken : (n : ℕ) (xs : List ℕ) → IsAbove (suc n) xs → IsAbove n xs
IsAbove-weaken n [] h = h
IsAbove-weaken n (x ∷ xs) (low, rest) = (omega (arith, low), rest)

places-IsAbove : (s target : Text) (n : ℕ) → IsAbove n (places s target n)
unfolding places
places-IsAbove [] target n = elim (Bool-cases (starts_with target [])) [
  | inl here ↦ rw here (omega arith, tt)
  | inr other ↦ rw other tt
]
places-IsAbove (c ∷ s) target n = elim (Bool-cases (starts_with target (c ∷ s))) [
  | inl here ↦ rw here (omega arith, places-IsAbove s target (suc n))
  | inr other ↦
      rw other (IsAbove-weaken n (places s target (suc n)) (places-IsAbove s target (suc n)))
]

offsets-match_info :
    (chunk target path : Text) (ps : List ℕ)
    → map (λ (m : MatchInfo). m.offset) (map (match_info chunk target path) ps) ≡ ps
unfolding match_info
offsets-match_info chunk target path [] = refl
offsets-match_info chunk target path (p ∷ ps) =
    ap (λ l. p ∷ l) (offsets-match_info chunk target path ps)

abbrev pub offsets : List MatchInfo → List ℕ
offsets = map (λ (m : MatchInfo). m.offset)

-- Each match is of the file at `path`.
abbrev pub HasPath : Text → List MatchInfo → Type 0
HasPath path [] = Unit {0}
HasPath path (m ∷ ms) = (m.filename ≡ path) × HasPath path ms

match_info-HasPath :
    (chunk target path : Text) (ps : List ℕ) → HasPath path (map (match_info chunk target path) ps)
unfolding match_info
match_info-HasPath chunk target path [] = tt
match_info-HasPath chunk target path (p ∷ ps) = (refl, match_info-HasPath chunk target path ps)

-- For a text of less than 2 ^ 31 - 1 bytes the loop of `process_chunk` ends, without an overflow of
-- its position, with a list of matches of the given path whose offsets increase and are exactly the
-- places at which the target occurs in the text.
pub process_chunk-Occurs :
    (chunk target path : Text)
    → length chunk < 2 ^ 31 - 1
    → (ms : List MatchInfo) × (process_chunk chunk target path ≡ some ms)
      × IsAbove 0 (offsets ms)
      × HasPath path ms
      × ((p : ℕ) → In p (offsets ms) ↔ Occurs chunk target p)
process_chunk-Occurs chunk target path small =
    let ps : List ℕ = places chunk target 0 in
    (
      map (match_info chunk target path) ps,
      process_chunk-places chunk target path small,
      rw offsets-match_info (places-IsAbove chunk target 0),
      match_info-HasPath chunk target path ps,
      λ p. rw offsets-match_info (
        λ i.
            let (a, b, e, at) = In-places→OccursFrom chunk target 0 p i in
            (a, b, e, omega (arith, at)),
        λ o.
            let (a, b, e, at) = o in
            subst (λ c. In p (places c target 0)) (sym e)
              (subst (λ k. In k (places (a ++ (target ++ b)) target 0)) (omega (arith, at))
                (OccursFrom→In-places a b target 0)),
      ),
    )
