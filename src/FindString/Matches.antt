-- ===== src/FindString/Matches.antt =====
-- The matches that `process_chunk` of eset/find_string_in_files/src/main.cpp finds.
use challenges.Common.{
  length, ℕ, zero, suc, ◌+◌, ◌-◌, ◌%◌, ◌^◌, ◌≤◌, ◌<◌, ◌≡◌, inl, inr, refl, ap, ◌∙◌, true, false,
  some, List, [], ◌∷◌, map, ltb, ◌==◌, if◌then◌else◌, Bool-cases, arith, dec_lt, lt→ltb, le→not_ltb,
  ==-ne,
}
use challenges.Memory.Words.{sign_extend}
use challenges.FindString.Strings.{Text, npos, drop, starts_with, search, find}
use challenges.FindString.{to_i32, match_info, match_loop, process_chunk}

-- Every place of the text at which `target` begins, in order, where the text begins at `pos`.
unfoldable pub places : (s target : Text) (pos : ℕ) → List ℕ
places [] target pos = if starts_with target [] then pos ∷ [] else []
places (c ∷ s) target pos =
    let rest = places s target (suc pos) in if starts_with target (c ∷ s) then pos ∷ rest else rest

-- Those from `n` on.
unfoldable places_from : (s target : Text) (n : ℕ) → List ℕ
unfolding places
places_from s target n = if ltb (length s) n then [] else places (drop n s) target n

-- The search finds the first of them, which leaves the later ones.
data First (s target : Text) (pos : ℕ) : Type 0 where
  absent : search s target pos ≡ npos → places s target pos ≡ [] → First s target pos
  found :
      (k : ℕ)
      → k ≤ length s
      → search s target pos ≡ pos + k
      → places s target pos
        ≡ (pos + k)
          ∷ (if ltb (length s) (suc k) then [] else places (drop (suc k) s) target (pos + suc k))
      → First s target pos

search-First : (s target : Text) (pos : ℕ) → First s target pos
unfolding search places length drop
search-First [] target pos = elim (Bool-cases (starts_with target [])) [
  | inl here ↦
      found 0 (omega arith) (rw here (omega arith)) (rw here (ap (λ p. p ∷ []) (omega arith)))
  | inr no_more ↦ absent (rw no_more refl) (rw no_more refl)
]
search-First (c ∷ s) target pos = elim (Bool-cases (starts_with target (c ∷ s))) [
  | inl here ↦ found 0 (omega arith) (rw here (omega arith)) (
      let more : ltb (suc (length s)) 1 ≡ false = ground arith in
      let start : pos + 0 ≡ pos = omega arith in
      let next : pos + 1 ≡ suc pos = omega arith in rw (here, more, start, next) refl)
  | inr later ↦ elim (search-First s target (suc pos)) [
    | absent e none_left ↦ absent (rw later e) (rw later none_left)
    | found k low e places_e ↦ found (suc k) (omega arith) (rw later (e ∙ omega arith)) (
        let same : ltb (suc (length s)) (suc (suc k)) ≡ ltb (length s) (suc k) = ground arith in
        let here : pos + suc k ≡ suc pos + k = omega arith in
        let next : pos + suc (suc k) ≡ suc pos + suc k = omega arith in
        rw (later, same, here, next) places_e)
  ]
]

length-drop : (n : ℕ) (s : Text) → length (drop n s) ≡ length s - n
unfolding length drop
length-drop zero s = omega arith
length-drop (suc n) [] = omega arith
length-drop (suc n) (c ∷ s) = omega (arith, length-drop n s)

drop-nil : (n : ℕ) → drop n [] ≡ []
unfolding drop
drop-nil zero = refl
drop-nil (suc n) = refl

drop-drop : (m n : ℕ) (s : Text) → drop m (drop n s) ≡ drop (n + m) s
unfolding drop
drop-drop m zero s = ap (λ k. drop k s) (omega arith)
drop-drop m (suc n) [] = rw (drop-nil m, drop-nil (suc n + m)) refl
drop-drop m (suc n) (c ∷ s) =
    let e : suc n + m ≡ suc (n + m) = omega arith in rw e (drop-drop m n s)

-- `find` from a place of the text on.
data Next (s target : Text) (n : ℕ) : Type 0 where
  ended : find s target n ≡ npos → places_from s target n ≡ [] → Next s target n
  at :
      (p : ℕ)
      → n ≤ p
      → p ≤ length s
      → find s target n ≡ p
      → places_from s target n ≡ p ∷ places_from s target (suc p)
      → Next s target n

find-Next : (s target : Text) (n : ℕ) → Next s target n
unfolding find places_from
find-Next s target n = elim (dec_lt (length s) n) [
  | yes past ↦
      let test : ltb (length s) n ≡ true = lt→ltb (length s) n past in
      ended (rw test refl) (rw test refl)
  | no within ↦
      let test : ltb (length s) n ≡ false = le→not_ltb (length s) n (omega (arith, within)) in
      elim (search-First (drop n s) target n) [
        | absent e none_left ↦ ended (rw test e) (rw test none_left)
        | found k low e places_e ↦
            let size : length (drop n s) ≡ length s - n = length-drop n s in
            let same : ltb (length (drop n s)) (suc k) ≡ ltb (length s) (suc (n + k)) =
              ground (arith, size, within) in
            let next : n + suc k ≡ suc (n + k) = omega arith in
            let rest : drop (suc k) (drop n s) ≡ drop (suc (n + k)) s =
              drop-drop (suc k) n s ∙ ap (λ m. drop m s) next in
            at (n + k) (omega arith) (omega (arith, low, size, within)) (rw test e)
              (rw test (places_e ∙ ap (λ l. (n + k) ∷ l) (rw (same, next, rest) refl)))
      ]
]

sign_extend-small : (p : ℕ) → p < 2 ^ 31 → sign_extend p ≡ p
unfolding sign_extend
sign_extend-small p h = ground arith

module _ (chunk target path : Text) (small : length chunk < 2 ^ 31 - 1) where
  match_loop-places :
      (fuel n : ℕ)
      → n ≤ length chunk + 1
      → length chunk + 2 ≤ fuel + n
      → match_loop fuel chunk target path (to_i32 (find chunk target n))
        ≡ some (map (match_info chunk target path) (places_from chunk target n))
  unfolding match_loop
  match_loop-places zero n within enough = absurd (omega (arith, within, enough))
  match_loop-places (suc fuel) n within enough = elim (find-Next chunk target n) [
    | ended e none_left ↦ rw (e, none_left) refl
    | at p low high e rest ↦
        let narrow : to_i32 p ≡ p = omega (arith, high, small) in
        let more : (p == npos) ≡ false =
          ==-ne p npos (λ z. absurd (omega (arith, z, high, small))) in
        let not_last : (p == 2 ^ 31 - 1) ≡ false =
          ==-ne p (2 ^ 31 - 1) (λ z. absurd (omega (arith, z, high, small))) in
        let next : (p + 1) % 2 ^ 32 ≡ suc p = omega (arith, high, small) in
        rw
          (
            e,
            rest,
            narrow,
            sign_extend-small p (omega (arith, high, small)),
            more,
            not_last,
            next,
            sign_extend-small (suc p) (omega (arith, high, small)),
            match_loop-places fuel (suc p) (omega (arith, high)) (omega (arith, low, enough)),
          )
          refl
  ]

  pub process_chunk-places :
      process_chunk chunk target path
      ≡ some (map (match_info chunk target path) (places chunk target 0))
  unfolding process_chunk places_from drop
  process_chunk-places =
      match_loop-places (length chunk + 2) 0 (omega arith) (omega arith)
      ∙ rw (le→not_ltb (length chunk) 0 (omega arith)) refl
