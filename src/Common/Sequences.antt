-- ===== src/Common/Sequences.antt =====
-- The length of a list, and lists of numbers in which each stands once.
use Prim.Native.Nat.{ℕ, suc, ◌+◌}
use mathlib.Core.Path.{◌≡◌, refl, sym, ◌∙◌, ap, subst}
use mathlib.Core.Logic.{◌≢◌, ◌⊎◌, inl, inr}
use mathlib.Core.List.{List, [], ◌∷◌, ◌++◌}
use native.Mathlib.Omega.{arith}
use native.Mathlib.Decide.{ℕ_discrete}
use challenges.Common.Tests.{◌==◌, ==_refl, ==-ne, if◌then◌else◌}

unfoldable pub length {ℓ} : {A : Type ℓ} → List A → ℕ
length [] = 0
length (c ∷ s) = suc (length s)

pub length-append {ℓ} : {A : Type ℓ} (s t : List A) → length (s ++ t) ≡ length s + length t
unfolding length
length-append [] t = omega arith
length-append (c ∷ s) t = omega (arith, length-append s t)

abbrev pub Among : ℕ → List ℕ → Type 0
Among p [] = ⊥
Among p (x ∷ xs) = (p ≡ x) ⊎ Among p xs

abbrev pub IsDistinct : List ℕ → Type 0
IsDistinct [] = Unit {0}
IsDistinct (x ∷ xs) = (¬ Among x xs) × IsDistinct xs

unfoldable pub remove : ℕ → List ℕ → List ℕ
remove p [] = []
remove p (x ∷ xs) = if x == p then xs else x ∷ remove p xs

pub remove_here : (p x : ℕ) (xs : List ℕ) → x ≡ p → remove p (x ∷ xs) ≡ xs
unfolding remove
remove_here p x xs same = rw (same, ==_refl p) refl

pub remove_there : (p x : ℕ) (xs : List ℕ) → x ≢ p → remove p (x ∷ xs) ≡ x ∷ remove p xs
unfolding remove
remove_there p x xs other = rw (==-ne x p other) refl

pub remove-le : (p q : ℕ) (ps : List ℕ) → Among q (remove p ps) → Among q ps
unfolding remove
remove-le p q [] a = absurd a
remove-le p q (x ∷ xs) a = elim (ℕ_discrete x p) [
  | yes same ↦ inr (subst (Among q) (remove_here p x xs same) a)
  | no other ↦ elim (subst (Among q) (remove_there p x xs other) a) [
    | inl here ↦ inl here
    | inr later ↦ inr (remove-le p q xs later)
  ]
]

pub remove-IsDistinct : (p : ℕ) (ps : List ℕ) → IsDistinct ps → IsDistinct (remove p ps)
unfolding remove
remove-IsDistinct p [] d = tt
remove-IsDistinct p (x ∷ xs) d = elim (ℕ_discrete x p) [
  | yes same ↦ subst IsDistinct (sym (remove_here p x xs same)) d.1
  | no other ↦
      subst IsDistinct (sym (remove_there p x xs other))
        (λ a. d.0 (remove-le p x xs a), remove-IsDistinct p xs d.1)
]

pub remove-ne : (p q : ℕ) (ps : List ℕ) → IsDistinct ps → Among q (remove p ps) → q ≢ p
unfolding remove
remove-ne p q [] d a = absurd a
remove-ne p q (x ∷ xs) d a = elim (ℕ_discrete x p) [
  | yes same ↦ λ z.
      d.0 (subst (λ t. Among t xs) (z ∙ sym same) (subst (Among q) (remove_here p x xs same) a))
  | no other ↦ elim (subst (Among q) (remove_there p x xs other) a) [
    | inl here ↦ λ z. other (sym here ∙ z)
    | inr later ↦ remove-ne p q xs d.1 later
  ]
]

pub remove-kept : (p q : ℕ) (ps : List ℕ) → q ≢ p → Among q ps → Among q (remove p ps)
remove-kept p q [] ne a = absurd a
remove-kept p q (x ∷ xs) ne a = elim (ℕ_discrete x p) [
  | yes same ↦ elim a [
    | inl here ↦ absurd (ne (here ∙ same))
    | inr later ↦ subst (Among q) (sym (remove_here p x xs same)) later
  ]
  | no other ↦
      subst (Among q) (sym (remove_there p x xs other))
        (elim a [ inl here ↦ inl here | inr later ↦ inr (remove-kept p q xs ne later) ])
]

pub length-remove : (p : ℕ) (ps : List ℕ) → Among p ps → length ps ≡ suc (length (remove p ps))
unfolding length
length-remove p [] a = absurd a
length-remove p (x ∷ xs) a = elim (ℕ_discrete x p) [
  | yes same ↦ ap (λ t. suc (length t)) (sym (remove_here p x xs same))
  | no other ↦ elim a [
    | inl here ↦ absurd (other (sym here))
    | inr later ↦ ap suc (length-remove p xs later ∙ ap length (sym (remove_there p x xs other)))
  ]
]
