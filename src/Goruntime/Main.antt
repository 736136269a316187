-- ===== src/Goruntime/Main.antt =====
-- `main` of rgoffi/go/gocruntime/goruntime.c.
use challenges.Common.{ℕ, ◌+◌, ◌^◌, ◌≤◌, ◌<◌, ◌≡◌, ◌⊎◌, inl, inr, ap, ◌∙◌, arith}
use challenges.Memory.{Mem, load_bytes, store_bytes, load_pointer, store_pointer}
use challenges.Memory.Laws.{load_bytes-store_bytes, load_bytes-apart, load_pointer-store_pointer}
use challenges.Atomic.Amd64.{exchange}
use challenges.Goruntime.{Allocate, main}

-- `n` bytes at `p` and `k` bytes at `q` have none in common.
abbrev pub IsApart : (p n q k : ℕ) → Type 0
IsApart p n q k = (p + n ≤ q) ⊎ (q + k ≤ p)

-- Where the two variables of `main` and the word it has allocated lie apart, and the word and `val`
-- at addresses below 2 ^ 64, `main` shows 202 twice, since `ptr` then points to `val`, and is given
-- back the pointer to the word, which still holds 80.
pub main-Swapped :
    (allocate : Allocate) (m : Mem) (ptr val : ℕ)
    → IsApart ptr 8 val 4
    → IsApart (allocate m 4).0 4 ptr 8
    → IsApart (allocate m 4).0 4 val 4
    → (allocate m 4).0 < 2 ^ 64
    → val < 2 ^ 64
    → ((main allocate m ptr val).shown_ptr ≡ 202)
      × ((main allocate m ptr val).shown_val ≡ 202)
      × ((main allocate m ptr val).temp ≡ (allocate m 4).0)
      × (load_bytes 4 (main allocate m ptr val).mem (allocate m 4).0 ≡ 80)
unfolding main exchange load_pointer store_pointer
main-Swapped allocate m ptr val variables word_ptr word_val small_p small_val =
    let p : ℕ = (allocate m 4).0 in
    let m2 : Mem = store_pointer (allocate m 4).1 ptr p in
    let m3 : Mem = store_bytes 4 m2 (load_pointer m2 ptr) 80 in
    let m4 : Mem = store_bytes 4 m3 val 0xca in
    let first : load_pointer m2 ptr ≡ p =
      load_pointer-store_pointer (allocate m 4).1 ptr p small_p in
    let at : load_pointer m3 ptr ≡ p =
      ap (λ a. load_pointer (store_bytes 4 m2 a 80) ptr) first
      ∙ load_bytes-apart 8 4 m2 ptr p 80 (turned word_ptr)
      ∙ first in
    let moved : load_pointer (store_pointer m4 ptr val) ptr ≡ val =
      load_pointer-store_pointer m4 ptr val small_val in
    let shown : load_bytes 4 (store_pointer m4 ptr val) val ≡ 202 =
      load_bytes-apart 4 8 m4 val ptr val (turned variables)
      ∙ load_bytes-store_bytes 4 m3 val 0xca
      ∙ omega arith in
    (
      ap (load_bytes 4 (store_pointer m4 ptr val)) moved ∙ shown,
      shown,
      load_bytes-apart 8 4 m3 ptr val 0xca variables ∙ at,
      load_bytes-apart 4 8 m4 p ptr val word_ptr
          ∙ load_bytes-apart 4 4 m3 p val 0xca word_val
          ∙ ap (λ a. load_bytes 4 (store_bytes 4 m2 a 80) p) first
          ∙ load_bytes-store_bytes 4 m2 p 80
          ∙ omega arith,
    )
  where
    turned : {A B : Type 0} → A ⊎ B → B ⊎ A
    turned (inl before) = inr before
    turned (inr behind) = inl behind
