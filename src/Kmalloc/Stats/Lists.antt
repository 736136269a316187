-- ===== src/Kmalloc/Stats/Lists.antt =====
-- `mstats` of kmalloc/original/kmalloc.c on a well-formed heap.
use challenges.Common.{ℕ, zero, suc, ◌+◌, ◌*◌, ◌^◌, Option, some, List, [], ◌∷◌}

-- The lengths of `count` lists from that of bucket `i` on, and the bytes of their blocks.
abbrev pub lengths_from : (len : ℕ → ℕ) → (count i : ℕ) → List ℕ
lengths_from len zero i = []
lengths_from len (suc count) i = len i ∷ lengths_from len count (i + 1)

abbrev pub bytes_from : (len : ℕ → ℕ) → (count i : ℕ) → ℕ
bytes_from len zero i = 0
bytes_from len (suc count) i = len i * 2 ^ (i + 3) + bytes_from len count (i + 1)

-- A line of output is put before the others.
abbrev shown_first : ℕ → List ℕ × ℕ → Option (List ℕ × ℕ)
shown_first j (printed, total) = some (j ∷ printed, total)
