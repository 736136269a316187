-- ===== src/Atomic/Routines.antt =====
-- The routines of rgoffi/go/gocruntime/atomic_amd64.s that atomic.c does not call: the other names of a
-- comparison and of a store, and the bitwise operations. Those that return nothing give 0 here.
use challenges.Common.{ℕ, ◌%◌, ◌^◌, ◌<◌, ◌≡◌, refl, bit_and, bit_or}
use challenges.Memory.{Mem, load_bytes, store_bytes}
use challenges.Memory.Laws.{load_bytes-store_bytes, store_bytes-Outside}
use challenges.Atomic.Amd64.{exchange, cas, cas64, store, store64}
use challenges.Atomic.Words.{Elsewhere}
use challenges.Atomic.Register.{compares, stores, register, routine-register}

-- `lock or` and `lock and` on `n` bytes.
unfoldable pub or_bytes : (n : ℕ) → Mem → (ptr val : ℕ) → Mem
unfolding load_bytes store_bytes
or_bytes n m ptr val = store_bytes n m ptr (bit_or (load_bytes n m ptr) val)

unfoldable pub and_bytes : (n : ℕ) → Mem → (ptr val : ℕ) → Mem
unfolding load_bytes store_bytes
and_bytes n m ptr val = store_bytes n m ptr (bit_and (load_bytes n m ptr) val)

abbrev pub casint32 : Mem → (ptr old new : ℕ) → ℕ × Mem
casint32 = cas

abbrev pub casint64 : Mem → (ptr old new : ℕ) → ℕ × Mem
casint64 = cas64

abbrev pub casuintptr : Mem → (ptr old new : ℕ) → ℕ × Mem
casuintptr = cas64

abbrev pub casrel : Mem → (ptr old new : ℕ) → ℕ × Mem
casrel = cas

abbrev pub store_no_wb : Mem → (ptr val : ℕ) → Mem
store_no_wb m ptr val = (exchange 8 m ptr val).1

abbrev pub store8 : Mem → (ptr val : ℕ) → Mem
store8 m ptr val = (exchange 1 m ptr val).1

abbrev pub store_int32 : Mem → (ptr val : ℕ) → Mem
store_int32 = store

abbrev pub store_int64 : Mem → (ptr val : ℕ) → Mem
store_int64 = store64

abbrev pub store_uintptr : Mem → (ptr val : ℕ) → Mem
store_uintptr = store64

abbrev pub store_rel : Mem → (ptr val : ℕ) → Mem
store_rel = store

abbrev pub store_rel_64 : Mem → (ptr val : ℕ) → Mem
store_rel_64 = store64

abbrev pub store_rel_uintptr : Mem → (ptr val : ℕ) → Mem
store_rel_uintptr = store64

abbrev pub or8 : Mem → (ptr val : ℕ) → Mem
or8 = or_bytes 1

abbrev pub and8 : Mem → (ptr val : ℕ) → Mem
and8 = and_bytes 1

abbrev pub or : Mem → (ptr val : ℕ) → Mem
or = or_bytes 4

abbrev pub and : Mem → (ptr val : ℕ) → Mem
and = and_bytes 4

-- Which routine, and its arguments behind the address.
pub data Routine : Type 0 where
  calls_casint32 : (old new : ℕ) → Routine
  calls_casint64 : (old new : ℕ) → Routine
  calls_casuintptr : (old new : ℕ) → Routine
  calls_casrel : (old new : ℕ) → Routine
  calls_store_no_wb : (val : ℕ) → Routine
  calls_store8 : (val : ℕ) → Routine
  calls_store_int32 : (val : ℕ) → Routine
  calls_store_int64 : (val : ℕ) → Routine
  calls_store_uintptr : (val : ℕ) → Routine
  calls_store_rel : (val : ℕ) → Routine
  calls_store_rel_64 : (val : ℕ) → Routine
  calls_store_rel_uintptr : (val : ℕ) → Routine
  calls_or8 : (val : ℕ) → Routine
  calls_and8 : (val : ℕ) → Routine
  calls_or : (val : ℕ) → Routine
  calls_and : (val : ℕ) → Routine

abbrev pub execute : Routine → Mem → (ptr : ℕ) → ℕ × Mem
execute (calls_casint32 old new) m ptr = casint32 m ptr old new
execute (calls_casint64 old new) m ptr = casint64 m ptr old new
execute (calls_casuintptr old new) m ptr = casuintptr m ptr old new
execute (calls_casrel old new) m ptr = casrel m ptr old new
execute (calls_store_no_wb val) m ptr = (0, store_no_wb m ptr val)
execute (calls_store8 val) m ptr = (0, store8 m ptr val)
execute (calls_store_int32 val) m ptr = (0, store_int32 m ptr val)
execute (calls_store_int64 val) m ptr = (0, store_int64 m ptr val)
execute (calls_store_uintptr val) m ptr = (0, store_uintptr m ptr val)
execute (calls_store_rel val) m ptr = (0, store_rel m ptr val)
execute (calls_store_rel_64 val) m ptr = (0, store_rel_64 m ptr val)
execute (calls_store_rel_uintptr val) m ptr = (0, store_rel_uintptr m ptr val)
execute (calls_or8 val) m ptr = (0, or8 m ptr val)
execute (calls_and8 val) m ptr = (0, and8 m ptr val)
execute (calls_or val) m ptr = (0, or m ptr val)
execute (calls_and val) m ptr = (0, and m ptr val)

-- The bytes that it works on.
abbrev pub width : Routine → ℕ
width (calls_casint32 old new) = 4
width (calls_casint64 old new) = 8
width (calls_casuintptr old new) = 8
width (calls_casrel old new) = 4
width (calls_store_no_wb val) = 8
width (calls_store8 val) = 1
width (calls_store_int32 val) = 4
width (calls_store_int64 val) = 8
width (calls_store_uintptr val) = 8
width (calls_store_rel val) = 4
width (calls_store_rel_64 val) = 8
width (calls_store_rel_uintptr val) = 8
width (calls_or8 val) = 1
width (calls_and8 val) = 1
width (calls_or val) = 4
width (calls_and val) = 4

-- What a register of that width that holds `v` gives, and what it holds then.
abbrev pub result : Routine → (v : ℕ) → ℕ × ℕ
result (calls_casint32 old new) v = register 4 (compares old new) v
result (calls_casint64 old new) v = register 8 (compares old new) v
result (calls_casuintptr old new) v = register 8 (compares old new) v
result (calls_casrel old new) v = register 4 (compares old new) v
result (calls_store_no_wb val) v = register 8 (stores val) v
result (calls_store8 val) v = register 1 (stores val) v
result (calls_store_int32 val) v = register 4 (stores val) v
result (calls_store_int64 val) v = register 8 (stores val) v
result (calls_store_uintptr val) v = register 8 (stores val) v
result (calls_store_rel val) v = register 4 (stores val) v
result (calls_store_rel_64 val) v = register 8 (stores val) v
result (calls_store_rel_uintptr val) v = register 8 (stores val) v
result (calls_or8 val) v = (0, bit_or v val % 256 ^ 1)
result (calls_and8 val) v = (0, bit_and v val % 256 ^ 1)
result (calls_or val) v = (0, bit_or v val % 256 ^ 4)
result (calls_and val) v = (0, bit_and v val % 256 ^ 4)

-- The value that is written is a word; the bitwise operations take any.
abbrev pub IsFitting : Routine → Type 0
IsFitting (calls_casint32 old new) = new < 256 ^ 4
IsFitting (calls_casint64 old new) = new < 256 ^ 8
IsFitting (calls_casuintptr old new) = new < 256 ^ 8
IsFitting (calls_casrel old new) = new < 256 ^ 4
IsFitting (calls_store_no_wb val) = val < 256 ^ 8
IsFitting (calls_store8 val) = val < 256 ^ 1
IsFitting (calls_store_int32 val) = val < 256 ^ 4
IsFitting (calls_store_int64 val) = val < 256 ^ 8
IsFitting (calls_store_uintptr val) = val < 256 ^ 8
IsFitting (calls_store_rel val) = val < 256 ^ 4
IsFitting (calls_store_rel_64 val) = val < 256 ^ 8
IsFitting (calls_store_rel_uintptr val) = val < 256 ^ 8
IsFitting (calls_or8 val) = Unit {0}
IsFitting (calls_and8 val) = Unit {0}
IsFitting (calls_or val) = Unit {0}
IsFitting (calls_and val) = Unit {0}

stored_lem :
    (n : ℕ) (m : Mem) (ptr v : ℕ)
    → (◌≡◌ {A = ℕ} 0 0)
      × (load_bytes n (store_bytes n m ptr v) ptr ≡ v % 256 ^ n)
      × Elsewhere n ptr m (store_bytes n m ptr v)
stored_lem n m ptr v = (refl, load_bytes-store_bytes n m ptr v, store_bytes-Outside n m ptr v)

-- The routines of atomic_amd64.s that atomic.c does not call, the other names of a comparison and
-- of a store given a new value of their width, and the bitwise operations, do to the bytes at their
-- address what they do to a register of that width, and no other byte changes.
pub execute-result :
    (r : Routine) (m : Mem) (ptr : ℕ)
    → IsFitting r
    → ((execute r m ptr).0 ≡ (result r (load_bytes (width r) m ptr)).0)
      × (load_bytes (width r) (execute r m ptr).1 ptr ≡ (result r (load_bytes (width r) m ptr)).1)
      × Elsewhere (width r) ptr m (execute r m ptr).1
unfolding or_bytes and_bytes
execute-result (calls_casint32 old new) m ptr word =
    routine-register 4 (compares old new) m ptr word
execute-result (calls_casint64 old new) m ptr word =
    routine-register 8 (compares old new) m ptr word
execute-result (calls_casuintptr old new) m ptr word =
    routine-register 8 (compares old new) m ptr word
execute-result (calls_casrel old new) m ptr word = routine-register 4 (compares old new) m ptr word
execute-result (calls_store_no_wb val) m ptr word = routine-register 8 (stores val) m ptr word
execute-result (calls_store8 val) m ptr word = routine-register 1 (stores val) m ptr word
execute-result (calls_store_int32 val) m ptr word = routine-register 4 (stores val) m ptr word
execute-result (calls_store_int64 val) m ptr word = routine-register 8 (stores val) m ptr word
execute-result (calls_store_uintptr val) m ptr word = routine-register 8 (stores val) m ptr word
execute-result (calls_store_rel val) m ptr word = routine-register 4 (stores val) m ptr word
execute-result (calls_store_rel_64 val) m ptr word = routine-register 8 (stores val) m ptr word
execute-result (calls_store_rel_uintptr val) m ptr word = routine-register 8 (stores val) m ptr word
execute-result (calls_or8 val) m ptr word = stored_lem 1 m ptr (bit_or (load_bytes 1 m ptr) val)
execute-result (calls_and8 val) m ptr word = stored_lem 1 m ptr (bit_and (load_bytes 1 m ptr) val)
execute-result (calls_or val) m ptr word = stored_lem 4 m ptr (bit_or (load_bytes 4 m ptr) val)
execute-result (calls_and val) m ptr word = stored_lem 4 m ptr (bit_and (load_bytes 4 m ptr) val)
