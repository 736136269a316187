-- ===== src/LockRankOff.antt =====
-- rgoffi/go/gocruntime/lockrank_off.c: locks without a check of their ranks, over the state `W` of the
-- Go runtime. A mutex is its address.
use challenges.Common.{ℕ}
use challenges.LockRank.{LockRank}

-- The two functions of the Go runtime that are called.
pub record Locks (W : Type 0) : Type 0 where
  pub runtime_lock2 : W → ℕ → W
  pub runtime_unlock2 : W → ℕ → W

abbrev pub get_lock_rank : ℕ → ℕ
get_lock_rank l = 0

module _ {W : Type 0} (go : Locks W) where
  abbrev pub lock_init : (l : ℕ) → (rank : LockRank) → W → W
  lock_init l rank w = w

  abbrev pub lock_with_rank : (l : ℕ) → (rank : LockRank) → W → W
  lock_with_rank l rank w = go.runtime_lock2 w l

  abbrev pub acquire_lock_rank : (rank : LockRank) → W → W
  acquire_lock_rank rank w = w

  abbrev pub unlock_with_rank : (l : ℕ) → W → W
  unlock_with_rank l w = go.runtime_unlock2 w l

  abbrev pub release_lock_rank : (rank : LockRank) → W → W
  release_lock_rank rank w = w

  abbrev pub lock_with_rank_may_acquire : (l : ℕ) → (rank : LockRank) → W → W
  lock_with_rank_may_acquire l rank w = w

  abbrev pub assert_lock_held : (l : ℕ) → W → W
  assert_lock_held l w = w

  abbrev pub assert_rank_held : (rank : LockRank) → W → W
  assert_rank_held rank w = w

  abbrev pub world_stopped : W → W
  world_stopped w = w

  abbrev pub world_started : W → W
  world_started w = w

  abbrev pub assert_world_stopped : W → W
  assert_world_stopped w = w

  abbrev pub assert_world_stopped_or_lock_held : (l : ℕ) → W → W
  assert_world_stopped_or_lock_held l w = w
