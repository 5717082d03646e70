-- ===== src/Spinlock/Lock.antt =====
-- `acquire` and `release` with nothing else running on the lock.
use raynix.Base.{ℕ, ◌+◌, ◌^◌, ◌<◌, ◌≡◌, refl, ◌≢◌, none, some, arith, ◌==◌, if◌then◌else◌}
use native.Mathlib.Numerals.{add-one}
use raynix.Spinlock.{SpinLock, Hart, push_inter_off, pop_inter_off, acquire, release}
use raynix.Spinlock.Layers.{IsAt, push-IsAt, pop-IsAt}

pub acquire-free :
    (id : ℕ) (lock : SpinLock) (h : Hart)
    → lock ≢ 0
    → acquire id (lock, h) ≡ some (0, push_inter_off id h)
unfolding acquire
acquire-free id lock h free = ground arith

pub acquire-held : (id : ℕ) (h : Hart) → acquire id (0, h) ≡ none
unfolding acquire
acquire-held id h = refl

pub release_lem :
    (id : ℕ) (lock : SpinLock) (h : Hart) → release id (lock, h) ≡ (1, pop_inter_off id h)
unfolding release
release_lem id lock h = refl

-- On a free lock, with the layers below 2 ^ 32, `acquire` returns with the lock taken and one
-- layer more; a second `acquire` of it does not return; and `release` frees it and takes the
-- layer off.
pub acquire-release :
    (id : ℕ) (lock : SpinLock) {layer disabled sie : ℕ} {h : Hart}
    → lock ≢ 0
    → IsAt id layer disabled sie h
    → layer + 1 < 2 ^ 32
    → let h1 = push_inter_off id h in
      let (freed, h2) = release id (0, h1) in
      (acquire id (lock, h) ≡ some (0, h1))
      × (acquire id (0, h1) ≡ none)
      × (freed ≡ 1)
      × IsAt id layer (if layer == 0 then 1 else 0) sie h2
unfolding release
acquire-release id lock {layer} {disabled} {sie} {h} free a small = (
  acquire-free id lock h free,
  acquire-held id (push_inter_off id h),
  refl,
  ground (arith, pop-IsAt (rw add-one at (push-IsAt a small)) (omega arith)),
)
