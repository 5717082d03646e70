-- ===== src/Sleeplock.antt =====
-- kernel/sleeplock.c with nothing else running: a call that sleeps is not woken, and is `none`.
use raynix.Base.{ℕ, ◌≡◌, ◌≢◌, Option, none, some, ◌>>=◌, ◌==◌, if◌then◌else◌}
use raynix.Spinlock.{SpinLock, Hart, spinlock_init, acquire, release, push_inter_off, pop_inter_off}
use raynix.Spinlock.Lock.{acquire-free, release_lem}

-- `struct sleeplock`
pub record SleepLock : Type 0 where
  pub splk : SpinLock
  pub holding : ℕ

-- The loop sleeps while `!holding`, as it stands; the assignment to `splk -> holding` is read as
-- one to the argument.
unfoldable pub acquire_sleep : ℕ → SleepLock × Hart → Option (SleepLock × Hart)
acquire_sleep id (sllk, h) = do
  (splk1, h1) ← acquire id (sllk.splk, h)
  if sllk.holding == 0 then none else do
    let (splk2, h2) = release id (splk1, h1)
    some (record { splk = splk2; holding = 1 }, h2)

-- `wakeup` works on a copy of each process and changes nothing here.
unfoldable pub release_sleep : ℕ → SleepLock × Hart → Option (SleepLock × Hart)
release_sleep id (sllk, h) = do
  (splk1, h1) ← acquire id (sllk.splk, h)
  let (splk2, h2) = release id (splk1, h1)
  some (record { splk = splk2; holding = 0 }, h2)

abbrev pub sleeplock_init : SleepLock → SleepLock
sleeplock_init sllk = record { splk = spinlock_init sllk.splk; holding = 0 }

-- With its spinlock free, `acquire_sleep` does not return on a sleeping lock that nobody holds,
-- and returns as its holder on one that is held already.
pub acquire_sleep-inverted :
    (id : ℕ) (sllk : SleepLock) (h : Hart)
    → sllk.splk ≢ 0
    → acquire_sleep id (sllk, h) ≡ (
        if sllk.holding == 0
        then none
        else some (record { splk = 1; holding = 1 }, pop_inter_off id (push_inter_off id h)))
unfolding acquire_sleep
acquire_sleep-inverted id sllk h free =
    rw (acquire-free id sllk.splk h free, release_lem id 0 (push_inter_off id h))

pub release_sleep-free :
    (id : ℕ) (sllk : SleepLock) (h : Hart)
    → sllk.splk ≢ 0
    → release_sleep id (sllk, h)
      ≡ some (record { splk = 1; holding = 0 }, pop_inter_off id (push_inter_off id h))
unfolding release_sleep
release_sleep-free id sllk h free =
    rw (acquire-free id sllk.splk h free, release_lem id 0 (push_inter_off id h))
