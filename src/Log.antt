-- ===== src/Log.antt =====
-- kernel/log.c: the log as one hart works on it. `MAXOPBLOCKS`, which the repository does not define,
-- is the argument `maxopblocks`, and `addr` is the address of `log`. A call is cut where it sleeps; a
-- call that does not go on is `none`.
pub mod Begin
pub mod Never
use raynix.Base.{ℕ, ◌+◌, ◌*◌, ◌%◌, ◌^◌, Bool, not, Option, some, ◌>>=◌, ◌==◌, if◌then◌else◌}
use raynix.Memory.{Addr}
use raynix.Spinlock.{SpinLock, acquire, release}
use raynix.Proc.{Table, sleep, sleep_back}

pub record LogHead : Type 0 where
  pub block_size : ℕ
  pub block : ℕ → ℕ

pub record Log : Type 0 where
  pub splk : SpinLock
  pub head : LogHead
  pub is_committing : ℕ
  pub on_excuting : ℕ

-- The log and the process table, whose hart runs.
pub record Logged : Type 0 where
  pub log : Log
  pub table : Table

-- How a run of `begain_op` ends: with the call admitted, or in `sleep`; and then whether that has
-- switched.
pub data Begun : Type 0 where
  admitted : Begun
  asleep : (gone : Bool) → Begun

-- `sleep(&log, &log.splk)`
abbrev pub sleep_on_log : ℕ → Addr → Logged → Option (Begun × Logged)
sleep_on_log id addr w = do
  (gone, lock, t) ← sleep id addr w.log.splk w.table
  some (asleep gone, record { log = record w.log { splk = lock }; table = t })

-- `log.head.block_size + (log.on_excuting + 1) * MAXOPBLOCKS`, in 32 bits
abbrev pub space : ℕ → Log → ℕ
space maxopblocks log =
    (log.head.block_size + (log.on_excuting + 1) % 2 ^ 32 * maxopblocks) % 2 ^ 32

-- `log.on_excuting += 1; release(&log.splk);`
abbrev pub admit : ℕ → Logged → Logged
admit id w =
    let (lock, hart) = release id (w.log.splk, w.table.hart) in
    record {
      log = record w.log { on_excuting = (w.log.on_excuting + 1) % 2 ^ 32; splk = lock };
      table = record w.table { hart = hart };
    }

-- one round of `while(flag)`, with the lock held
unfoldable pub begin_round : ℕ → Addr → ℕ → Logged → Option (Begun × Logged)
begin_round id addr maxopblocks w =
    if not (w.log.is_committing == 0)
    then sleep_on_log id addr w
    else if not (space maxopblocks w.log == 0)
    then sleep_on_log id addr w
    else some (admitted, admit id w)

unfoldable pub begain_op : ℕ → Addr → ℕ → Logged → Option (Begun × Logged)
begain_op id addr maxopblocks w = do
  (lock, hart) ← acquire id (w.log.splk, w.table.hart)
  begin_round id addr maxopblocks
      (record { log = record w.log { splk = lock }; table = record w.table { hart = hart } })

-- The rest of a `begain_op` that slept, as process `k`.
unfoldable pub begain_op_back : ℕ → Addr → ℕ → ℕ → Logged → Option (Begun × Logged)
begain_op_back id addr maxopblocks k w = do
  (lock, t) ← sleep_back id k w.log.splk w.table
  begin_round id addr maxopblocks (record { log = record w.log { splk = lock }; table = t })
