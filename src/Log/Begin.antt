-- ===== src/Log/Begin.antt =====
-- `begain_op`: who is admitted.
use raynix.Base.{
  ℕ, suc, ◌+◌, ◌%◌, ◌^◌, ◌≡◌, refl, ◌∙◌, ◌≢◌, ◌⊎◌, inl, inr, true, false, some, arith, ◌==◌,
}
use native.Mathlib.Decide.{ℕ_discrete}
use raynix.Spinlock.{cpu_at, push_inter_off, pop_inter_off}
use raynix.Spinlock.Layers.{IsAt}
use raynix.Spinlock.Lock.{acquire-free, release_lem}
use raynix.Proc.{sleeping}
use raynix.Proc.Locks.{pushed-IsAt, push-Keeps}
use raynix.Proc.Sleep.{HasSwitched, sleep-switches}
use raynix.Log.{Logged, admitted, asleep, sleep_on_log, space, begin_round, begain_op}

-- the state with the lock of the log held
abbrev pub opened : ℕ → Logged → Logged
opened id w = record {
  log = record w.log { splk = 0 };
  table = record w.table { hart = push_inter_off id w.table.hart };
}

-- What a process finds that calls `begain_op` with no lock held.
pub record CanBegin (id k : ℕ) (w : Logged) : Type 0 where
  pub level : (d : ℕ) × (sie : ℕ) × IsAt id 0 d sie w.table.hart
  pub own : (cpu_at id w.table.hart).cur_proc ≡ suc k
  pub unlocked : (w.table.procs k).lock ≢ 0
  pub free : w.log.splk ≢ 0

-- The call sleeps on the log: the lock of the log is free and nothing else of the log has changed, and
-- the process has switched away, asleep on the address of the log.
pub record IsWaiting (id addr k : ℕ) (w w' : Logged) : Type 0 where
  pub same : w'.log ≡ record w.log { splk = 1 }
  pub away :
      (sie : ℕ) × HasSwitched id k sie
        (record (w.table.procs k) { state = sleeping; channel = addr })
        (opened id w).table
        w'.table

-- The call is admitted and counted, with the lock of the log free.
pub record IsAdmitted (id : ℕ) (w w' : Logged) : Type 0 where
  pub counted : w'.log ≡ record w.log { splk = 1; on_excuting = (w.log.on_excuting + 1) % 2 ^ 32 }
  pub procs : w'.table.procs ≡ w.table.procs

module _ (id addr maxopblocks k : ℕ) (w : Logged) (c : CanBegin id k w) where
  waiting :
      begin_round id addr maxopblocks (opened id w) ≡ (sleep_on_log id addr (opened id w))
      → (w' : Logged) × (begain_op id addr maxopblocks w ≡ some (asleep true, w'))
        × IsWaiting id addr k w w'
  unfolding begain_op
  waiting e =
      let (d, sie, a) = c.level in
      let (t, ran, switched) =
        sleep-switches id addr k 0 (opened id w).table (pushed-IsAt a (omega arith))
          ((push-Keeps id w.table.hart a.inside).same_proc ∙ c.own) c.unlocked in
      (
        record { log = record w.log { splk = 1 }; table = t },
        rw (acquire-free id w.log.splk w.table.hart c.free, e, ran) refl,
        record { same = refl; away = (sie, switched) },
      )

  -- `begain_op` of a process with no lock held, with the lock of the log and its own free: it is
  -- admitted, with no commit on its way, if the sum of the blocks in the log and the blocks that it
  -- and those before it may write is 0 in 32 bits; otherwise it sleeps on the log.
  pub begain_op-cases :
      ((w.log.is_committing ≡ 0)
        × (space maxopblocks w.log ≡ 0)
        × ((w' : Logged) × (begain_op id addr maxopblocks w ≡ some (admitted, w'))
            × IsAdmitted id w w'))
      ⊎ (((w.log.is_committing ≢ 0) ⊎ (space maxopblocks w.log ≢ 0))
          × ((w' : Logged) × (begain_op id addr maxopblocks w ≡ some (asleep true, w'))
              × IsWaiting id addr k w w'))
  unfolding begin_round begain_op
  begain_op-cases = elim (ℕ_discrete w.log.is_committing 0) [
    | no ne ↦
        let e : (w.log.is_committing == 0) ≡ false = ground arith in
        inr (inl ne, waiting (rw e refl))
    | yes z ↦ elim (ℕ_discrete (space maxopblocks w.log) 0) [
      | no ne ↦
          let e : (space maxopblocks w.log == 0) ≡ false = ground arith in
          inr (inr ne, waiting (rw (z, e) refl))
      | yes s ↦ inl (
        z,
        s,
        (
          record {
            log = record w.log { splk = 1; on_excuting = (w.log.on_excuting + 1) % 2 ^ 32 };
            table = record w.table { hart = pop_inter_off id (push_inter_off id w.table.hart) };
          },
          rw
              (
                acquire-free id w.log.splk w.table.hart c.free,
                z,
                s,
                release_lem id 0 (push_inter_off id w.table.hart),
              )
              refl,
          record { counted = refl; procs = refl },
        ),
      )
    ]
  ]
