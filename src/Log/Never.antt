-- ===== src/Log/Never.antt =====
-- `begain_op` under every order of calls and of other work on the machine.
use raynix.Base.{
  ℕ, ◌+◌, ◌^◌, ◌≤◌, ◌<◌, ◌≡◌, refl, subst, ◌∙◌, ◌≢◌, true, false, Option, none, some, inl, inr,
  arith, ◌==◌, Option-cases,
}
use native.Mathlib.Decide.{ℕ_discrete}
use raynix.Spinlock.{SpinLock, acquire}
use raynix.Proc.{Table, sleep, sleep_back}
use raynix.Log.{
  LogHead, Log, Logged, Begun, admitted, asleep, sleep_on_log, space, begin_round, begain_op,
  begain_op_back,
}

-- The members that decide are the same.
abbrev Same : Log → Log → Type 0
Same l l' = (l'.head.block_size ≡ l.head.block_size) × (l'.on_excuting ≡ l.on_excuting)

-- A call that does not go on, or sleeps with those members as they were.
abbrev Sleeps : Log → Option (Begun × Logged) → Type 0
Sleeps l none = Unit
Sleeps l (some (admitted, w)) = ⊥
Sleeps l (some (asleep gone, w)) = Same l w.log

sleep_on_log-Sleeps : (id addr : ℕ) (w : Logged) → Sleeps w.log (sleep_on_log id addr w)
sleep_on_log-Sleeps id addr w = elim (Option-cases (sleep id addr w.log.splk w.table)) [
  | inl e ↦ rw e tt
  | inr (r, e) ↦ rw e (refl, refl)
]

-- The states that are reached from one by calls of `begain_op`, by sleepers that go on, and by other
-- work. That may set the process table, the lock, `is_committing` and the head of the log as it
-- likes, with at most `LOGSIZE` blocks; `on_excuting` is set by `begain_op` alone.
pub data Reach (addr maxopblocks logsize : ℕ) (w : Logged) : Logged → Type 0 where
  here : Reach addr maxopblocks logsize w w
  call :
      {w1 w2 : Logged} (id : ℕ) (r : Begun)
      → Reach addr maxopblocks logsize w w1
      → begain_op id addr maxopblocks w1 ≡ some (r, w2)
      → Reach addr maxopblocks logsize w w2
  back :
      {w1 w2 : Logged} (id k : ℕ) (r : Begun)
      → Reach addr maxopblocks logsize w w1
      → begain_op_back id addr maxopblocks k w1 ≡ some (r, w2)
      → Reach addr maxopblocks logsize w w2
  elsewhere :
      {w1 : Logged} (committing : ℕ) (head : LogHead) (lock : SpinLock) (t : Table)
      → Reach addr maxopblocks logsize w w1
      → head.block_size ≤ logsize
      → Reach addr maxopblocks logsize w (record {
        log = record {
          splk = lock;
          head = head;
          is_committing = committing;
          on_excuting = w1.log.on_excuting;
        };
        table = t;
      })

-- No call has been admitted, and the log holds no more blocks than fit.
abbrev pub Idle : ℕ → Log → Type 0
Idle logsize l = (l.on_excuting ≡ 0) × (l.head.block_size ≤ logsize)

module _ (addr maxopblocks : ℕ) where
  begin_round-Sleeps :
      (id : ℕ) (w : Logged)
      → space maxopblocks w.log ≢ 0
      → Sleeps w.log (begin_round id addr maxopblocks w)
  unfolding begin_round
  begin_round-Sleeps id w ne =
      let e : (space maxopblocks w.log == 0) ≡ false = ground arith in
      elim (ℕ_discrete w.log.is_committing 0) [
        | no busy ↦
            let f : (w.log.is_committing == 0) ≡ false = ground arith in
            rw f (sleep_on_log-Sleeps id addr w)
        | yes z ↦
            let f : (w.log.is_committing == 0) ≡ true = ground arith in
            rw (f, e) (sleep_on_log-Sleeps id addr w)
      ]

  begain_op-Sleeps :
      (id : ℕ) (w : Logged)
      → space maxopblocks w.log ≢ 0
      → Sleeps w.log (begain_op id addr maxopblocks w)
  unfolding begain_op
  begain_op-Sleeps id w ne = elim (Option-cases (acquire id (w.log.splk, w.table.hart))) [
    | inl e ↦ rw e tt
    | inr (r, e) ↦ rw e (
        begin_round-Sleeps id
          (record { log = record w.log { splk = r.0 }; table = record w.table { hart = r.1 } }) ne)
  ]

  begain_op_back-Sleeps :
      (id k : ℕ) (w : Logged)
      → space maxopblocks w.log ≢ 0
      → Sleeps w.log (begain_op_back id addr maxopblocks k w)
  unfolding begain_op_back
  begain_op_back-Sleeps id k w ne = elim (Option-cases (sleep_back id k w.log.splk w.table)) [
    | inl e ↦ rw e tt
    | inr (r, e) ↦
        rw e (begin_round-Sleeps id (record { log = record w.log { splk = r.0 }; table = r.1 }) ne)
  ]

  Sleeps-Same : (l : Log) (r : Begun) (w : Logged) → Sleeps l (some (r, w)) → Same l w.log
  Sleeps-Same l admitted w h = absurd h
  Sleeps-Same l (asleep gone) w h = h

  module _ (logsize : ℕ) (some_blocks : 0 < maxopblocks)
      (fits : logsize + maxopblocks < 2 ^ 32) where
    Idle-Same : (l l' : Log) → Same l l' → Idle logsize l → Idle logsize l'
    Idle-Same l l' (a, b) (none_yet, held) = (b ∙ none_yet, rw a held)

    full : (l : Log) → Idle logsize l → space maxopblocks l ≢ 0
    full l (none_yet, held) = rw none_yet (λ z. omega arith)

    call-Idle :
        (id : ℕ) (w1 : Logged) (r : Begun) {w2 : Logged}
        → Idle logsize w1.log
        → begain_op id addr maxopblocks w1 ≡ some (r, w2)
        → Idle logsize w2.log
    call-Idle id w1 r {w2} v ran =
        Idle-Same w1.log w2.log
          (Sleeps-Same w1.log r w2
            (subst (Sleeps w1.log) ran (begain_op-Sleeps id w1 (full w1.log v))))
          v

    back-Idle :
        (id k : ℕ) (w1 : Logged) (r : Begun) {w2 : Logged}
        → Idle logsize w1.log
        → begain_op_back id addr maxopblocks k w1 ≡ some (r, w2)
        → Idle logsize w2.log
    back-Idle id k w1 r {w2} v ran =
        Idle-Same w1.log w2.log
          (Sleeps-Same w1.log r w2
            (subst (Sleeps w1.log) ran (begain_op_back-Sleeps id k w1 (full w1.log v))))
          v

    Reach-Idle :
        {w w' : Logged}
        → Idle logsize w.log
        → Reach addr maxopblocks logsize w w'
        → Idle logsize w'.log
    Reach-Idle v here = v
    Reach-Idle v (call {w1} id r before ran) = call-Idle id w1 r (Reach-Idle v before) ran
    Reach-Idle v (back {w1} id k r before ran) = back-Idle id k w1 r (Reach-Idle v before) ran
    Reach-Idle v (elsewhere committing head lock t before held) = ((Reach-Idle v before).0, held)

-- Let a call write some blocks at most (`MAXOPBLOCKS` is not 0), and let those and the size of the log
-- stay below 2 ^ 32. From a log as it starts, with no call admitted and no more blocks than fit, no
-- call is ever admitted: in every state that calls, sleepers that go on and other work lead to,
-- neither a call of `begain_op` nor one that goes on from its sleep ends with the call admitted.
-- Other work may set all but `on_excuting`, which no other function of kernel/log.c sets.
pub begain_op-never :
    (id k addr maxopblocks logsize : ℕ) (w w1 w2 : Logged)
    → 0 < maxopblocks
    → logsize + maxopblocks < 2 ^ 32
    → w.log.on_excuting ≡ 0
    → w.log.head.block_size ≤ logsize
    → Reach addr maxopblocks logsize w w1
    → (begain_op id addr maxopblocks w1 ≢ some (admitted, w2))
      × (begain_op_back id addr maxopblocks k w1 ≢ some (admitted, w2))
begain_op-never id k addr maxopblocks logsize w w1 w2 some_blocks fits none_yet held reach =
    let v = Reach-Idle addr maxopblocks logsize some_blocks fits (none_yet, held) reach in
    let ne = full addr maxopblocks logsize some_blocks fits w1.log v in
    (
      (λ ran. subst (Sleeps w1.log) ran (begain_op-Sleeps addr maxopblocks id w1 ne)),
      (λ ran. subst (Sleeps w1.log) ran (begain_op_back-Sleeps addr maxopblocks id k w1 ne)),
    )
