-- ===== src/Proc.antt =====
-- kernel/proc.h and kernel/proc.c: the process table as one hart works on it. A pointer to a process
-- is its index in `procs` plus one, and 0 is `NULL`. A call that does not go on, at a lock that is
-- taken or at `NULL`, is `none`; `init_proc_kstack` stands in Vm.antt.
pub mod Locks
pub mod Scan
pub mod Wakeup
pub mod Sleep
pub mod Kept
pub mod Away
pub mod Forever
use raynix.Base.{
  ℕ, zero, suc, ◌+◌, ◌-◌, ◌≡◌, Bool, true, false, ◌&&◌, Option, none, some, ◌>>=◌, ◌==◌,
  if◌then◌else◌, put,
}
use raynix.Riscv.{read_tp}
use raynix.Spinlock.{
  Context, Cpu, Hart, SpinLock, cpu_at, push_inter_off, pop_inter_off, acquire, release,
}

-- `struct trapframe`
pub record Trapframe : Type 0 where
  pub kernel_satp : ℕ
  pub kernel_sp : ℕ
  pub kernel_trap : ℕ
  pub epc : ℕ
  pub kernel_hartid : ℕ
  pub ra : ℕ
  pub sp : ℕ
  pub gp : ℕ
  pub tp : ℕ
  pub t0 : ℕ
  pub t1 : ℕ
  pub t2 : ℕ
  pub s0 : ℕ
  pub s1 : ℕ
  pub a0 : ℕ
  pub a1 : ℕ
  pub a2 : ℕ
  pub a3 : ℕ
  pub a4 : ℕ
  pub a5 : ℕ
  pub a6 : ℕ
  pub a7 : ℕ
  pub s2 : ℕ
  pub s3 : ℕ
  pub s4 : ℕ
  pub s5 : ℕ
  pub s6 : ℕ
  pub s7 : ℕ
  pub s8 : ℕ
  pub s9 : ℕ
  pub s10 : ℕ
  pub s11 : ℕ
  pub t3 : ℕ
  pub t4 : ℕ
  pub t5 : ℕ
  pub t6 : ℕ

-- `enum procstate`
pub data ProcState : Type 0 where
  unused used sleeping runnable running zombie : ProcState

abbrev pub is_runnable : ProcState → Bool
is_runnable runnable = true
is_runnable _ = false

abbrev pub is_sleeping : ProcState → Bool
is_sleeping sleeping = true
is_sleeping _ = false

-- `struct proc`
pub record Proc : Type 0 where
  pub tf : ℕ
  pub context : Context
  pub lock : SpinLock
  pub state : ProcState
  pub pagetable : ℕ
  pub channel : ℕ

-- The table, the hart, and the registers of the hart that `swtch` saves and loads.
pub record Table : Type 0 where
  pub procs : ℕ → Proc
  pub hart : Hart
  pub regs : Context

-- `acquire(&procs[i].lock)` and `release(&procs[i].lock)`
abbrev pub lock_proc : ℕ → ℕ → Table → Option Table
lock_proc id i s = do
  (lock, hart) ← acquire id ((s.procs i).lock, s.hart)
  some (record s { procs = put s.procs i (record (s.procs i) { lock = lock }); hart = hart })

abbrev pub unlock_proc : ℕ → ℕ → Table → Table
unlock_proc id i s =
    let (lock, hart) = release id ((s.procs i).lock, s.hart) in
    record s { procs = put s.procs i (record (s.procs i) { lock = lock }); hart = hart }

-- The pointer in this hart's entry of `cpus`.
unfoldable pub cur_proc : ℕ → Hart → ℕ × Hart
cur_proc id h =
    let h1 = push_inter_off id h in
    let (i, regs) = read_tp id h1.regs in
    let h2 = record h1 { regs = regs } in ((cpu_at i h2).cur_proc, pop_inter_off id h2)

-- The process that a pointer leads to.
abbrev pub deref : ℕ → Option ℕ
deref zero = none
deref (suc i) = some i

-- The scheduler's own copy of its entry of `cpus`, beside the table.
pub record Sched : Type 0 where
  pub c : Cpu
  pub table : Table

-- `swtch(& c.context, & cusor -> context)`
abbrev pub swtch_to : ℕ → Sched → Sched
swtch_to i x = record {
  c = record x.c { context = x.table.regs };
  table = record x.table { regs = (x.table.procs i).context };
}

-- the branch for a runnable process, up to `swtch`
abbrev pub dispatch : ℕ → Sched → Sched
dispatch i x =
    let s = x.table in
    let s1 = record s { procs = put s.procs i (record (s.procs i) { state = running }) } in
    swtch_to i (record { c = record x.c { cur_proc = i + 1 }; table = s1 })

-- One round of the inner loop of `scheduler`, up to `swtch`; and whether that was reached.
unfoldable pub visit : ℕ → ℕ → Sched → Option (Bool × Sched)
visit id i x = do
  s1 ← lock_proc id i x.table
  if is_runnable (s1.procs i).state
      then some (true, dispatch i (record x { table = s1 }))
      else some (false, record x { table = unlock_proc id i s1 })

-- The inner loop with `n` rounds left from process `i` on: the process that it switches to, or
-- `none` at its end.
unfoldable pub scan : ℕ → ℕ → ℕ → Sched → Option (Option ℕ × Sched)
scan id zero i x = some (none, x)
scan id (suc n) i x = do
  (hit, x1) ← visit id i x
  let rest = scan id n (i + 1) x1
  if hit then some (some i, x1) else rest

-- `scheduler`, up to the first switch or the end of its first pass over the table
unfoldable pub scheduler : ℕ → Table → Option (Option ℕ × Sched)
scheduler id s =
    let (i, regs) = read_tp id s.hart.regs in
    let hart = record s.hart { regs = regs } in
    scan id 64 0
      (record { c = record (cpu_at i hart) { cur_proc = 0 }; table = record s { hart = hart } })

-- The rest of the pass, when process `i` has switched back.
unfoldable pub scheduler_back : ℕ → ℕ → Sched → Option (Option ℕ × Sched)
scheduler_back id i x =
    let x1 : Sched = record { c = record x.c { cur_proc = 0 }; table = unlock_proc id i x.table } in
    scan id (63 - i) (i + 1) x1

-- `enter_sched`, up to `swtch`, and whether that was reached. It saves in the process and loads
-- from its own copy of the entry of `cpus`.
unfoldable pub enter_sched : ℕ → Table → Option (Bool × Table)
enter_sched id s = do
  let (i, regs) = read_tp id s.hart.regs
  let h1 = record s.hart { regs = regs }
  let c = cpu_at i h1
  let (p, h2) = cur_proc id h1
  let s2 = record s { hart = h2 }
  if c.lock_layer == 1
      then (do
        k ← deref p
        some (
          true,
          record s2 {
            procs = put s2.procs k (record (s2.procs k) { context = s2.regs });
            regs = c.context;
          },
        ))
      else some (false, s2)

-- `give_up`, up to the switch, or to the end when there is none
unfoldable pub give_up : ℕ → Table → Option (Bool × Table)
give_up id s = do
  let (p, h1) = cur_proc id s.hart
  i ← deref p
  s2 ← lock_proc id i (record s { hart = h1 })
  (gone, s3) ←
      enter_sched id
        (record s2 { procs = put s2.procs i (record (s2.procs i) { state = runnable }) })
  if gone then some (true, s3) else some (false, unlock_proc id i s3)

-- `sleep` up to the switch, with the lock that it is given
unfoldable pub sleep : ℕ → ℕ → SpinLock → Table → Option (Bool × SpinLock × Table)
sleep id channel lock s = do
  let (p, h1) = cur_proc id s.hart
  i ← deref p
  s2 ← lock_proc id i (record s { hart = h1 })
  let s3 = record s2 {
    procs = put s2.procs i (record (s2.procs i) { state = sleeping; channel = channel });
  }
  let (lock', hart) = release id (lock, s3.hart)
  (gone, s4) ← enter_sched id (record s3 { hart = hart })
  some (gone, lock', s4)

-- `sleep` from the switch back to its end
unfoldable pub sleep_back : ℕ → ℕ → SpinLock → Table → Option (SpinLock × Table)
sleep_back id i lock s = do
  let s1 = record s { procs = put s.procs i (record (s.procs i) { channel = 0 }) }
  let s2 = unlock_proc id i s1
  (lock', hart) ← acquire id (lock, s2.hart)
  some (lock', record s2 { hart = hart })

-- One round of `wakeup`. `cursor` is a copy of the process, which the round locks, changes and
-- drops; its address is that of no process, so the test against `cur_proc()` holds.
unfoldable pub wake_round : ℕ → ℕ → ℕ → Table → Option Table
wake_round id channel i s = do
  let cursor = s.procs i
  let (p, h1) = cur_proc id s.hart
  (lock, h2) ← acquire id (cursor.lock, h1)
  let cursor1 = record cursor { lock = lock }
  let cursor2 =
      if cursor1.channel == channel && is_sleeping cursor1.state
      then record cursor1 { state = runnable }
      else cursor1
  let (lock', h3) = release id (cursor2.lock, h2)
  some (record s { hart = h3 })

-- with `n` rounds left from process `i` on
unfoldable pub wake_loop : ℕ → ℕ → ℕ → ℕ → Table → Option Table
wake_loop id channel zero i s = some s
wake_loop id channel (suc n) i s = do
  s1 ← wake_round id channel i s
  wake_loop id channel n (i + 1) s1

unfoldable pub wakeup : ℕ → ℕ → Table → Option Table
wakeup id channel s = wake_loop id channel 64 0 s
