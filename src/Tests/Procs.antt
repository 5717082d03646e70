-- ===== src/Tests/Procs.antt =====
-- kernel/proc.c on a table with one process asleep and one that can run.
use raynix.Base.{
  ℕ, ◌<◌, ◌≡◌, refl, ◌⊎◌, inl, inr, arith, true, false, some, none, replicate, ◌==◌, if◌then◌else◌,
}
use raynix.Spinlock.{zero_cpu, no_context, Hart, cpu_at, push_inter_off}
use raynix.Spinlock.Layers.{IsAt}
use raynix.Proc.{
  unused, sleeping, runnable, Proc, Table, Sched, is_runnable, scheduler, sleep, wakeup,
}
use raynix.Proc.Locks.{pushed-IsAt, push-Keeps}
use raynix.Proc.Scan.{IsPassed, IsDispatched, entered, scheduler-cases}
use raynix.Proc.Forever.{here, wakes, sleeping-forever}
use raynix.Proc.Wakeup.{WakeEnd, wakeup-ends}
use raynix.Proc.Sleep.{HasSwitched, sleep-switches}
use raynix.Tests.{regs}

-- hart 1 runs process 2
abbrev pub running_hart : Hart
running_hart = record { regs = regs; cpus = replicate 8 (record zero_cpu { cur_proc = 3 }) }

abbrev blank_proc : Proc
blank_proc = record {
  tf = 0x87000000;
  context = no_context;
  lock = 1;
  state = unused;
  pagetable = 4096;
  channel = 0;
}

-- Process 3 sleeps on channel 77 and process 5 can run.
abbrev pub asleep_and_ready : Table
asleep_and_ready = record {
  procs = λ j.
      if j == 3
      then record blank_proc { state = sleeping; channel = 77 }
      else if j == 5
      then record blank_proc { state = runnable; context = record no_context { ra = 9 } }
      else blank_proc;
  hart = running_hart;
  regs = no_context;
}

pub running_hart-IsAt : IsAt 1 0 0 1 running_hart
running_hart-IsAt = record { inside = omega arith; layers = refl; flag = refl; enable = refl }

pub all_free : (j : ℕ) → j < 64 → (asleep_and_ready.procs j).lock ≡ 1
all_free j lt = ground arith

-- The same, with a lock held by process 2.
abbrev holding : Table
holding = record asleep_and_ready { hart = push_inter_off 1 running_hart }

holding-IsAt : IsAt 1 1 1 1 holding.hart
holding-IsAt = pushed-IsAt running_hart-IsAt (omega arith)

holding-own : (cpu_at 1 holding.hart).cur_proc ≡ 3
holding-own = (push-Keeps 1 running_hart (omega arith)).same_proc

scheduler-cases_example :
    ((x' : Sched) × (scheduler 1 asleep_and_ready ≡ some (none, x'))
      × ((j : ℕ) → j < 64 → is_runnable (asleep_and_ready.procs j).state ≡ false)
      × IsPassed 1 1 (entered 1 asleep_and_ready) x')
    ⊎ ((k : ℕ) × (x' : Sched) × (scheduler 1 asleep_and_ready ≡ some (some k, x'))
        × (k < 64)
        × (is_runnable (asleep_and_ready.procs k).state ≡ true)
        × ((j : ℕ) → j < k → is_runnable (asleep_and_ready.procs j).state ≡ false)
        × IsDispatched 1 1 k (entered 1 asleep_and_ready) x')
scheduler-cases_example = scheduler-cases 1 asleep_and_ready running_hart-IsAt all_free

wakeup-ends_example : WakeEnd 1 0 1 64 0 asleep_and_ready (wakeup 1 77 asleep_and_ready)
wakeup-ends_example = wakeup-ends 1 77 asleep_and_ready running_hart-IsAt (omega arith)

sleep-switches_example :
    (s' : Table) × (sleep 1 77 0 holding ≡ some (true, 1, s'))
    × HasSwitched 1 2 1 (record (holding.procs 2) { state = sleeping; channel = 77 }) holding s'
sleep-switches_example = sleep-switches 1 77 2 0 holding holding-IsAt holding-own (λ e. omega arith)

-- A call that wakes the channel of process 3.
woken_table : (s' : Table) × (wakeup 1 77 asleep_and_ready ≡ some s')
woken_table = elim (wakeup-ends 1 77 asleep_and_ready running_hart-IsAt (omega arith)) [
  | inl (s', ran, _, _, _, _) ↦ (s', ran)
  | inr (ran, k, lo, hi, locked) ↦ absurd (omega (arith, all_free k (omega arith), locked))
]

sleeping-forever_example : (woken_table.0.procs 3).state ≡ sleeping
sleeping-forever_example =
    sleeping-forever 1 3 asleep_and_ready woken_table.0 refl (λ e. omega arith)
      (wakes 77 here woken_table.1)
