-- ===== src/Proc/Forever.antt =====
-- A process that sleeps, under every order of the calls of kernel/proc.c by one hart.
use raynix.Base.{ℕ, suc, ◌≡◌, ◌≢◌, ◌∙◌, refl, Bool, Option, some}
use raynix.Spinlock.{SpinLock}
use raynix.Proc.{
  Table, Sched, sleeping, scheduler, scheduler_back, give_up, sleep, sleep_back, wakeup,
}
use raynix.Proc.Kept.{owner, Asleep, result, scheduler-Every, scheduler_back-Every, wake_loop-Every}
use raynix.Proc.Away.{give_up-Every, sleep-Every, sleep_back-Every}

-- The states that the functions of kernel/proc.c lead to from `s`, each from its call to its switch or its
-- end and from the switch back to its end, and other work, which changes no state of a process
-- and not whom the entry of `cpus` names.
pub data Reach (id : ℕ) (s : Table) : Table → Type 0 where
  here : Reach id s s
  schedules :
      {s1 : Table} (r : Option ℕ) (x : Sched)
      → Reach id s s1
      → scheduler id s1 ≡ some (r, x)
      → Reach id s x.table
  schedules_on :
      (x : Sched) (k : ℕ) (r : Option ℕ) (x' : Sched)
      → Reach id s x.table
      → scheduler_back id k x ≡ some (r, x')
      → Reach id s x'.table
  gives_up :
      {s1 s2 : Table} (gone : Bool)
      → Reach id s s1
      → give_up id s1 ≡ some (gone, s2)
      → Reach id s s2
  sleeps :
      {s1 s2 : Table} (channel : ℕ) (lock lock' : SpinLock) (gone : Bool)
      → Reach id s s1
      → sleep id channel lock s1 ≡ some (gone, lock', s2)
      → Reach id s s2
  sleeps_on :
      {s1 s2 : Table} (k : ℕ) (lock lock' : SpinLock)
      → Reach id s s1
      → sleep_back id k lock s1 ≡ some (lock', s2)
      → Reach id s s2
  wakes :
      {s1 s2 : Table} (channel : ℕ) → Reach id s s1 → wakeup id channel s1 ≡ some s2 → Reach id s s2
  elsewhere :
      {s1 s2 : Table}
      → Reach id s s1
      → ((j : ℕ) → (s2.procs j).state ≡ (s1.procs j).state)
      → owner id s2.hart ≡ owner id s1.hart
      → Reach id s s2

Reach-Asleep :
    (id i n : ℕ) {s s' : Table} → n ≢ suc i → Asleep id i n s → Reach id s s' → Asleep id i n s'
unfolding wakeup
Reach-Asleep id i n other v here = v
Reach-Asleep id i n other v (schedules {s1} r x before ran) =
    result (λ q. Asleep id i n q.1.table)
      (scheduler-Every id i n s1 (Reach-Asleep id i n other v before)) ran
Reach-Asleep id i n other v (schedules_on x k r x' before ran) =
    result (λ q. Asleep id i n q.1.table)
      (scheduler_back-Every id i n k x (Reach-Asleep id i n other v before)) ran
Reach-Asleep id i n other v (gives_up {s1} gone before ran) =
    result (λ q. Asleep id i n q.1)
      (give_up-Every id i n other s1 (Reach-Asleep id i n other v before)) ran
Reach-Asleep id i n other v (sleeps {s1} channel lock lock' gone before ran) =
    result (λ q. Asleep id i n q.2)
      (sleep-Every id i n channel lock s1 (Reach-Asleep id i n other v before)) ran
Reach-Asleep id i n other v (sleeps_on {s1} k lock lock' before ran) =
    result (λ q. Asleep id i n q.1)
      (sleep_back-Every id i n k lock s1 (Reach-Asleep id i n other v before)) ran
Reach-Asleep id i n other v (wakes {s1} channel before ran) =
    result (Asleep id i n)
      (wake_loop-Every id i n channel 64 0 s1 (Reach-Asleep id i n other v before)) ran
Reach-Asleep id i n other v (elsewhere before states owners) =
    let (z, o) = Reach-Asleep id i n other v before in (states i ∙ z, owners ∙ o)

-- A process that sleeps, and that the hart's entry of `cpus` does not name, sleeps in every state that the
-- hart's calls of `scheduler`, `give_up`, `sleep` and `wakeup` and other work lead to, in any order and
-- on any channel: `wakeup` never makes it runnable.
pub sleeping-forever :
    (id i : ℕ) (s s' : Table)
    → (s.procs i).state ≡ sleeping
    → owner id s.hart ≢ suc i
    → Reach id s s'
    → (s'.procs i).state ≡ sleeping
sleeping-forever id i s s' asleep other reach =
    (Reach-Asleep id i (owner id s.hart) other (asleep, refl) reach).0
