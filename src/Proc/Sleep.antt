-- ===== src/Proc/Sleep.antt =====
-- `enter_sched`, `sleep` and `give_up`: who switches, and with which locks.
use raynix.Base.{ℕ, suc, ◌+◌, ◌^◌, ◌<◌, ◌≡◌, refl, ◌∙◌, ◌≢◌, arith, ◌==◌, some, put, true, false}
use raynix.Spinlock.{Hart, SpinLock, cpu_at, release, push_inter_off, pop_inter_off}
use raynix.Spinlock.Layers.{IsAt, pop-IsAt}
use raynix.Proc.{Table, Proc, runnable, sleeping, enter_sched, sleep, give_up, unlock_proc}
use raynix.Proc.Locks.{
  around-IsAt, around-Keeps, pushed-IsAt, push-Keeps, cur_proc_lem, locked, lock_proc-free,
}

abbrev around : ℕ → Hart → Hart
around id h = pop_inter_off id (push_inter_off id h)

-- the hart once `read_tp` has run
abbrev tagged : ℕ → Hart → Hart
tagged id h = record h { regs = record h.regs { tp = id } }

tagged-IsAt :
    (id : ℕ) {layer disabled sie : ℕ} {h : Hart}
    → IsAt id layer disabled sie h
    → IsAt id layer disabled sie (tagged id h)
tagged-IsAt id a = record { inside = a.inside; layers = a.layers; flag = a.flag; enable = a.enable }

-- `s` at the switch of process `i`
abbrev switched : ℕ → ℕ → Table → Table
switched id i s = record s {
  procs = put s.procs i (record (s.procs i) { context = s.regs });
  hart = around id (tagged id s.hart);
  regs = (cpu_at id s.hart).context;
}

module _ (id : ℕ) (s : Table) {layer disabled sie : ℕ} (a : IsAt id layer disabled sie s.hart)
    (small : layer + 1 < 2 ^ 32) where
  enter_sched-one :
      (i : ℕ)
      → (cpu_at id s.hart).cur_proc ≡ suc i
      → layer ≡ 1
      → enter_sched id s ≡ some (true, switched id i s)
  unfolding enter_sched
  enter_sched-one i own one = rw (cur_proc_lem (tagged-IsAt id a) small, a.layers, one, own)

  enter_sched-more :
      layer ≢ 1 → enter_sched id s ≡ some (false, record s { hart = around id (tagged id s.hart) })
  unfolding enter_sched
  enter_sched-more ne =
      let e : (layer == 1) ≡ false = ground arith in
      rw (cur_proc_lem (tagged-IsAt id a) small, a.layers, e)

-- What a process leaves when it switches away: its state, channel and registers are in the table
-- with its lock held, the scheduler's registers are loaded, and one layer of locks is left.
pub record HasSwitched (id i sie : ℕ) (p : Proc) (s s' : Table) : Type 0 where
  pub own : s'.procs i ≡ record p { context = s.regs; lock = 0 }
  pub others : (j : ℕ) → j ≢ i → s'.procs j ≡ s.procs j
  pub loaded : s'.regs ≡ (cpu_at id s.hart).context
  pub level : (d : ℕ) × IsAt id 1 d sie s'.hart

-- `sleep`, called with one lock held by the process that the entry of `cpus` names and whose own
-- lock is free, gives the lock back and switches, asleep on its channel.
pub sleep-switches :
    (id channel i : ℕ) (lock : SpinLock) (s : Table) {d sie : ℕ}
    → IsAt id 1 d sie s.hart
    → (cpu_at id s.hart).cur_proc ≡ suc i
    → (s.procs i).lock ≢ 0
    → (s' : Table) × (sleep id channel lock s ≡ some (true, 1, s'))
      × HasSwitched id i sie (record (s.procs i) { state = sleeping; channel = channel }) s s'
unfolding sleep release
sleep-switches id channel i lock s {d} {sie} a own free =
    let h1 = around id s.hart in
    let a1 : IsAt id 1 0 sie h1 = around-IsAt a (omega arith) in
    let k1 = around-Keeps a (omega arith) in
    let h3 = around id h1 in
    let a3 : IsAt id 1 0 sie h3 = around-IsAt a1 (omega arith) in
    let k3 = around-Keeps a1 (omega arith) in
    let s2 = locked id i (record s { hart = h1 }) in
    let s3 = record s2 {
      procs = put s2.procs i (record (s2.procs i) { state = sleeping; channel = channel });
      hart = h3;
    } in
    (
      switched id i s3,
      rw (
        cur_proc_lem a (omega arith),
        own,
        lock_proc-free id i (record s { hart = h1 }) free,
        enter_sched-one id s3 a3 (omega arith) i (k3.same_proc ∙ k1.same_proc ∙ own) refl,
      ),
      record {
        own = ground arith;
        others = λ j ne. ground arith;
        loaded = k3.same_context ∙ k1.same_context;
        level = (_, around-IsAt (tagged-IsAt id a3) (omega arith));
      },
    )

-- the table at the call of `enter_sched` in `give_up`
abbrev yielding : ℕ → ℕ → Table → Table
yielding id i s =
    let s2 = locked id i (record s { hart = around id s.hart }) in
    record s2 { procs = put s2.procs i (record (s2.procs i) { state = runnable }) }

module _ (id i : ℕ) (s : Table) (own : (cpu_at id s.hart).cur_proc ≡ suc i)
    (free : (s.procs i).lock ≢ 0) where
  -- `give_up` of the process that the entry of `cpus` names, with its lock free and no other lock
  -- held, switches, runnable, with its lock held.
  pub give_up-switches :
      {d sie : ℕ}
      → IsAt id 0 d sie s.hart
      → (s' : Table) × (give_up id s ≡ some (true, s'))
        × HasSwitched id i sie (record (s.procs i) { state = runnable }) s s'
  unfolding give_up
  give_up-switches {d} {sie} a =
      let a1 : IsAt id 0 1 sie (around id s.hart) = around-IsAt a (omega arith) in
      let a2 : IsAt id 1 1 sie (yielding id i s).hart = pushed-IsAt a1 (omega arith) in
      let k1 = around-Keeps a (omega arith) in
      let k2 = push-Keeps id (around id s.hart) a1.inside in
      (
        switched id i (yielding id i s),
        rw (
          cur_proc_lem a (omega arith),
          own,
          lock_proc-free id i (record s { hart = around id s.hart }) free,
          enter_sched-one id (yielding id i s) a2 (omega arith) i
              (k2.same_proc ∙ k1.same_proc ∙ own) refl,
        ),
        record {
          own = ground arith;
          others = λ j ne. ground arith;
          loaded = k2.same_context ∙ k1.same_context;
          level = (_, around-IsAt (tagged-IsAt id a2) (omega arith));
        },
      )

  -- With another lock held `give_up` does not switch: it returns, with the process runnable, its
  -- lock free again, its registers still loaded and as many layers as before.
  pub give_up-stays :
      {layer d sie : ℕ}
      → IsAt id (suc layer) d sie s.hart
      → layer + 3 < 2 ^ 32
      → (s' : Table) × (give_up id s ≡ some (false, s'))
        × (s'.procs i ≡ record (s.procs i) { state = runnable; lock = 1 })
        × ((j : ℕ) → j ≢ i → s'.procs j ≡ s.procs j)
        × (s'.regs ≡ s.regs)
        × ((e : ℕ) × IsAt id (suc layer) e sie s'.hart)
  unfolding give_up release
  give_up-stays {layer} {d} {sie} a small =
      let a1 : IsAt id (suc layer) 0 sie (around id s.hart) =
        ground (arith, around-IsAt a (omega arith)) in
      let a2 : IsAt id (suc (suc layer)) 0 sie (yielding id i s).hart =
        ground (arith, pushed-IsAt a1 (omega arith)) in
      let a3 : IsAt id (suc (suc layer)) 0 sie (around id (tagged id (yielding id i s).hart)) =
        ground (arith, around-IsAt (tagged-IsAt id a2) (omega arith)) in
      let a5 : IsAt id (suc layer) 0 sie
          (pop_inter_off id (around id (tagged id (yielding id i s).hart))) =
        ground (arith, pop-IsAt a3 (omega arith)) in
      let s4 = record (yielding id i s) { hart = around id (tagged id (yielding id i s).hart) } in
      (
        unlock_proc id i s4,
        rw (
          cur_proc_lem a (omega arith),
          own,
          lock_proc-free id i (record s { hart = around id s.hart }) free,
          enter_sched-more id (yielding id i s) a2 (omega arith) (λ e. omega arith),
        ),
        ground arith,
        (λ j ne. ground arith),
        refl,
        (0, a5),
      )
