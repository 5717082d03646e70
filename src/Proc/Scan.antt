-- ===== src/Proc/Scan.antt =====
-- The pass of `scheduler` over the table.
use raynix.Base.{
  ℕ, zero, suc, ◌+◌, ◌<◌, ◌≤◌, ◌≡◌, refl, sym, ap, ◌∙◌, ◌≢◌, ◌⊎◌, inl, inr, arith, none, some, Bool,
  true, false, Bool-cases,
}
use native.Mathlib.Decide.{ℕ_discrete}
use raynix.Spinlock.{cpu_at, release}
use raynix.Spinlock.Layers.{IsAt}
use raynix.Proc.{
  scheduler, Proc, running, is_runnable, Table, Sched, dispatch, visit, scan, unlock_proc,
}
use raynix.Proc.Locks.{
  Keeps, around-IsAt, around-Keeps, pushed-IsAt, push-Keeps, locked, lock_proc-free,
}

-- `x'` is `x` after processes that were not runnable have been looked at.
pub record IsPassed (id sie : ℕ) (x x' : Sched) : Type 0 where
  pub table : (j : ℕ) → x'.table.procs j ≡ x.table.procs j
  pub copy : x'.c ≡ x.c
  pub registers : x'.table.regs ≡ x.table.regs
  pub cpus : Keeps id x.table.hart x'.table.hart
  pub level : (d : ℕ) × IsAt id 0 d sie x'.table.hart

-- `x'` is `x` at the switch to process `k`, whose lock is held and whose registers are loaded. The
-- pointer to `k` is in the scheduler's own copy; the entry of `cpus` names the same process as before.
pub record IsDispatched (id sie k : ℕ) (x x' : Sched) : Type 0 where
  pub others : (j : ℕ) → j ≢ k → x'.table.procs j ≡ x.table.procs j
  pub chosen : x'.table.procs k ≡ record (x.table.procs k) { lock = 0; state = running }
  pub loaded : x'.table.regs ≡ (x.table.procs k).context
  pub saved : x'.c.context ≡ x.table.regs
  pub copy : x'.c.cur_proc ≡ k + 1
  pub cpus : Keeps id x.table.hart x'.table.hart
  pub level : (d : ℕ) × IsAt id 1 d sie x'.table.hart

abbrev pub ready : Sched → ℕ → Bool
ready x j = is_runnable (x.table.procs j).state

first_and_rest :
    (f : ℕ → Bool) {i : ℕ} (k : ℕ)
    → f i ≡ false
    → ((j : ℕ) → i + 1 ≤ j → j < k → f j ≡ false)
    → (j : ℕ) → i ≤ j
    → j < k
    → f j ≡ false
first_and_rest f {i} k e rest j lo hi = elim (ℕ_discrete j i) [
  | yes same ↦ rw same e
  | no ne ↦ rest j (omega arith) hi
]

-- the state after a round on a process that is not runnable
abbrev passed : ℕ → ℕ → Sched → Sched
passed id i x = record x { table = unlock_proc id i (locked id i x.table) }

abbrev dispatched : ℕ → ℕ → Sched → Sched
dispatched id i x = dispatch i (record x { table = locked id i x.table })

module _ (id i : ℕ) (x : Sched) (free : (x.table.procs i).lock ≡ 1) where
  taken : (x.table.procs i).lock ≢ 0
  taken e = omega arith

  state_kept : ((locked id i x.table).procs i).state ≡ (x.table.procs i).state
  state_kept = ground arith

  visit-miss : ready x i ≡ false → visit id i x ≡ some (false, passed id i x)
  unfolding visit
  visit-miss e = rw (lock_proc-free id i x.table taken, state_kept, e)

  visit-hit : ready x i ≡ true → visit id i x ≡ some (true, dispatched id i x)
  unfolding visit
  visit-hit e = rw (lock_proc-free id i x.table taken, state_kept, e)

  passed-procs : (j : ℕ) → (passed id i x).table.procs j ≡ x.table.procs j
  unfolding release
  passed-procs j = ground arith

  module _ {sie d : ℕ} (a : IsAt id 0 d sie x.table.hart) where
    passed-IsPassed : IsPassed id sie x (passed id i x)
    unfolding release
    passed-IsPassed = record {
      table = passed-procs;
      copy = refl;
      registers = refl;
      cpus = around-Keeps a (omega arith);
      level = (_, around-IsAt a (omega arith));
    }

    dispatched-IsDispatched : IsDispatched id sie i x (dispatched id i x)
    dispatched-IsDispatched = record {
      others = λ j ne. ground arith;
      chosen = ground arith;
      loaded = ground arith;
      saved = refl;
      copy = refl;
      cpus = push-Keeps id x.table.hart a.inside;
      level = (_, pushed-IsAt a (omega arith));
    }

Passed-trans :
    (id : ℕ) {sie : ℕ} {x y z : Sched}
    → IsPassed id sie x y
    → IsPassed id sie y z
    → IsPassed id sie x z
Passed-trans id p q = record {
  table = λ j. q.table j ∙ p.table j;
  copy = q.copy ∙ p.copy;
  registers = q.registers ∙ p.registers;
  cpus = record {
    same_proc = q.cpus.same_proc ∙ p.cpus.same_proc;
    same_context = q.cpus.same_context ∙ p.cpus.same_context;
  };
  level = q.level;
}

Dispatched-after :
    (id : ℕ) {sie k : ℕ} {x y z : Sched}
    → IsPassed id sie x y
    → IsDispatched id sie k y z
    → IsDispatched id sie k x z
Dispatched-after id {sie} {k} {x} {y} {z} p q = record {
  others = λ j ne. q.others j ne ∙ p.table j;
  chosen = q.chosen ∙ ap (λ (t : Proc). record t { lock = 0; state = running }) (p.table k);
  loaded = q.loaded ∙ ap (λ (t : Proc). t.context) (p.table k);
  saved = q.saved ∙ p.registers;
  copy = q.copy;
  cpus = record {
    same_proc = q.cpus.same_proc ∙ p.cpus.same_proc;
    same_context = q.cpus.same_context ∙ p.cpus.same_context;
  };
  level = q.level;
}

-- With no lock held by the hart, and no process from `i` on locked, `scan` returns. Either it
-- switches to the first runnable process, which it marks running with its lock held, and every
-- other is as before; or none is runnable, and the table is as before.
pub scan-cases :
    (id n i : ℕ) (x : Sched) {sie d : ℕ}
    → IsAt id 0 d sie x.table.hart
    → ((j : ℕ) → i ≤ j → j < i + n → (x.table.procs j).lock ≡ 1)
    → ((x' : Sched) × (scan id n i x ≡ some (none, x'))
        × ((j : ℕ) → i ≤ j → j < i + n → ready x j ≡ false)
        × IsPassed id sie x x')
      ⊎ ((k : ℕ) × (x' : Sched) × (scan id n i x ≡ some (some k, x'))
          × (i ≤ k)
          × (k < i + n)
          × (ready x k ≡ true)
          × ((j : ℕ) → i ≤ j → j < k → ready x j ≡ false)
          × IsDispatched id sie k x x')
unfolding scan
scan-cases id zero i x {sie} {d} a free = inl (
  x,
  refl,
  (λ j lo hi. absurd (omega arith)),
  record {
    table = λ j. refl;
    copy = refl;
    registers = refl;
    cpus = record { same_proc = refl; same_context = refl };
    level = (d, a);
  },
)
scan-cases id (suc n) i x {sie} {d} a free = elim (Bool-cases (ready x i)) [
  | inl hit ↦ inr (
    i,
    dispatched id i x,
    rw (visit-hit id i x (free i (omega arith) (omega arith)) hit),
    omega arith,
    omega arith,
    hit,
    (λ j lo hi. absurd (omega arith)),
    dispatched-IsDispatched id i x (free i (omega arith) (omega arith)) a,
  )
  | inr miss ↦
      let here = free i (omega arith) (omega arith) in
      let p = passed-IsPassed id i x here a in
      let same : (j : ℕ) → ready x j ≡ ready (passed id i x) j =
        λ j. ap (λ (t : Proc). is_runnable t.state) (sym (p.table j)) in
      elim (scan-cases id n (i + 1) (passed id i x) p.level.1
        (λ j lo hi. ap (λ (t : Proc). t.lock) (p.table j) ∙ free j (omega arith) (omega arith))) [
          | inl (x', e, none_ready, q) ↦ inl (
            x',
            rw (visit-miss id i x here miss) e,
            (λ j lo hi.
                first_and_rest (ready x) (i + suc n) miss
                  (λ t l h. same t ∙ none_ready t l (omega arith)) j lo hi),
            Passed-trans id p q,
          )
          | inr (k, x', e, lo, hi, yes_ready, before, q) ↦ inr (
            k,
            x',
            rw (visit-miss id i x here miss) e,
            omega arith,
            omega arith,
            same k ∙ yes_ready,
            first_and_rest (ready x) k miss (λ t l h. same t ∙ before t l h),
            Dispatched-after id p q,
          )
        ]
]

-- the scheduler's state before its first round
abbrev pub entered : ℕ → Table → Sched
entered id s =
    let h = record s.hart { regs = record s.hart.regs { tp = id } } in
    record { c = record (cpu_at id h) { cur_proc = 0 }; table = record s { hart = h } }

-- With no lock held by the hart and no process locked, `scheduler` reaches a switch or the end of
-- its first pass. It switches to the first runnable process of the table, which it marks running
-- with its lock held and whose registers it loads, and leaves every other as it was; or none is
-- runnable, and the table is as before. The entry of `cpus` names the same process as before,
-- since the scheduler writes to a copy.
pub scheduler-cases :
    (id : ℕ) (s : Table) {sie d : ℕ}
    → IsAt id 0 d sie s.hart
    → ((j : ℕ) → j < 64 → (s.procs j).lock ≡ 1)
    → ((x' : Sched) × (scheduler id s ≡ some (none, x'))
        × ((j : ℕ) → j < 64 → is_runnable (s.procs j).state ≡ false)
        × IsPassed id sie (entered id s) x')
      ⊎ ((k : ℕ) × (x' : Sched) × (scheduler id s ≡ some (some k, x'))
          × (k < 64)
          × (is_runnable (s.procs k).state ≡ true)
          × ((j : ℕ) → j < k → is_runnable (s.procs j).state ≡ false)
          × IsDispatched id sie k (entered id s) x')
unfolding scheduler
scheduler-cases id s {sie} {d} a free =
    let a' : IsAt id 0 d sie (entered id s).table.hart = record {
      inside = a.inside;
      layers = a.layers;
      flag = a.flag;
      enable = a.enable;
    } in
    elim (scan-cases id 64 0 (entered id s) a' (λ j lo hi. free j hi)) [
      | inl (x', e, idle, p) ↦ inl (x', e, (λ j h. idle j (omega arith) h), p)
      | inr (k, x', e, lo, hi, yes_ready, before, q) ↦
          inr (k, x', e, hi, yes_ready, (λ j h. before j (omega arith) h), q)
    ]
