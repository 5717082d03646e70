-- ===== src/Proc/Kept.antt =====
-- What each call of kernel/proc.c keeps of a process that sleeps.
use raynix.Base.{
  ℕ, zero, suc, ◌+◌, ◌-◌, ◌≡◌, ◌∙◌, refl, ap, inl, inr, true, Option, none, some, arith, ◌==◌,
  Bool-cases, Option-cases, List, [], ◌∷◌, get_or, set, subst,
}
use native.Mathlib.Decide.{ℕ_discrete}
use raynix.Spinlock.{
  Hart, SpinLock, Cpu, zero_cpu, cpu_at, push_inter_off, pop_inter_off, acquire, release,
}
use raynix.Proc.{
  Table, Sched, sleeping, is_runnable, dispatch, lock_proc, unlock_proc, cur_proc, visit, scan,
  scheduler, scheduler_back, wake_round, wake_loop,
}

-- The process that the entry of `cpus` names.
abbrev pub owner : ℕ → Hart → ℕ
owner id h = (cpu_at id h).cur_proc

-- Process `i` sleeps, and the entry of `cpus` names `n`.
abbrev pub Asleep : ℕ → ℕ → ℕ → Table → Type 0
Asleep id i n s = ((s.procs i).state ≡ sleeping) × (owner id s.hart ≡ n)

-- Every result of a call that has one.
abbrev pub Every : {A : Type 0} → (A → Type 0) → Option A → Type 0
Every P none = Unit
Every P (some a) = P a

pub result : {A : Type 0} (P : A → Type 0) {m : Option A} {a : A} → Every P m → m ≡ some a → P a
result P h e = subst (Every P) e h

set-owner :
    (cpus : List Cpu) (id : ℕ) (v : Cpu)
    → v.cur_proc ≡ (get_or cpus id zero_cpu).cur_proc
    → (get_or (set cpus id v) id zero_cpu).cur_proc ≡ (get_or cpus id zero_cpu).cur_proc
set-owner [] id v e = refl
set-owner (c ∷ cpus) zero v e = e
set-owner (c ∷ cpus) (suc id) v e = set-owner cpus id v e

owner-push : (id : ℕ) (h : Hart) → owner id (push_inter_off id h) ≡ owner id h
unfolding push_inter_off
owner-push id h = set-owner h.cpus id _ refl

owner-pop : (id : ℕ) (h : Hart) → owner id (pop_inter_off id h) ≡ owner id h
unfolding pop_inter_off
owner-pop id h = set-owner h.cpus id _ refl

pub owner-release :
    (id : ℕ) (lock : SpinLock) (h : Hart) → owner id (release id (lock, h)).1 ≡ owner id h
unfolding release
owner-release id lock h = owner-pop id h

pub acquire-Every :
    (id : ℕ) (lock : SpinLock) (h : Hart)
    → Every (λ r. owner id r.1 ≡ owner id h) (acquire id (lock, h))
unfolding acquire
acquire-Every id lock h = elim (Bool-cases (lock == 0)) [
  | inl e ↦ rw e tt
  | inr e ↦ rw e (owner-push id h)
]

pub cur_proc_owner :
    (id : ℕ) (h : Hart)
    → ((cur_proc id h).0 ≡ owner id h) × (owner id (cur_proc id h).1 ≡ owner id h)
unfolding cur_proc
cur_proc_owner id h = (
  owner-push id h,
  owner-pop id
        (record (push_inter_off id h) { regs = record (push_inter_off id h).regs { tp = id } })
      ∙ owner-push id h,
)

module _ (id i n : ℕ) where
  pub lock_proc-Every :
      (k : ℕ) (s : Table) → Asleep id i n s → Every (Asleep id i n) (lock_proc id k s)
  lock_proc-Every k s (z, o) = elim (Option-cases (acquire id ((s.procs k).lock, s.hart))) [
    | inl e ↦ rw e tt
    | inr (r, e) ↦ rw e (ground arith, result _ (acquire-Every id (s.procs k).lock s.hart) e ∙ o)
  ]

  pub unlock_proc-Asleep :
      (k : ℕ) (s : Table) → Asleep id i n s → Asleep id i n (unlock_proc id k s)
  unlock_proc-Asleep k s (z, o) = (ground arith, owner-release id (s.procs k).lock s.hart ∙ o)

  dispatch-Asleep :
      (k : ℕ) (x : Sched) (s : Table)
      → Asleep id i n s
      → is_runnable (s.procs k).state ≡ true
      → Asleep id i n (dispatch k (record x { table = s })).table
  dispatch-Asleep k x s (z, o) can = elim (ℕ_discrete i k) [
    | yes e ↦ absurd (awake (ap (λ j. is_runnable (s.procs j).state) e ∙ can) z)
    | no ne ↦ (ground arith, o)
  ]
    where
      awake : is_runnable (s.procs i).state ≡ true → (s.procs i).state ≡ sleeping → ⊥
      awake e f = let t : is_runnable sleeping ≡ true = rw f at e in absurd (ground arith)

  visit-Every :
      (k : ℕ) (x : Sched)
      → Asleep id i n x.table
      → Every (λ r. Asleep id i n r.1.table) (visit id k x)
  unfolding visit
  visit-Every k x v = elim (Option-cases (lock_proc id k x.table)) [
    | inl e ↦ rw e tt
    | inr (s1, e) ↦
        let v1 = result (Asleep id i n) (lock_proc-Every k x.table v) e in
        elim (Bool-cases (is_runnable (s1.procs k).state)) [
          | inl can ↦ rw (e, can) (dispatch-Asleep k x s1 v1 can)
          | inr cannot ↦ rw (e, cannot) (unlock_proc-Asleep k s1 v1)
        ]
  ]

  scan-Every :
      (m k : ℕ) (x : Sched)
      → Asleep id i n x.table
      → Every (λ r. Asleep id i n r.1.table) (scan id m k x)
  unfolding scan
  scan-Every zero k x v = v
  scan-Every (suc m) k x v = elim (Option-cases (visit id k x)) [
    | inl e ↦ rw e tt
    | inr ((hit, x1), e) ↦
        let v1 = result (λ r. Asleep id i n r.1.table) (visit-Every k x v) e in
        elim (Bool-cases hit) [
          | inl h ↦ rw (e, h) v1
          | inr h ↦ rw (e, h) (scan-Every m (k + 1) x1 v1)
        ]
  ]

  wake_round-Every :
      (channel k : ℕ) (s : Table)
      → Asleep id i n s
      → Every (Asleep id i n) (wake_round id channel k s)
  unfolding wake_round
  wake_round-Every channel k s (z, o) =
      let h1 = (cur_proc id s.hart).1 in
      let (own, kept) = cur_proc_owner id s.hart in
      elim (Option-cases (acquire id ((s.procs k).lock, h1))) [
        | inl e ↦ rw e tt
        | inr (r, e) ↦ rw e (
          z,
          owner-release id _ r.1 ∙ result _ (acquire-Every id (s.procs k).lock h1) e ∙ kept ∙ o,
        )
      ]

  pub wake_loop-Every :
      (channel m k : ℕ) (s : Table)
      → Asleep id i n s
      → Every (Asleep id i n) (wake_loop id channel m k s)
  unfolding wake_loop
  wake_loop-Every channel zero k s v = v
  wake_loop-Every channel (suc m) k s v = elim (Option-cases (wake_round id channel k s)) [
    | inl e ↦ rw e tt
    | inr (s1, e) ↦ rw e (
        wake_loop-Every channel m (k + 1) s1
          (result (Asleep id i n) (wake_round-Every channel k s v) e))
  ]

  pub scheduler-Every :
      (s : Table) → Asleep id i n s → Every (λ r. Asleep id i n r.1.table) (scheduler id s)
  unfolding scheduler
  scheduler-Every s v = scan-Every 64 0 _ v

  pub scheduler_back-Every :
      (k : ℕ) (x : Sched)
      → Asleep id i n x.table
      → Every (λ r. Asleep id i n r.1.table) (scheduler_back id k x)
  unfolding scheduler_back
  scheduler_back-Every k x v = scan-Every (63 - k) (k + 1) _ (unlock_proc-Asleep k x.table v)
