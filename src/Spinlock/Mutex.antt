-- ===== src/Spinlock/Mutex.antt =====
-- A spinlock under any interleaving of harts: each step is one atomic exchange of one hart.
use raynix.Base.{put, ℕ, ◌≤◌, ◌≡◌, refl, ap, ◌∙◌, ◌≢◌, ◌⊎◌, inl, inr, arith}
use native.Mathlib.Decide.{ℕ_discrete}
use raynix.Spinlock.{SpinLock, spinlock_init, test_and_set}

-- Where a hart stands: elsewhere, in the loop of `acquire`, or between `acquire` and `release`.
pub data Pc : Type 0 where
  outside spinning inside : Pc

pub record System : Type 0 where
  pub lock : SpinLock
  pub pc : ℕ → Pc

-- The loop's exchange of 0 for the lock decides by the old value; `release` exchanges 1.
pub data Step (s : System) : System → Type 0 where
  call : (i : ℕ) → s.pc i ≡ outside → Step s (record s { pc = put s.pc i spinning })
  lose :
      (i : ℕ)
      → s.pc i ≡ spinning
      → (test_and_set s.lock 0).0 ≡ 0
      → Step s (record s { lock = (test_and_set s.lock 0).1 })
  win :
      (i : ℕ)
      → s.pc i ≡ spinning
      → (test_and_set s.lock 0).0 ≢ 0
      → Step s (record { lock = (test_and_set s.lock 0).1; pc = put s.pc i inside })
  leave :
      (i : ℕ)
      → s.pc i ≡ inside
      → Step s (record { lock = (test_and_set s.lock 1).1; pc = put s.pc i outside })

-- States reached from a lock that `spinlock_init` has set up, whatever it held before.
pub data Reach : System → Type 0 where
  start : (old : SpinLock) → Reach (record { lock = spinlock_init old; pc = λ _. outside })
  later : {s t : System} → Reach s → Step s t → Reach t

-- The lock is taken exactly while one hart is inside.
pub record Inv (s : System) : Type 0 where
  pub binary : s.lock ≤ 1
  pub taken : (i : ℕ) → s.pc i ≡ inside → s.lock ≡ 0
  pub single : (i j : ℕ) → s.pc i ≡ inside → s.pc j ≡ inside → i ≡ j
  pub owner : s.lock ≡ 0 → (i : ℕ) × (s.pc i ≡ inside)

Step-Inv : {s t : System} → Inv s → Step s t → Inv t
Step-Inv {s} v (call i e) = record {
  binary = v.binary;
  taken = λ j q. ground (arith, v.taken j);
  single = λ j k p q. ground (arith, v.single j k);
  owner = λ z. let (j, q) = v.owner z in (j, ground arith);
}
Step-Inv {s} v (lose i e z) = record {
  binary = omega arith;
  taken = λ j q. refl;
  single = v.single;
  owner = λ _. v.owner z;
}
Step-Inv {s} v (win i e free) = record {
  binary = omega arith;
  taken = λ j q. refl;
  single = λ j k p q. ground (arith, v.taken j, v.taken k);
  owner = λ _. (i, ground arith);
}
Step-Inv {s} v (leave i e) = record {
  binary = omega arith;
  taken = λ j q. ground (arith, v.single i j);
  single = λ j k p q. ground (arith, v.single j k);
  owner = λ z. absurd (omega arith);
}

pub Reach-Inv : {s : System} → Reach s → Inv s
Reach-Inv (start old) = record {
  binary = omega arith;
  taken = λ i e. absurd (ground arith);
  single = λ i j p q. absurd (ground arith);
  owner = λ z. absurd (omega arith);
}
Reach-Inv (later r st) = Step-Inv (Reach-Inv r) st

spins-not_inside : (p : Pc) → p ≡ spinning → p ≡ inside → ⊥
spins-not_inside p e f = cc

-- In every reachable state two harts that are both between `acquire` and `release` are one hart.
pub mutual_exclusion :
    {s : System} → Reach s → (i j : ℕ) → s.pc i ≡ inside → s.pc j ≡ inside → i ≡ j
mutual_exclusion r i j p q = (Reach-Inv r).single i j p q

-- In every reachable state in which a hart is in the loop of `acquire`, one step of that hart takes it
-- inside, or another hart is inside and two steps, the `release` of that hart and the exchange of the
-- waiting one, take the waiting one inside and leave the other outside.
pub no_deadlock :
    {s : System}
    → Reach s
    → (i : ℕ) → s.pc i ≡ spinning
    → ((t : System) × Step s t × (t.pc i ≡ inside))
      ⊎ ((j : ℕ) × (t : System) × (u : System) × (s.pc j ≡ inside)
          × Step s t
          × (t.pc j ≡ outside)
          × Step t u
          × (u.pc i ≡ inside)
          × (u.pc j ≡ outside))
no_deadlock {s} r i e = elim (ℕ_discrete s.lock 0) [
  | no free ↦ inl (_, win i e free, ground arith)
  | yes z ↦
      let (j, q) = (Reach-Inv r).owner z in
      let ne : i ≢ j = λ same. spins-not_inside (s.pc i) e (ap s.pc same ∙ q) in
      let t : System = record { lock = 1; pc = put s.pc j outside } in
      let left : t.pc j ≡ outside = ground arith in
      let waits : t.pc i ≡ spinning = ground arith in
      inr (
        j,
        t,
        record { lock = 0; pc = put t.pc i inside },
        q,
        leave j q,
        left,
        win i waits (λ f. omega arith),
        ground arith,
        ground arith,
      )
]
