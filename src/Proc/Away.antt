-- ===== src/Proc/Away.antt =====
-- What the calls that switch away keep of a process that sleeps.
use raynix.Base.{
  ℕ, zero, suc, ◌≡◌, ◌≢◌, ◌∙◌, sym, ap, inl, inr, some, arith, ◌==◌, put, Bool-cases, Option-cases,
}
use mathlib.Core.Option.{some-injective}
use raynix.Spinlock.{SpinLock, cpu_at, acquire, release}
use raynix.Proc.{
  Table, sleeping, runnable, lock_proc, unlock_proc, cur_proc, deref, enter_sched, give_up, sleep,
  sleep_back,
}
use raynix.Proc.Kept.{
  Asleep, Every, result, acquire-Every, owner-release, cur_proc_owner, lock_proc-Every,
  unlock_proc-Asleep,
}

module _ (id i n : ℕ) where
  enter_sched-Every :
      (s : Table) → Asleep id i n s → Every (λ r. Asleep id i n r.1) (enter_sched id s)
  unfolding enter_sched
  enter_sched-Every s (z, o) =
      let h1 = record s.hart { regs = record s.hart.regs { tp = id } } in
      let (own, kept) = cur_proc_owner id h1 in
      elim (Bool-cases ((cpu_at id h1).lock_layer == 1)) [
        | inr more ↦ rw more (z, kept ∙ o)
        | inl one ↦ elim (Option-cases (deref (cur_proc id h1).0)) [
          | inl e ↦ rw (one, e) tt
          | inr (k, e) ↦ rw (one, e) (ground arith, kept ∙ o)
        ]
      ]

  module _ (other : n ≢ suc i) where
    -- the process that the entry names, which is not the one that sleeps
    mine : (s : Table) → Asleep id i n s → {k : ℕ} → deref (cur_proc id s.hart).0 ≡ some k → k ≢ i
    mine s (z, o) {k} e same =
        let at : deref n ≡ some k = ap deref (sym ((cur_proc_owner id s.hart).0 ∙ o)) ∙ e in
        other (named n at ∙ ap suc same)
      where
        named : (p : ℕ) → deref p ≡ some k → p ≡ suc k
        named zero f = cc
        named (suc j) f = ap suc (some-injective j k f)

    pub give_up-Every :
        (s : Table) → Asleep id i n s → Every (λ r. Asleep id i n r.1) (give_up id s)
    unfolding give_up
    give_up-Every s v =
        let h1 = (cur_proc id s.hart).1 in
        let v1 : Asleep id i n (record s { hart = h1 }) =
          (v.0, (cur_proc_owner id s.hart).1 ∙ v.1) in
        elim (Option-cases (deref (cur_proc id s.hart).0)) [
          | inl e ↦ rw e tt
          | inr (k, e) ↦ elim (Option-cases (lock_proc id k (record s { hart = h1 }))) [
            | inl e2 ↦ rw (e, e2) tt
            | inr (s2, e2) ↦
                let (z2, o2) =
                  result (Asleep id i n) (lock_proc-Every id i n k (record s { hart = h1 }) v1)
                    e2 in
                let ne : i ≢ k = λ q. mine s v e (sym q) in
                let s3 : Table = record s2 {
                  procs = put s2.procs k (record (s2.procs k) { state = runnable });
                } in
                let v3 : Asleep id i n s3 = (ground arith, o2) in
                elim (Option-cases (enter_sched id s3)) [
                  | inl e3 ↦ rw (e, e2, e3) tt
                  | inr ((gone, s4), e3) ↦
                      let v4 = result (λ r. Asleep id i n r.1) (enter_sched-Every s3 v3) e3 in
                      elim (Bool-cases gone) [
                        | inl g ↦ rw (e, e2, e3, g) v4
                        | inr g ↦ rw (e, e2, e3, g) (unlock_proc-Asleep id i n k s4 v4)
                      ]
                ]
          ]
        ]

  pub sleep-Every :
      (channel : ℕ) (lock : SpinLock) (s : Table)
      → Asleep id i n s
      → Every (λ r. Asleep id i n r.2) (sleep id channel lock s)
  unfolding sleep
  sleep-Every channel lock s v =
      let h1 = (cur_proc id s.hart).1 in
      let v1 : Asleep id i n (record s { hart = h1 }) = (v.0, (cur_proc_owner id s.hart).1 ∙ v.1) in
      elim (Option-cases (deref (cur_proc id s.hart).0)) [
        | inl e ↦ rw e tt
        | inr (k, e) ↦ elim (Option-cases (lock_proc id k (record s { hart = h1 }))) [
          | inl e2 ↦ rw (e, e2) tt
          | inr (s2, e2) ↦
              let (z2, o2) =
                result (Asleep id i n) (lock_proc-Every id i n k (record s { hart = h1 }) v1) e2 in
              let s3 : Table = record s2 {
                procs =
                    put s2.procs k (record (s2.procs k) { state = sleeping; channel = channel });
                hart = (release id (lock, s2.hart)).1;
              } in
              let v3 : Asleep id i n s3 = (ground arith, owner-release id lock s2.hart ∙ o2) in
              elim (Option-cases (enter_sched id s3)) [
                | inl e3 ↦ rw (e, e2, e3) tt
                | inr ((gone, s4), e3) ↦
                    rw (e, e2, e3) (result (λ r. Asleep id i n r.1) (enter_sched-Every s3 v3) e3)
              ]
        ]
      ]

  pub sleep_back-Every :
      (k : ℕ) (lock : SpinLock) (s : Table)
      → Asleep id i n s
      → Every (λ r. Asleep id i n r.1) (sleep_back id k lock s)
  unfolding sleep_back
  sleep_back-Every k lock s (z, o) =
      let s1 : Table = record s { procs = put s.procs k (record (s.procs k) { channel = 0 }) } in
      let v2 = unlock_proc-Asleep id i n k s1 (ground arith, o) in
      let s2 = unlock_proc id k s1 in
      elim (Option-cases (acquire id (lock, s2.hart))) [
        | inl e ↦ rw e tt
        | inr (r, e) ↦ rw e (v2.0, result _ (acquire-Every id lock s2.hart) e ∙ v2.1)
      ]
