-- ===== src/Proc/Wakeup.antt =====
-- `wakeup`: it works on copies.
use raynix.Base.{
  ℕ, zero, suc, ◌+◌, ◌^◌, ◌<◌, ◌≤◌, ◌≡◌, refl, ◌≢◌, ◌⊎◌, inl, inr, arith, Option, none, some,
}
use native.Mathlib.Decide.{ℕ_discrete}
use raynix.Spinlock.{Hart, release, push_inter_off, pop_inter_off}
use raynix.Spinlock.Layers.{IsAt}
use raynix.Spinlock.Lock.{acquire-free, acquire-held}
use raynix.Proc.{Table, wake_round, wake_loop, wakeup}
use raynix.Proc.Locks.{around-IsAt, cur_proc_lem, flag_at}

abbrev around : ℕ → Hart → Hart
around id h = pop_inter_off id (push_inter_off id h)

-- the table after a round that returns
abbrev woken : ℕ → Table → Table
woken id s = record s { hart = around id (around id s.hart) }

module _ (id channel i : ℕ) (s : Table) {layer disabled sie : ℕ}
    (a : IsAt id layer disabled sie s.hart) (small : layer + 1 < 2 ^ 32) where
  round-free : (s.procs i).lock ≢ 0 → wake_round id channel i s ≡ some (woken id s)
  unfolding wake_round release
  round-free free =
      rw (cur_proc_lem a small, acquire-free id (s.procs i).lock (around id s.hart) free)

  round-held : (s.procs i).lock ≡ 0 → wake_round id channel i s ≡ none
  unfolding wake_round
  round-held held = rw (cur_proc_lem a small, held, acquire-held id (around id s.hart))

  woken-IsAt : IsAt id layer (flag_at layer) sie (woken id s).hart
  woken-IsAt = around-IsAt (around-IsAt a small) small

-- How the loop ends: with the table as it was, or at the first process that is locked.
abbrev pub WakeEnd : ℕ → ℕ → ℕ → ℕ → ℕ → Table → Option Table → Type 0
WakeEnd id layer sie n i s r =
    ((s' : Table) × (r ≡ some s')
      × (s'.procs ≡ s.procs)
      × (s'.regs ≡ s.regs)
      × ((j : ℕ) → i ≤ j → j < i + n → (s.procs j).lock ≢ 0)
      × ((d : ℕ) × IsAt id layer d sie s'.hart))
    ⊎ ((r ≡ none) × (k : ℕ) × (i ≤ k) × (k < i + n) × ((s.procs k).lock ≡ 0))

wake_loop-ends :
    (id channel n i : ℕ) (s : Table) {layer disabled sie : ℕ}
    → IsAt id layer disabled sie s.hart
    → layer + 1 < 2 ^ 32
    → WakeEnd id layer sie n i s (wake_loop id channel n i s)
unfolding wake_loop
wake_loop-ends id channel zero i s {layer} {disabled} a small =
    inl (s, refl, refl, refl, (λ j lo hi. absurd (omega arith)), (disabled, a))
wake_loop-ends id channel (suc n) i s a small = elim (ℕ_discrete (s.procs i).lock 0) [
  | yes held ↦ inr (rw (round-held id channel i s a small held), i, omega arith, omega arith, held)
  | no free ↦
      elim (wake_loop-ends id channel n (i + 1) (woken id s) (woken-IsAt id channel i s a small)
        small) [
          | inl (s', e, same, regs, open_, level) ↦ inl (
            s',
            rw (round-free id channel i s a small free) e,
            same,
            regs,
            (λ j lo hi. elim (ℕ_discrete j i) [
              | yes here ↦ rw here free
              | no ne ↦ open_ j (omega arith) (omega arith)
            ]),
            level,
          )
          | inr (e, k, lo, hi, held) ↦
              inr (rw (round-free id channel i s a small free) e, k, omega arith, omega arith, held)
        ]
]

-- `wakeup` wakes nobody. If no process is locked it returns with the process table as it was; if
-- one is, it does not return, since the lock that it waits for is that of a copy.
pub wakeup-ends :
    (id channel : ℕ) (s : Table) {layer disabled sie : ℕ}
    → IsAt id layer disabled sie s.hart
    → layer + 1 < 2 ^ 32
    → WakeEnd id layer sie 64 0 s (wakeup id channel s)
unfolding wakeup
wakeup-ends id channel s a small = wake_loop-ends id channel 64 0 s a small

-- With no process locked `wakeup` returns.
pub wakeup-free :
    (id channel : ℕ) (s : Table) {layer disabled sie : ℕ}
    → IsAt id layer disabled sie s.hart
    → layer + 1 < 2 ^ 32
    → ((j : ℕ) → j < 64 → (s.procs j).lock ≢ 0)
    → (s' : Table) × (wakeup id channel s ≡ some s')
      × (s'.procs ≡ s.procs)
      × ((d : ℕ) × IsAt id layer d sie s'.hart)
wakeup-free id channel s a small free = elim (wakeup-ends id channel s a small) [
  | inl (s', e, same, regs, open_, level) ↦ (s', e, same, level)
  | inr (e, k, lo, hi, held) ↦ absurd (free k hi held)
]
