-- ===== src/Proc/Locks.antt =====
-- A pair of `push_inter_off` and `pop_inter_off`, and what both leave of the entry of `cpus`.
use raynix.Base.{
  ℕ, suc, ◌+◌, ◌^◌, ◌<◌, ◌≡◌, ap, ◌∙◌, ◌≢◌, arith, ◌==◌, if◌then◌else◌, length, get_or-set_self,
  some, put,
}
use native.Mathlib.Numerals.{add-one}
use raynix.Spinlock.{Hart, cpu_at, zero_cpu, push_inter_off, pop_inter_off, pushed_cpu, popped_cpu}
use raynix.Spinlock.Layers.{IsAt, push-IsAt, pop-IsAt}
use raynix.Spinlock.Lock.{acquire-free, release_lem}
use raynix.Proc.{cur_proc, Table, lock_proc, unlock_proc}

-- The entry of `cpus` names the same process and holds the same registers.
pub record Keeps (id : ℕ) (h h' : Hart) : Type 0 where
  pub same_proc : (cpu_at id h').cur_proc ≡ (cpu_at id h).cur_proc
  pub same_context : (cpu_at id h').context ≡ (cpu_at id h).context

pub push-Keeps : (id : ℕ) (h : Hart) → id < length h.cpus → Keeps id h (push_inter_off id h)
unfolding push_inter_off
push-Keeps id h inside = ground (
  arith,
  get_or-set_self h.cpus id (pushed_cpu (record h.regs { tp = id }) (cpu_at id h)) zero_cpu inside,
)

pub pop-Keeps : (id : ℕ) (h : Hart) → id < length h.cpus → Keeps id h (pop_inter_off id h)
unfolding pop_inter_off
pop-Keeps id h inside =
    ground (arith, get_or-set_self h.cpus id (popped_cpu (cpu_at id h)) zero_cpu inside)

-- the flag after a pair of calls at a layer
abbrev pub flag_at : ℕ → ℕ
flag_at layer = if layer == 0 then 1 else 0

module _ {id layer disabled sie : ℕ} {h : Hart} (a : IsAt id layer disabled sie h)
    (small : layer + 1 < 2 ^ 32) where
  pub pushed-IsAt : IsAt id (suc layer) (flag_at layer) sie (push_inter_off id h)
  pushed-IsAt = rw add-one at (push-IsAt a small)

  -- A pair of calls, at any layer, leaves the interrupt enable bit as it was.
  pub around-IsAt : IsAt id layer (flag_at layer) sie (pop_inter_off id (push_inter_off id h))
  around-IsAt = ground (arith, pop-IsAt pushed-IsAt)

  pub around-Keeps : Keeps id h (pop_inter_off id (push_inter_off id h))
  around-Keeps =
      let k = push-Keeps id h a.inside in
      let k' = pop-Keeps id (push_inter_off id h) pushed-IsAt.inside in
      record {
        same_proc = k'.same_proc ∙ k.same_proc;
        same_context = k'.same_context ∙ k.same_context;
      }

  pub cur_proc_lem :
      cur_proc id h ≡ ((cpu_at id h).cur_proc, pop_inter_off id (push_inter_off id h))
  unfolding cur_proc push_inter_off pop_inter_off
  cur_proc_lem =
      ap (λ p. (p, pop_inter_off id (push_inter_off id h))) (push-Keeps id h a.inside).same_proc

-- the table with process `i` locked, and the calls that lead there and back
abbrev pub locked : ℕ → ℕ → Table → Table
locked id i s = record s {
  procs = put s.procs i (record (s.procs i) { lock = 0 });
  hart = push_inter_off id s.hart;
}

pub lock_proc-free :
    (id i : ℕ) (s : Table) → (s.procs i).lock ≢ 0 → lock_proc id i s ≡ some (locked id i s)
lock_proc-free id i s free = rw (acquire-free id (s.procs i).lock s.hart free)

pub unlock_proc_lem :
    (id i : ℕ) (s : Table)
    → unlock_proc id i s ≡ record s {
      procs = put s.procs i (record (s.procs i) { lock = 1 });
      hart = pop_inter_off id s.hart;
    }
unlock_proc_lem id i s = rw (release_lem id (s.procs i).lock s.hart)
