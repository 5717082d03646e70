-- ===== src/Spinlock.antt =====
-- kernel/spinlock.c over one hart: its registers and the array `cpus`. `int` and `uint` fields are
-- their 32-bit patterns. `id` is the value that every `read_tp()` of the hart yields.
pub mod Layers
pub mod Lock
pub mod Mutex
use raynix.Base.{
  ℕ, ◌+◌, ◌-◌, ◌%◌, ◌^◌, ◌≡◌, Bool, true, false, ◌&&◌, ◌||◌, not, Option, none, some, List, bit_and,
  bit_or, ◌==◌, if◌then◌else◌, get_or, set,
}
use raynix.Layout.{sstatus_sie}
use raynix.Riscv.{Regs, read_tp, read_sstatus, write_sstatus}

-- `struct context` of kernel/proc.h: the registers that `swtch` saves
pub record Context : Type 0 where
  pub ra : ℕ
  pub sp : ℕ
  pub s0 : ℕ
  pub s1 : ℕ
  pub s2 : ℕ
  pub s3 : ℕ
  pub s4 : ℕ
  pub s5 : ℕ
  pub s6 : ℕ
  pub s7 : ℕ
  pub s8 : ℕ
  pub s9 : ℕ
  pub s10 : ℕ
  pub s11 : ℕ

-- `struct cpu` of kernel/proc.h; `cur_proc` is a pointer, 0 for none.
pub record Cpu : Type 0 where
  pub interrupt_disabled : ℕ
  pub cur_proc : ℕ
  pub context : Context
  pub lock_layer : ℕ

abbrev pub no_context : Context
no_context = record {
  ra = 0;
  sp = 0;
  s0 = 0;
  s1 = 0;
  s2 = 0;
  s3 = 0;
  s4 = 0;
  s5 = 0;
  s6 = 0;
  s7 = 0;
  s8 = 0;
  s9 = 0;
  s10 = 0;
  s11 = 0;
}

-- a static object before its first use
abbrev pub zero_cpu : Cpu
zero_cpu = record { interrupt_disabled = 0; cur_proc = 0; context = no_context; lock_layer = 0 }

pub record Hart : Type 0 where
  pub regs : Regs
  pub cpus : List Cpu

-- `cpus[id]`
abbrev pub cpu_at : ℕ → Hart → Cpu
cpu_at id h = get_or h.cpus id zero_cpu

-- A comparison in C is the number 1 or 0.
abbrev pub c_bool : Bool → ℕ
c_bool b = if b then 1 else 0

-- The test of `push_inter_off`. In C `==` binds tighter than `&`, so what is compared with 0 is
-- the constant.
abbrev pub was_off : Regs → ℕ → Bool
was_off r layer = not (bit_and (read_sstatus r) (c_bool (sstatus_sie == 0)) == 0) || layer == 0

-- the entry of `cpus` and the registers that `push_inter_off` leaves
abbrev pub pushed_cpu : Regs → Cpu → Cpu
pushed_cpu r c = record c {
  interrupt_disabled = if was_off r c.lock_layer then 1 else 0;
  lock_layer = (c.lock_layer + 1) % 2 ^ 32;
}

abbrev pub pushed_regs : Regs → ℕ → Regs
pushed_regs r layer =
    if layer == 0 then write_sstatus (bit_or (read_sstatus r) (2 ^ 64 - 1 - sstatus_sie)) r else r

unfoldable pub push_inter_off : ℕ → Hart → Hart
push_inter_off tp h =
    let (id, r) = read_tp tp h.regs in
    let c = cpu_at id h in
    record { regs = pushed_regs r c.lock_layer; cpus = set h.cpus id (pushed_cpu r c) }

-- the entry of `cpus` and the registers that `pop_inter_off` leaves
abbrev pub popped_cpu : Cpu → Cpu
popped_cpu c = record c { lock_layer = (c.lock_layer + 2 ^ 32 - 1) % 2 ^ 32 }

abbrev pub popped_regs : Regs → Cpu → Regs
popped_regs r c =
    if c.lock_layer == 0 && c.interrupt_disabled == 0
    then write_sstatus (bit_or (read_sstatus r) sstatus_sie) r
    else r

unfoldable pub pop_inter_off : ℕ → Hart → Hart
pop_inter_off tp h =
    let (id, r) = read_tp tp h.regs in
    let c = popped_cpu (cpu_at id h) in record { regs = popped_regs r c; cpus = set h.cpus id c }

-- `lock->available`
abbrev pub SpinLock : Type 0
SpinLock = ℕ

abbrev pub spinlock_init : SpinLock → SpinLock
spinlock_init lock = 1

-- `__sync_lock_test_and_set`: the old value, and the new one in its place
abbrev pub test_and_set : SpinLock → ℕ → ℕ × SpinLock
test_and_set old new = (old, new)

-- `acquire` with nothing else running: interrupts are pushed off, and one exchange decides. If it
-- yields 0 the loop exchanges 0 for 0 for ever, and the call does not return.
unfoldable pub acquire : ℕ → SpinLock × Hart → Option (SpinLock × Hart)
acquire id (lock, h) =
    let h1 = push_inter_off id h in
    let (old, lock1) = test_and_set lock 0 in if old == 0 then none else some (lock1, h1)

unfoldable pub release : ℕ → SpinLock × Hart → SpinLock × Hart
release id (lock, h) = let (_, lock1) = test_and_set lock 1 in (lock1, pop_inter_off id h)
