-- ===== src/Trap.antt =====
-- kernel/trap.c. A process is the index in the table, its trap frame is what its pointer `tf` leads to
-- in `frames`. Names that the file does not declare are read as those they stand for: `sstauts` is
-- `sstatus`, the argument that `kernel_trap` leaves out is `scause`, and the page table that
-- `userret` is called with is that of the process.
pub mod Return
use raynix.Base.{
  ℕ, zero, suc, ◌+◌, ◌-◌, ◌*◌, ◌%◌, ◌^◌, Bool, true, false, not, ◌&&◌, Option, none, some, ◌>>=◌,
  ◌==◌, if◌then◌else◌, bit_and, bit_or, put,
}
use raynix.Layout.{Symbols, sstatus_sie, sstatus_spie, trampoline_va}
use raynix.Riscv.{
  Regs, read_tp, read_sstatus, write_sstatus, write_stvec, read_satp, write_sepc, read_sepc,
  read_scause, check_open_interrupts,
}
use raynix.Spinlock.{Hart, cpu_at}
use raynix.Proc.{Table, Trapframe, deref}

-- `SOFTWARE_INTER` is used by no function.
pub data InterType : Type 0 where
  timer_inter external_inter sys_call : InterType

-- the numbers that stand for them
abbrev pub code : InterType → ℕ
code timer_inter = 1
code external_inter = 2
code sys_call = 3

-- `none` is -1.
unfoldable pub get_inter_type : ℕ → Option InterType
get_inter_type scause =
    if not (bit_and scause (2 ^ 63) == 0) && (bit_and scause 0xff == 9)
    then some external_inter
    else if scause == 2 ^ 63 + 1
    then some timer_inter
    else if scause == 8
    then some sys_call
    else none

-- The table, the trap frames, and the member `kstack` of a process, which `struct proc` lacks.
pub record Machine : Type 0 where
  pub table : Table
  pub frames : ℕ → Trapframe
  pub kstack_of : ℕ → ℕ

abbrev pub set_regs : Regs → Machine → Machine
set_regs r m = record m { table = record m.table { hart = record m.table.hart { regs = r } } }

abbrev pub regs_of : Machine → Regs
regs_of m = m.table.hart.regs

unfoldable pub trap_init : Symbols → Machine → Machine
trap_init sym m = set_regs (write_stvec sym.ktraph (regs_of m)) m

-- No case of the `switch` has a statement yet.
unfoldable pub kernel_trap : Machine → Machine
kernel_trap m =
    let scause = read_scause (regs_of m) in
    if not (check_open_interrupts (regs_of m))
    then elim (get_inter_type scause) [ some timer_inter ↦ m | some external_inter ↦ m | _ ↦ m ]
    else m

-- The process that the hart's entry of `cpus` names.
abbrev pub my_proc : ℕ → Machine → Option (ℕ × Machine)
my_proc id m = do
  let (i, r) = read_tp id (regs_of m)
  let m1 = set_regs r m
  k ← deref (cpu_at i m1.table.hart).cur_proc
  some (k, m1)

-- The frame that `return_2_user` fills: `kernel_trap` twice.
abbrev pub filled_frame : Symbols → ℕ → ℕ → ℕ → Trapframe → Trapframe
filled_frame sym satp stack id tf =
    let tf1 = record tf { kernel_trap = satp } in
    let tf2 = record tf1 { kernel_sp = (stack + 4096) % 2 ^ 64 } in
    let tf3 = record tf2 { kernel_trap = sym.user_trap } in record tf3 { kernel_hartid = id }

-- The last value of `sstatus`.
abbrev pub user_sstatus : ℕ → ℕ
user_sstatus sstatus = bit_or (bit_and sstatus (2 ^ 64 - 1 - 3 * 2 ^ 11)) sstatus_spie

-- Where `return_2_user` jumps, and with which argument.
pub record Jump : Type 0 where
  pub target : ℕ
  pub argument : ℕ

unfoldable pub return_2_user : Symbols → ℕ → Machine → Option (Jump × Machine)
return_2_user sym id m = do
  (k, m1) ← my_proc id m
  let r1 = regs_of m1
  let r2 = write_sstatus (bit_or (read_sstatus r1) (2 ^ 64 - 1 - sstatus_sie)) r1
  let r3 = write_stvec ((trampoline_va + (sym.uservec - sym.trampoline)) % 2 ^ 64) r2
  let p = m1.table.procs k
  let (hartid, r4) = read_tp id r3
  let frame = filled_frame sym (read_satp r3) (m1.kstack_of k) hartid (m1.frames p.tf)
  let r5 = write_sepc frame.epc r4
  let r6 = write_sstatus (user_sstatus (read_sstatus r5)) r5
  some (
    record {
      target = (trampoline_va + (sym.userret - sym.trampoline)) % 2 ^ 64;
      argument = p.pagetable;
    },
    record (set_regs r6 m1) { frames = put m1.frames p.tf frame },
  )

-- The `switch` compares `scause` itself with the numbers of the kinds, and no case has a statement.
unfoldable pub user_trap : Symbols → ℕ → Machine → Option (Jump × Machine)
user_trap sym id m = do
  (k, m1) ← my_proc id (set_regs (write_stvec sym.ktraph (regs_of m)) m)
  let tf = (m1.table.procs k).tf
  let frame = record (m1.frames tf) { epc = read_sepc (regs_of m1) }
  let m2 = record m1 { frames = put m1.frames tf frame }
  let scause = read_scause (regs_of m2)
  let m3 = if scause == code sys_call then m2 else if scause == code timer_inter then m2 else m2
  return_2_user sym id m3
