-- ===== src/Boot.antt =====
-- kernel/start.c: what a hart does in machine mode before `mret` takes it to `main`.
pub mod Laws
use raynix.Base.{ℕ, ◌+◌, ◌-◌, ◌*◌, ◌/◌, ◌%◌, ◌^◌, bit_and, bit_or}
use raynix.Layout.{Symbols, mie_mtie, clint_mtime, clint_mtimecmp}
use raynix.Memory.{Memory, load64, store64}
use raynix.Riscv.{
  Regs, read_mstatus, write_mstatus, write_mepc, write_satp, read_mhartid, write_tp, write_mscratch,
  write_mtvec, read_mie, write_mie,
}

-- A hart with the memory that it sees; the registers of the CLINT are words of that memory.
pub record Machine : Type 0 where
  pub regs : Regs
  pub mem : Memory

abbrev pub delay : ℕ
delay = 1_000_000

-- `timer_scratch[core_id]`, a row of five words
abbrev pub scratch_row : Symbols → ℕ → ℕ
scratch_row sym core_id = sym.timer_scratch + 8 * 5 * core_id

unfoldable pub timer_inter_init : Symbols → Machine → Machine
timer_inter_init sym s =
    let core_id = read_mhartid s.regs in
    let mtime_since_boot = load64 s.mem clint_mtime in
    let mem1 = store64 s.mem (clint_mtimecmp core_id) ((mtime_since_boot + delay) % 2 ^ 64) in
    let mem2 = store64 mem1 (scratch_row sym core_id + 8 * 3) (clint_mtimecmp core_id) in
    let mem3 = store64 mem2 (scratch_row sym core_id + 8 * 4) delay in
    let r1 = write_mscratch (scratch_row sym core_id) s.regs in
    let r2 = write_mtvec sym.ttraph r1 in
    let r3 = write_mstatus (bit_or (read_mie r2) (2 ^ 3)) r2 in
    let r4 = write_mie (bit_or (read_mie r3) mie_mtie) r3 in record { regs = r4; mem = mem3 }

-- What `mret` does: it goes to `mepc`, at the privilege that MPP, the two bits of `mstatus` from bit 11
-- on, names (0 user, 1 supervisor, 3 machine); in `mstatus` MIE (bit 3) becomes MPIE (bit 7), MPIE
-- becomes 1 and MPP becomes 0.
pub record Resumed : Type 0 where
  pub machine : Machine
  pub pc : ℕ
  pub privilege : ℕ

-- `mstatus` after `mret`
abbrev pub after_mret : ℕ → ℕ
after_mret mstatus =
    bit_or (bit_and mstatus (2 ^ 64 - 1 - 2 ^ 3 - 3 * 2 ^ 11)) (2 ^ 7 + mstatus / 2 ^ 7 % 2 * 2 ^ 3)

abbrev pub mret : Machine → Resumed
mret s = record {
  machine = record s { regs = write_mstatus (after_mret (read_mstatus s.regs)) s.regs };
  pc = s.regs.mepc;
  privilege = s.regs.mstatus / 2 ^ 11 % 4;
}

-- `mstatus` with the previous privilege replaced by supervisor
abbrev pub to_supervisor : ℕ → ℕ
to_supervisor mstatus = bit_or (bit_and mstatus (2 ^ 64 - 1 - 3 * 2 ^ 11)) (2 ^ 11)

unfoldable pub start : Symbols → Machine → Resumed
unfolding timer_inter_init
start sym s =
    let mstatus = read_mstatus s.regs in
    let r1 = write_mstatus (to_supervisor mstatus) s.regs in
    let r2 = write_mepc sym.main r1 in
    let r3 = write_satp 0 r2 in
    let s4 = timer_inter_init sym (record s { regs = r3 }) in
    let r5 = write_tp (read_mhartid s4.regs) s4.regs in mret (record s4 { regs = r5 })
