-- ===== src/Boot/Laws.antt =====
-- The registers and words that `start` leaves.
use raynix.Base.{
  ℕ, ◌+◌, ◌-◌, ◌*◌, ◌/◌, ◌%◌, ◌^◌, ◌≤◌, ◌<◌, ◌≡◌, refl, ◌∙◌, inl, arith, bit_and, bit_or,
}
use raynix.Base.Bits.{bit, bit-bit_or, bit-bit_and}
use raynix.Layout.{Symbols, kernbase, clint_mtime, clint_mtimecmp}
use raynix.Memory.{load64, store64}
use raynix.Memory.Words.{load64-store64_self, load64-store64_apart}
use raynix.Boot.{Machine, Resumed, start, delay, scratch_row, to_supervisor}

-- The value that `start` computes for `mstatus` names supervisor mode as the previous privilege.
pub to_supervisor-privilege : (x : ℕ) → to_supervisor x / 2 ^ 11 % 4 ≡ 1
to_supervisor-privilege x = omega (
  arith,
  bit-bit_or 11 (bit_and x (2 ^ 64 - 1 - 3 * 2 ^ 11)) (2 ^ 11),
  bit-bit_or 12 (bit_and x (2 ^ 64 - 1 - 3 * 2 ^ 11)) (2 ^ 11),
  bit-bit_and 12 x (2 ^ 64 - 1 - 3 * 2 ^ 11),
)

-- The privilege to which the `mret` of `start` takes the hart is what bits 11 and 12 of `mie` name when
-- `start` begins, and not the supervisor mode that `start` has set in `mstatus`.
pub start-privilege :
    (sym : Symbols) (s : Machine) → (start sym s).privilege ≡ s.regs.mie / 2 ^ 11 % 4
unfolding start
start-privilege sym s = omega (arith, bit-bit_or 11 s.regs.mie 8, bit-bit_or 12 s.regs.mie 8)

-- What `start` sets up for the timer handler and for `main`.
pub record IsBooted (sym : Symbols) (before : Machine) (after : Resumed) : Type 0 where
  pub at_main : after.pc ≡ sym.main
  pub unpaged : after.machine.regs.satp ≡ 0
  pub hart : after.machine.regs.tp ≡ before.regs.mhartid
  pub handler : after.machine.regs.mtvec ≡ sym.ttraph
  pub scratch : after.machine.regs.mscratch ≡ scratch_row sym before.regs.mhartid
  pub enabled :
      (bit after.machine.regs.mie 7 ≡ 1)
      × (bit after.machine.regs.mstatus 3 ≡ bit before.regs.mie 7)
  pub alarm :
      load64 after.machine.mem (clint_mtimecmp before.regs.mhartid)
      ≡ (load64 before.mem clint_mtime + delay) % 2 ^ 64
  pub compare_at :
      load64 after.machine.mem (scratch_row sym before.regs.mhartid + 24)
      ≡ clint_mtimecmp before.regs.mhartid
  pub period : load64 after.machine.mem (scratch_row sym before.regs.mhartid + 32) ≡ delay

-- With `timer_scratch` in RAM and at most eight harts, `start` leaves the hart with `mret` going
-- to `main`, paging off, `tp` holding the hart's number, timer interrupts enabled in `mie`, the first
-- alarm one delay after now, and the scratch row holding the address of the compare register and the
-- delay. The bit MIE of `mstatus`, which `start` sets, is after the `mret` the bit of `mie` for timer
-- interrupts from before, since `start` writes `mie` into `mstatus` and `mret` sets MIE from bit 7.
pub start-IsBooted :
    (sym : Symbols) (s : Machine)
    → kernbase ≤ sym.timer_scratch
    → s.regs.mhartid < 8
    → IsBooted sym s (start sym s)
unfolding start
start-IsBooted sym s ram few = record {
  at_main = refl;
  unpaged = refl;
  hart = refl;
  handler = refl;
  scratch = refl;
  enabled = (
    omega (arith, bit-bit_or 7 s.regs.mie (2 ^ 7)),
    omega (
      arith,
      bit-bit_or 3 (bit_and old (2 ^ 64 - 1 - 2 ^ 3 - 3 * 2 ^ 11)) (2 ^ 7 + bit old 7 * 2 ^ 3),
      bit-bit_and 3 old (2 ^ 64 - 1 - 2 ^ 3 - 3 * 2 ^ 11),
      bit-bit_or 7 s.regs.mie (2 ^ 3),
    ),
  );
  alarm =
      load64-store64_apart mem2 (row + 32) delay cmp (inl (omega arith))
      ∙ load64-store64_apart mem1 (row + 24) cmp cmp (inl (omega arith))
      ∙ load64-store64_self s.mem cmp at (omega arith);
  compare_at =
      load64-store64_apart mem2 (row + 32) delay (row + 24) (inl (omega arith))
      ∙ load64-store64_self mem1 (row + 24) cmp (omega arith);
  period = load64-store64_self mem2 (row + 32) delay (omega arith);
}
  where
    -- `mstatus` before the `mret`
    old : ℕ
    old = bit_or s.regs.mie (2 ^ 3)

    row : ℕ
    row = scratch_row sym s.regs.mhartid

    cmp : ℕ
    cmp = clint_mtimecmp s.regs.mhartid

    at : ℕ
    at = (load64 s.mem clint_mtime + delay) % 2 ^ 64

    mem1 : ℕ → ℕ
    mem1 = store64 s.mem cmp at

    mem2 : ℕ → ℕ
    mem2 = store64 mem1 (row + 24) cmp
