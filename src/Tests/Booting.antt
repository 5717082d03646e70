-- ===== src/Tests/Booting.antt =====
-- kernel/start.c on a hart that starts in machine mode.
use raynix.Base.{◌≡◌, arith}
use raynix.Layout.{Symbols}
use raynix.Boot.{Machine, start}
use raynix.Boot.Laws.{IsBooted, start-IsBooted, start-privilege}
use raynix.Tests.{regs, blank}

abbrev pub linked : Symbols
linked = record {
  main = 0x80000100;
  ttraph = 0x80000200;
  ktraph = 0x80000300;
  timer_scratch = 0x80008000;
  etext = 0x80007000;
  trampoline = 0x80006000;
  uservec = 0x80006000;
  userret = 0x80006090;
  user_trap = 0x80000400;
}

abbrev reset : Machine
reset = record { regs = regs; mem = blank }

start-IsBooted_example : IsBooted linked reset (start linked reset)
start-IsBooted_example = start-IsBooted linked reset (omega arith) (omega arith)

start-privilege_example : (start linked reset).privilege ≡ 0
start-privilege_example = start-privilege linked reset
