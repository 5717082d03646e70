-- ===== src/Tests/Logs.antt =====
-- kernel/log.c with an empty log and one process.
use raynix.Base.{refl, ◌≢◌, arith, some}
use raynix.Log.{Logged, admitted, begain_op, begain_op_back}
use raynix.Log.Never.{here, elsewhere, begain_op-never}
use raynix.Tests.Procs.{asleep_and_ready}

abbrev empty : Logged
empty = record {
  log = record {
    splk = 1;
    head = record { block_size = 0; block = λ i. 0 };
    is_committing = 0;
    on_excuting = 0;
  };
  table = asleep_and_ready;
}

-- The log with seven blocks and a commit on its way, after other work.
abbrev busy : Logged
busy = record empty {
  log = record empty.log { is_committing = 1; head = record { block_size = 7; block = λ i. 0 } };
}

begain_op-never_example :
    (begain_op 1 0x9000 10 busy ≢ some (admitted, empty))
    × (begain_op_back 1 0x9000 10 0 busy ≢ some (admitted, empty))
begain_op-never_example =
    begain_op-never 1 0 0x9000 10 30 empty busy empty (omega arith) (omega arith) refl (omega arith)
      (elsewhere 1 (record { block_size = 7; block = λ i. 0 }) 1 asleep_and_ready here
        (omega arith))
