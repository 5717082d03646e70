-- ===== src/Tests/Pipes.antt =====
-- kernel/pipe.c with a page of the process mapped at 0.
use raynix.Base.{ℕ, ◌+◌, ◌/◌, ◌%◌, ◌^◌, ◌<◌, ◌≤◌, ◌≡◌, refl, ap, ◌∙◌, arith, some}
use raynix.Memory.{Memory, load64, store64}
use raynix.Memory.Words.{load64-agree}
use raynix.Vm.Table.{translate}
use raynix.Pipe.{World}
use raynix.Pipe.Write.{CanWrite, Writes, pipe_write-stores, pipe_write-overruns}
use raynix.Tests.Procs.{asleep_and_ready, running_hart-IsAt, all_free}
use raynix.Tests.Tables.{one_mapped}

-- the three entries that lead to the page
entries :
    (load64 one_mapped.mem 4096 ≡ 2049)
    × (load64 one_mapped.mem 8192 ≡ 3073)
    × (load64 one_mapped.mem 12288 ≡ 4103)
unfolding load64 store64
entries = (refl, refl, refl)

-- Whatever memory agrees on the tables maps the page.
mapped_page :
    (m : Memory)
    → ((b : ℕ) → 4096 ≤ b → b < 12296 → m b ≡ one_mapped.mem b)
    → (i : ℕ) → i < 4096
    → translate m 4096 i ≡ some (16384 + i)
mapped_page m same i lt =
    let word : (a v : ℕ) → 4096 ≤ a → a < 12289 → load64 one_mapped.mem a ≡ v → load64 m a ≡ v =
      λ a v lo hi e.
        load64-agree m one_mapped.mem a (λ b l h. same b (omega arith) (omega arith)) ∙ e in
    let top : i / 2 ^ 30 % 512 ≡ 0 = omega arith in
    let mid : i / 2 ^ 21 % 512 ≡ 0 = omega arith in
    let low : i / 2 ^ 12 % 512 ≡ 0 = omega arith in
    let in_page : i % 2 ^ 12 ≡ i = omega arith in
    rw (
      top,
      word 4096 2049 (omega arith) (omega arith) entries.0,
      mid,
      word 8192 3073 (omega arith) (omega arith) entries.1,
      low,
      word 12288 4103 (omega arith) (omega arith) entries.2,
      in_page,
    )

-- Eight characters are unread.
abbrev half_full : World
half_full = record {
  pipe = record {
    pipe_lock = 1;
    buffer = λ j. 65;
    read_cursor = 0;
    write_cursor = 8;
    writeable = 1;
    readable = 1;
  };
  table = asleep_and_ready;
  kmem = one_mapped;
}

half_full-CanWrite : CanWrite 1 2 20000 0x2000 5 3 (λ i. 16389 + i) half_full
half_full-CanWrite = record {
  running_at = (0, 1, running_hart-IsAt);
  own = refl;
  unlocked = λ j lt e. omega (arith, all_free j lt);
  free = λ e. omega arith;
  readable = λ e. omega arith;
  mapped = λ i lt m same. (
    ap (translate m 4096) (omega arith)
        ∙ mapped_page m (λ b lo hi. same b (λ e. omega arith)) (5 + i) (omega arith)
        ∙ ap (λ t. some t) (omega arith),
    λ e. omega arith,
  );
}

pipe_write-stores_example : Writes 1 20000 0x2000 5 3 (λ i. 16389 + i) half_full
pipe_write-stores_example =
    pipe_write-stores 1 2 20000 0x2000 5 3 (λ i. 16389 + i) half_full half_full-CanWrite
      (omega arith) (omega arith) (omega arith)

-- The reader has had one turn of the buffer, and there are 510 unread characters.
abbrev read_once : World
read_once = record half_full {
  pipe = record half_full.pipe { read_cursor = 512; write_cursor = 1022 };
}

read_once-CanWrite : CanWrite 1 2 20000 0x2000 5 3 (λ i. 16389 + i) read_once
read_once-CanWrite = record {
  running_at = (0, 1, running_hart-IsAt);
  own = refl;
  unlocked = λ j lt e. omega (arith, all_free j lt);
  free = λ e. omega arith;
  readable = λ e. omega arith;
  mapped = λ i lt m same. (
    ap (translate m 4096) (omega arith)
        ∙ mapped_page m (λ b lo hi. same b (λ e. omega arith)) (5 + i) (omega arith)
        ∙ ap (λ t. some t) (omega arith),
    λ e. omega arith,
  );
}

pipe_write-overruns_example : Writes 1 20000 0x2000 5 3 (λ i. 16389 + i) read_once
pipe_write-overruns_example =
    pipe_write-overruns 1 2 20000 0x2000 5 3 (λ i. 16389 + i) read_once read_once-CanWrite
      (omega arith) (omega arith) (omega arith)
