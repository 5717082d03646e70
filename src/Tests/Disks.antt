-- ===== src/Tests/Disks.antt =====
-- kernel/virtio_disk.c with four descriptors, all free.
use raynix.Base.{
  ℕ, zero, suc, ◌+◌, ◌-◌, ◌*◌, ◌%◌, ◌^◌, ◌≤◌, refl, arith, true, [], ◌∷◌, get_or, replicate,
}
use raynix.Virtio.{Config, Disk, zero_desc, zero_info}
use raynix.Virtio.Request.{submit}
use raynix.Virtio.Interrupt.{intr_loop}
use raynix.Virtio.Alloc.{taken3, IsSound, IsTriple}
use raynix.Virtio.Submit.{HasFlags}
use raynix.Virtio.Drain.{DrainEnd, intr_loop-drains}
use raynix.Tests.{hart}

abbrev pub four : Config
four = record {
  num = 4;
  f_next = 1;
  f_write = 2;
  t_in = 0;
  t_out = 1;
  bsize = 1024;
  req_size = 16;
  op_addr = λ i. 0x1000 + 16 * i;
  status_addr = λ i. 0x2000 + 16 * i;
  data_addr = λ b. b;
  block_no = λ b. b % 100;
}

abbrev pub quiet : Disk
quiet = record {
  desc = replicate 4 zero_desc;
  avail_ring = replicate 4 0;
  avail_idx = 0;
  used_ring = replicate 4 0;
  dev_idx = 0;
  free = replicate 4 1;
  used_idx = 0;
  info = replicate 4 zero_info;
  ops = [];
  busy = λ b. 0;
  woken = [];
  notified = 0;
  lock = 1;
  hart = hart;
}

pub four-HasFlags : HasFlags four
four-HasFlags = record { next_is = refl; write_is = refl }

bits4 :
    (a b c d : ℕ) → a ≤ 1 → b ≤ 1 → c ≤ 1 → d ≤ 1 → (i : ℕ) → get_or (a ∷ b ∷ c ∷ d ∷ []) i 0 ≤ 1
bits4 a b c d ha hb hc hd zero = ha
bits4 a b c d ha hb hc hd (suc zero) = hb
bits4 a b c d ha hb hc hd (suc (suc zero)) = hc
bits4 a b c d ha hb hc hd (suc (suc (suc zero))) = hd
bits4 a b c d ha hb hc hd (suc (suc (suc (suc i)))) = omega arith

pub quiet-IsSound : IsSound four quiet
quiet-IsSound = record {
  entries = refl;
  descs = refl;
  binary = λ i h. bits4 1 1 1 1 (omega arith) (omega arith) (omega arith) (omega arith) i;
}

pub quiet-IsTriple : IsTriple four quiet 0 1 2
quiet-IsTriple = record {
  in_range = (omega arith, omega arith, omega arith);
  distinct = ((λ e. omega arith), (λ e. omega arith), (λ e. omega arith));
  were_free = ((λ e. omega arith), (λ e. omega arith), (λ e. omega arith));
}

-- a write of buffer 0x500 on the descriptors 0, 1 and 2
abbrev sent : Disk
sent = submit four 0x500 true 0 1 2 (taken3 0 1 2 quiet)

-- The device has answered the request, past the end of its counter.
abbrev answered : Disk
answered = record quiet { used_idx = 2 ^ 16 - 1; dev_idx = 1; busy = λ b. 1 }

intr_loop-drains_example : DrainEnd four 2 answered (intr_loop (2 ^ 16) four answered)
intr_loop-drains_example = intr_loop-drains four answered (omega arith) (omega arith)
