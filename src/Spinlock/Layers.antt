-- ===== src/Spinlock/Layers.antt =====
-- `push_inter_off` and `pop_inter_off`: the counter of one hart and its interrupt enable bit.
use raynix.Base.{
  ℕ, zero, suc, ◌+◌, ◌-◌, ◌^◌, ◌<◌, ◌≡◌, ◌&&◌, arith, bit_or, ◌==◌, if◌then◌else◌, length,
  length-set, get_or-set_self, leb,
}
use raynix.Base.Bits.{bit, bit-bit_or, bit_and-zero}
use raynix.Layout.{sstatus_sie}
use raynix.Riscv.{Regs}
use raynix.Spinlock.{
  Hart, cpu_at, zero_cpu, was_off, pushed_cpu, popped_cpu, push_inter_off, pop_inter_off,
}

-- Hart `id` with `layer` locks, the flag `interrupt_disabled`, and the bit SIE of `sstatus`.
pub record IsAt (id layer disabled sie : ℕ) (h : Hart) : Type 0 where
  pub inside : id < length h.cpus
  pub layers : (cpu_at id h).lock_layer ≡ layer
  pub flag : (cpu_at id h).interrupt_disabled ≡ disabled
  pub enable : bit h.regs.sstatus 1 ≡ sie

-- bit 1 of the two values that the functions write
pub mask-bit : (x : ℕ) → bit (bit_or x (2 ^ 64 - 1 - sstatus_sie)) 1 ≡ bit x 1
mask-bit x = omega (arith, bit-bit_or 1 x (2 ^ 64 - 1 - sstatus_sie))

pub enable-bit : (x : ℕ) → bit (bit_or x sstatus_sie) 1 ≡ 1
enable-bit x = omega (arith, bit-bit_or 1 x sstatus_sie)

-- The test of `push_inter_off` asks for the layer alone.
was_off_lem : (r : Regs) (layer : ℕ) → was_off r layer ≡ (layer == 0)
was_off_lem r layer = ground (arith, bit_and-zero r.sstatus r.sstatus)

module _ {id : ℕ} {h : Hart} where
  -- One more layer; the flag is set at the first layer and cleared at every other, and the
  -- interrupt enable bit stays as it was.
  pub push-IsAt :
      {layer disabled sie : ℕ}
      → IsAt id layer disabled sie h
      → layer + 1 < 2 ^ 32
      → IsAt id (layer + 1) (if layer == 0 then 1 else 0) sie (push_inter_off id h)
  unfolding push_inter_off
  push-IsAt a small = ground (
    arith,
    mask-bit h.regs.sstatus,
    was_off_lem (record h.regs { tp = id }) (cpu_at id h).lock_layer,
    length-set h.cpus id (pushed_cpu (record h.regs { tp = id }) (cpu_at id h)),
    get_or-set_self h.cpus id (pushed_cpu (record h.regs { tp = id }) (cpu_at id h)) zero_cpu,
  )

  -- One layer less; if it was the last and the flag is clear, interrupts are enabled.
  pub pop-IsAt :
      {layer disabled sie : ℕ}
      → IsAt id (suc layer) disabled sie h
      → suc layer < 2 ^ 32
      → IsAt id layer disabled (if layer == 0 && disabled == 0 then 1 else sie) (pop_inter_off id h)
  unfolding pop_inter_off
  pop-IsAt a small = ground (
    arith,
    enable-bit h.regs.sstatus,
    length-set h.cpus id (popped_cpu (cpu_at id h)),
    get_or-set_self h.cpus id (popped_cpu (cpu_at id h)) zero_cpu,
  )

-- `n` calls in a row
pub pushes : ℕ → ℕ → Hart → Hart
pushes zero id h = h
pushes (suc n) id h = push_inter_off id (pushes n id h)

pub pops : ℕ → ℕ → Hart → Hart
pops zero id h = h
pops (suc n) id h = pops n id (pop_inter_off id h)

-- the flag after `n` calls of `push_inter_off`, the first at layer 0 with the flag at `disabled`
abbrev pub flag_after : ℕ → ℕ → ℕ
flag_after n disabled = if n == 0 then disabled else if n == 1 then 1 else 0

pushes-IsAt :
    (n : ℕ) {id disabled sie : ℕ} {h : Hart}
    → IsAt id 0 disabled sie h
    → n < 2 ^ 32
    → IsAt id n (flag_after n disabled) sie (pushes n id h)
unfolding pushes
pushes-IsAt zero a small = a
pushes-IsAt (suc n) a small = ground (arith, push-IsAt (pushes-IsAt n a (omega arith)))

pops-IsAt :
    (n : ℕ) {id disabled sie : ℕ} {h : Hart}
    → IsAt id n disabled sie h
    → n < 2 ^ 32
    → IsAt id 0 disabled (if n == 0 then sie else if disabled == 0 then 1 else sie) (pops n id h)
unfolding pops
pops-IsAt zero a small = a
pops-IsAt (suc n) {id} {disabled} {sie} a small =
    ground (arith, pops-IsAt n (pop-IsAt a small) (omega arith))

-- After `n` calls of `push_inter_off` from layer 0 and `n` of `pop_inter_off`, with `n` below 2
-- ^ 32, the hart is back at layer 0. The interrupt enable bit is what it was before if `n` is 0
-- or 1, and is set if `n` is 2 or more, whatever it was before.
pub pops-pushes :
    (n : ℕ) {id disabled sie : ℕ} {h : Hart}
    → IsAt id 0 disabled sie h
    → n < 2 ^ 32
    → IsAt id 0 (flag_after n disabled) (if leb n 1 then sie else 1) (pops n id (pushes n id h))
pops-pushes n a small = ground (arith, pops-IsAt n (pushes-IsAt n a small) small)
