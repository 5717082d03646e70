-- ===== src/Pipe.antt =====
-- kernel/pipe.c. Lengths are not negative. `PIPESIZE` is 512: its definition has a stray `=`. A call
-- is cut where it sleeps; a call that does not go on is `none`.
pub mod Put
pub mod Write
use raynix.Base.{
  ℕ, zero, suc, ◌+◌, ◌-◌, ◌%◌, ◌^◌, Bool, true, false, not, ◌&&◌, Option, none, some, ◌>>=◌, ◌==◌,
  if◌then◌else◌, put,
}
use raynix.Memory.{Addr}
use raynix.Spinlock.{SpinLock, acquire, release}
use raynix.Kalloc.{Kmem}
use raynix.Vm.{copy_in, copy_out}
use raynix.Proc.{Table, cur_proc, deref, wakeup, sleep, sleep_back}

abbrev pub pipesize : ℕ
pipesize = 512

pub record Pipe : Type 0 where
  pub pipe_lock : SpinLock
  pub buffer : ℕ → ℕ
  pub read_cursor : ℕ
  pub write_cursor : ℕ
  pub writeable : ℕ
  pub readable : ℕ

-- `& pi -> read_cursor` and `& pi -> write_cursor`: behind the lock and the buffer
abbrev pub read_channel : Addr → ℕ
read_channel pi = pi + 4 + pipesize

abbrev pub write_channel : Addr → ℕ
write_channel pi = pi + 4 + pipesize + 4

-- A pipe, the process table and the memory. The hart is that of the table.
pub record World : Type 0 where
  pub pipe : Pipe
  pub table : Table
  pub kmem : Kmem

-- a call on the memory, by the hart of the table
abbrev pub on_memory : World → (Kmem → Option Kmem) → Option World
on_memory w f = do
  k ← f (record w.kmem { hart = w.table.hart })
  some (record w { table = record w.table { hart = k.hart }; kmem = k })

abbrev pub lock_pipe : ℕ → World → Option World
lock_pipe id w = do
  (lock, hart) ← acquire id (w.pipe.pipe_lock, w.table.hart)
  some (record w {
    pipe = record w.pipe { pipe_lock = lock };
    table = record w.table { hart = hart };
  })

abbrev pub unlock_pipe : ℕ → World → World
unlock_pipe id w =
    let (lock, hart) = release id (w.pipe.pipe_lock, w.table.hart) in
    record w { pipe = record w.pipe { pipe_lock = lock }; table = record w.table { hart = hart } }

abbrev pub wake : ℕ → ℕ → World → Option World
wake id channel w = do t ← wakeup id channel w.table; some (record w { table = t })

-- `sleep` on the lock of the pipe, up to the switch
abbrev pub sleep_on : ℕ → ℕ → World → Option World
sleep_on id channel w = do
  (gone, lock, t) ← sleep id channel w.pipe.pipe_lock w.table
  some (record w { pipe = record w.pipe { pipe_lock = lock }; table = t })

-- How a call ends, or where it sleeps: in round `i` of its loop.
pub data End : Type 0 where
  finished : End
  closed : End
  asleep : (i : ℕ) → End

-- the branch with room in the buffer; `cur` is the address of the local variable
unfoldable pub put_char : ℕ → Addr → ℕ → World → Option World
put_char id cur addr w = do
  let wc = (w.pipe.write_cursor + 1) % 2 ^ 32
  let (p, hart) = cur_proc id w.table.hart
  let w1 = record w {
    pipe = record w.pipe { write_cursor = wc };
    table = record w.table { hart = hart };
  }
  k ← deref p
  w2 ← on_memory w1 (copy_in id (w1.table.procs k).pagetable cur addr 1)
  some (record w2 {
    pipe = record w2.pipe { buffer = put w2.pipe.buffer (wc % pipesize) (w2.kmem.mem cur) };
  })

abbrev pub is_full : Pipe → Bool
is_full p = (p.write_cursor + 1) % 2 ^ 32 % pipesize == p.read_cursor

-- the loop of `pipe_write`, with `n` rounds left from `i` on, and what follows it
unfoldable pub write_loop : ℕ → Addr → Addr → ℕ → ℕ → ℕ → World → Option (End × World)
write_loop id pi cur start zero i w = do
  w1 ← wake id (read_channel pi) w
  some (finished, unlock_pipe id w1)
write_loop id pi cur start (suc n) i w = do
  let rest = (do
    w1 ← put_char id cur ((start + i) % 2 ^ 64) w
    write_loop id pi cur start n (i + 1) w1)
  if w.pipe.readable == 0
      then some (closed, unlock_pipe id w)
      else if is_full w.pipe
      then (do
        w1 ← wake id (read_channel pi) w
        w2 ← sleep_on id (write_channel pi) w1
        some (asleep i, w2))
      else rest

unfoldable pub pipe_write : ℕ → Addr → Addr → ℕ → ℕ → World → Option (End × World)
pipe_write id pi cur start len w = do w1 ← lock_pipe id w; write_loop id pi cur start len 0 w1

-- The rest of a `pipe_write` that slept in round `i`, as process `k`: the round is over.
unfoldable pub pipe_write_back : ℕ → Addr → Addr → ℕ → ℕ → ℕ → ℕ → World → Option (End × World)
pipe_write_back id pi cur start len k i w = do
  (lock, t) ← sleep_back id k w.pipe.pipe_lock w.table
  write_loop id pi cur start (len - (i + 1)) (i + 1)
      (record w { pipe = record w.pipe { pipe_lock = lock }; table = t })

-- one round of the second loop of `pipe_read`, with the arguments of `copy_out` as they stand
unfoldable pub get_char : ℕ → ℕ → ℕ → World → Option World
get_char id pagetable target w =
    let p = w.pipe in
    let cur = p.buffer (p.read_cursor % pipesize) in
    let w1 = record w { pipe = record p { read_cursor = (p.read_cursor + 1) % 2 ^ 32 } } in
    on_memory w1 (copy_out id pagetable target cur 1)

unfoldable pub read_loop : ℕ → ℕ → ℕ → ℕ → ℕ → World → Option World
read_loop id pagetable target zero i w = some w
read_loop id pagetable target (suc n) i w =
    let rest = (do
      w1 ← get_char id pagetable ((target + i) % 2 ^ 64) w
      read_loop id pagetable target n (i + 1) w1) in
    if w.pipe.read_cursor == w.pipe.write_cursor then some w else rest

-- With the lock held: the first loop of `pipe_read` up to a sleep, or else the rest of the call. The
-- value that the call returns is that of a variable which is never assigned.
unfoldable pub read_rest : ℕ → Addr → ℕ → ℕ → ℕ → World → Option (End × World)
read_rest id pi pagetable target len w =
    if (w.pipe.read_cursor == w.pipe.write_cursor) && not (w.pipe.writeable == 0)
    then (do w1 ← sleep_on id (read_channel pi) w; some (asleep 0, w1))
    else (do
      w1 ← read_loop id pagetable target len 0 w
      w2 ← wake id (write_channel pi) w1
      some (finished, unlock_pipe id w2))

unfoldable pub pipe_read : ℕ → Addr → ℕ → ℕ → World → Option (End × World)
pipe_read id pi target len w = do
  let (p, hart) = cur_proc id w.table.hart
  k ← deref p
  w1 ← lock_pipe id (record w { table = record w.table { hart = hart } })
  read_rest id pi (w1.table.procs k).pagetable target len w1

-- The rest of a `pipe_read` that slept, as process `k`.
unfoldable pub pipe_read_back : ℕ → Addr → ℕ → ℕ → ℕ → World → Option (End × World)
pipe_read_back id pi target len k w = do
  (lock, t) ← sleep_back id k w.pipe.pipe_lock w.table
  let w1 = record w { pipe = record w.pipe { pipe_lock = lock }; table = t }
  read_rest id pi (w1.table.procs k).pagetable target len w1
