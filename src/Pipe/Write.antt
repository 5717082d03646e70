-- ===== src/Pipe/Write.antt =====
-- `pipe_write` into a pipe with room: what it puts into the buffer, and where.
use raynix.Base.{ℕ, suc, ◌+◌, ◌%◌, ◌^◌, ◌<◌, ◌≤◌, ◌≡◌, sym, ap, ◌∙◌, ◌≢◌, some, arith}
use raynix.Spinlock.{cpu_at, push_inter_off, release}
use raynix.Spinlock.Layers.{IsAt}
use raynix.Spinlock.Lock.{acquire-free}
use raynix.Proc.Locks.{pushed-IsAt, push-Keeps}
use raynix.Pipe.{unlock_pipe, Pipe, World, finished, pipesize, pipe_write}
use raynix.Pipe.Put.{IsMappedBeside, Runs, write_loop-IsPut}

-- What a call puts into the pipe: the characters behind the write cursor, and nothing else.
abbrev pub Writes : ℕ → ℕ → ℕ → ℕ → ℕ → (ℕ → ℕ) → World → Type 0
Writes id cur pi start n pa w =
    (w' : World) × (pipe_write id pi cur start n w ≡ some (finished, w'))
    × ((j : ℕ)
        → j < n
        → w'.pipe.buffer ((w.pipe.write_cursor + 1 + j) % pipesize) ≡ w.kmem.mem (pa j))
    × ((t : ℕ)
        → ((j : ℕ) → j < n → t ≢ (w.pipe.write_cursor + 1 + j) % pipesize)
        → w'.pipe.buffer t ≡ w.pipe.buffer t)
    × (w'.pipe ≡ record w.pipe {
      pipe_lock = 1;
      write_cursor = w.pipe.write_cursor + n;
      buffer = w'.pipe.buffer;
    })
    × ((b : ℕ) → b ≢ cur → w'.kmem.mem b ≡ w.kmem.mem b)

-- What a call of `pipe_write` by process `k` finds: the locks free, the pipe open to its reader, and
-- `n` characters mapped.
pub record CanWrite (id k cur pi start n : ℕ) (pa : ℕ → ℕ) (w : World) : Type 0 where
  pub running_at : (d : ℕ) × (sie : ℕ) × IsAt id 0 d sie w.table.hart
  pub own : (cpu_at id w.table.hart).cur_proc ≡ suc k
  pub unlocked : (j : ℕ) → j < 64 → (w.table.procs j).lock ≢ 0
  pub free : w.pipe.pipe_lock ≢ 0
  pub readable : w.pipe.readable ≢ 0
  pub mapped : IsMappedBeside w.kmem.mem (w.table.procs k).pagetable start n cur pa

write-Writes :
    (id k cur pi start n : ℕ) (pa : ℕ → ℕ) (w : World)
    → CanWrite id k cur pi start n pa w
    → w.pipe.write_cursor + n < 2 ^ 32
    → n ≤ pipesize
    → ((j : ℕ) → j < n → (w.pipe.write_cursor + 1 + j) % pipesize ≢ w.pipe.read_cursor)
    → Writes id cur pi start n pa w
unfolding pipe_write release
write-Writes id k cur pi start n pa w c small turn room =
    let (d, sie, a) = c.running_at in
    let w1 = record w {
      pipe = record w.pipe { pipe_lock = 0 };
      table = record w.table { hart = push_inter_off id w.table.hart };
    } in
    let r : Runs id k 1 sie cur w1.table.hart = record {
      level = (1, pushed-IsAt a (omega arith));
      own = (push-Keeps id w.table.hart a.inside).same_proc ∙ c.own;
    } in
    let (w2, w3, e, p, f, same) =
      write_loop-IsPut id k 1 sie cur pi start n 0 pa w1 r (omega arith) c.readable small turn room
        c.unlocked (λ i lt. c.mapped i (omega arith)) in
    let buffer : w3.pipe.buffer ≡ w2.pipe.buffer = ap (λ (t : World). t.pipe.buffer) f in
    (
      unlock_pipe id w3,
      rw (acquire-free id w.pipe.pipe_lock w.table.hart c.free) e,
      (λ j lt.
          ap (λ g. g ((w.pipe.write_cursor + 1 + j) % pipesize)) buffer
          ∙ p.stored j lt
          ∙ ap (λ t. w.kmem.mem (pa t)) (omega arith)),
      (λ t ne. ap (λ g. g t) buffer ∙ p.kept t ne),
      ap (λ (t : World). record t.pipe { pipe_lock = 1 }) f
          ∙ ap (λ (t : Pipe). record t { pipe_lock = 1 }) p.pipe
          ∙ ap
              (λ g. record w.pipe {
                pipe_lock = 1;
                write_cursor = w.pipe.write_cursor + n;
                buffer = g;
              })
              (sym buffer),
      (λ b ne. ap (λ (t : World). t.kmem.mem b) f ∙ p.memory b ne),
    )

-- A process on its hart calls `pipe_write`, with no lock held, the lock of the pipe free and no process
-- locked; the pipe is open to its reader (`readable` is not 0), and its characters are mapped, at places
-- apart from the local variable of the call. With the read cursor inside the first turn of the buffer,
-- and fewer unread and new characters than slots, the call then returns with its characters in the
-- slots behind the write cursor, in order, and every other slot as it was.
pub pipe_write-stores :
    (id k cur pi start n : ℕ) (pa : ℕ → ℕ) (w : World)
    → CanWrite id k cur pi start n pa w
    → w.pipe.read_cursor < pipesize
    → w.pipe.read_cursor ≤ w.pipe.write_cursor
    → w.pipe.write_cursor + n < w.pipe.read_cursor + pipesize
    → Writes id cur pi start n pa w
pipe_write-stores id k cur pi start n pa w c turn le room =
    write-Writes id k cur pi start n pa w c (omega arith) (omega arith) (λ j lt e. omega arith)

-- A process on its hart calls `pipe_write`, with no lock held, the lock of the pipe free and no process
-- locked; the pipe is open to its reader (`readable` is not 0), and its characters, at most 512, are
-- mapped, at places apart from the local variable of the call. Once the read cursor has left the
-- first turn of the buffer, and while the write cursor does not pass 2 ^ 32, the call returns with its
-- characters in the slots behind the write cursor, also where those hold unread ones.
pub pipe_write-overruns :
    (id k cur pi start n : ℕ) (pa : ℕ → ℕ) (w : World)
    → CanWrite id k cur pi start n pa w
    → pipesize ≤ w.pipe.read_cursor
    → n ≤ pipesize
    → w.pipe.write_cursor + n < 2 ^ 32
    → Writes id cur pi start n pa w
pipe_write-overruns id k cur pi start n pa w c past turn small =
    write-Writes id k cur pi start n pa w c small turn (λ j lt e. omega arith)
