-- ===== src/Pipe/Put.antt =====
-- The loop of `pipe_write`: the characters that it puts into the buffer, one by one.
use raynix.Base.{
  ℕ, zero, suc, ◌+◌, ◌%◌, ◌^◌, ◌<◌, ◌≤◌, ◌≡◌, refl, sym, ap, subst, ◌∙◌, ◌≢◌, false, some, arith,
  ◌==◌, put,
}
use raynix.Memory.{Addr, Memory}
use raynix.Vm.Table.{translate}
use raynix.Vm.Copy.{copy_in-IsCopied}
use raynix.Spinlock.{cpu_at, push_inter_off, pop_inter_off, Hart}
use raynix.Spinlock.Layers.{IsAt}
use raynix.Proc.Locks.{around-IsAt, around-Keeps, cur_proc_lem}
use raynix.Proc.Wakeup.{wakeup-free}
use raynix.Pipe.{
  unlock_pipe, read_channel, Pipe, World, finished, pipesize, is_full, put_char, write_loop,
}

-- The characters to write lie at `pa 0`, `pa 1` and so on, whatever the local variable at `cur` holds.
abbrev pub IsMappedBeside : Memory → ℕ → ℕ → ℕ → Addr → (ℕ → ℕ) → Type 0
IsMappedBeside m pagetable start n cur pa =
    (i : ℕ)
    → i < n
    → (m' : Memory) → ((b : ℕ) → b ≢ cur → m' b ≡ m b)
    → (translate m' pagetable ((start + i) % 2 ^ 64) ≡ some (pa i)) × (pa i ≢ cur)

-- `w'` is `w` with the `n` characters `src 0`, `src 1` and so on put behind the write cursor.
pub record IsPut (n : ℕ) (src : ℕ → ℕ) (cur : Addr) (w w' : World) : Type 0 where
  pub pipe :
      w'.pipe ≡ record w.pipe { write_cursor = w.pipe.write_cursor + n; buffer = w'.pipe.buffer }
  pub stored : (j : ℕ) → j < n → w'.pipe.buffer ((w.pipe.write_cursor + 1 + j) % pipesize) ≡ src j
  pub kept :
      (t : ℕ)
      → ((j : ℕ) → j < n → t ≢ (w.pipe.write_cursor + 1 + j) % pipesize)
      → w'.pipe.buffer t ≡ w.pipe.buffer t
  pub memory : (b : ℕ) → b ≢ cur → w'.kmem.mem b ≡ w.kmem.mem b
  pub processes : w'.table.procs ≡ w.table.procs

IsPut-none : (src : ℕ → ℕ) (cur : Addr) (w : World) → IsPut 0 src cur w w
IsPut-none src cur w = record {
  pipe = ap (λ c. record w.pipe { write_cursor = c }) (omega arith);
  stored = λ j lt. absurd (omega arith);
  kept = λ t ne. refl;
  memory = λ b ne. refl;
  processes = refl;
}

IsPut-src :
    (n : ℕ) (f g : ℕ → ℕ) (cur : Addr) {u v : World}
    → ((j : ℕ) → j < n → f j ≡ g j)
    → IsPut n f cur u v
    → IsPut n g cur u v
IsPut-src n f g cur same p = record {
  pipe = p.pipe;
  stored = λ j lt. p.stored j lt ∙ same j lt;
  kept = p.kept;
  memory = p.memory;
  processes = p.processes;
}

IsPut-more :
    (n : ℕ) (src : ℕ → ℕ) (cur : Addr) {u v w : World}
    → suc n ≤ pipesize
    → IsPut 1 (λ _. src 0) cur u v
    → IsPut n (λ j. src (suc j)) cur v w
    → IsPut (suc n) src cur u w
IsPut-more n src cur {u} {v} {w} turn p q =
    let wc : v.pipe.write_cursor ≡ u.pipe.write_cursor + 1 =
      ap (λ (p : Pipe). p.write_cursor) p.pipe in
    let base = u.pipe.write_cursor in
    record {
      pipe =
          q.pipe
          ∙ ap
              (λ (t : Pipe). record t { write_cursor = t.write_cursor + n; buffer = w.pipe.buffer })
              p.pipe
          ∙ ap (λ c. record u.pipe { write_cursor = c; buffer = w.pipe.buffer }) (omega arith);
      stored = λ j. elim j as (λ j. j < suc n → w.pipe.buffer ((base + 1 + j) % pipesize) ≡ src j) [
        | zero ↦ λ lt.
            q.kept ((base + 1 + 0) % pipesize) (λ i hi e. omega arith) ∙ p.stored 0 (omega arith)
        | suc j ↦
            λ lt. ap (λ t. w.pipe.buffer (t % pipesize)) (omega arith) ∙ q.stored j (omega arith)
      ];
      kept = λ t ne.
          q.kept t (λ j lt e. ne (suc j) (omega arith) (e ∙ ap (λ t. t % pipesize) (omega arith)))
          ∙ p.kept t (λ j lt e. ne 0 (omega arith) (e ∙ ap (λ t. t % pipesize) (omega arith)));
      memory = λ b ne. q.memory b ne ∙ p.memory b ne;
      processes = q.processes ∙ p.processes;
    }

module _ (id k layer sie : ℕ) (cur : Addr) where
  -- the hart of a process that runs
  pub record Runs (h : Hart) : Type 0 where
    pub level : (d : ℕ) × IsAt id layer d sie h
    pub own : (cpu_at id h).cur_proc ≡ suc k

  put_char-IsPut :
      (addr pa : ℕ) (w : World)
      → Runs w.table.hart
      → layer + 1 < 2 ^ 32
      → w.pipe.write_cursor + 1 < 2 ^ 32
      → translate w.kmem.mem (w.table.procs k).pagetable addr ≡ some pa
      → (w' : World) × (put_char id cur addr w ≡ some w')
        × IsPut 1 (λ _. w.kmem.mem pa) cur w w'
        × Runs w'.table.hart
  unfolding put_char
  put_char-IsPut addr pa w r deep small h =
      let h1 = pop_inter_off id (push_inter_off id w.table.hart) in
      let a = r.level.1 in
      let (m, e, c) =
        copy_in-IsCopied id 1 (w.table.procs k).pagetable (record w.kmem { hart = h1 })
          (omega arith) cur addr h in
      let wc = (w.pipe.write_cursor + 1) % 2 ^ 32 in
      (
        record w {
          pipe = record w.pipe {
            write_cursor = wc;
            buffer = put w.pipe.buffer (wc % pipesize) (m.mem cur);
          };
          table = record w.table { hart = m.hart };
          kmem = m;
        },
        rw (cur_proc_lem a deep, r.own, e),
        record {
          pipe =
              ap
                (λ c. record w.pipe {
                  write_cursor = c;
                  buffer = put w.pipe.buffer (wc % pipesize) (m.mem cur);
                })
                (omega arith);
          stored = λ j lt. ground (arith, c.bytes cur);
          kept = λ t ne. ground (arith, ne 0);
          memory = λ b ne. ground (arith, c.bytes b);
          processes = refl;
        },
        record {
          level =
              subst (λ h. (e : ℕ) × IsAt id layer e sie h) (sym c.allocator.2)
                (_, around-IsAt a deep);
          own =
              ap (λ h. (cpu_at id h).cur_proc) c.allocator.2
              ∙ (around-Keeps a deep).same_proc
              ∙ r.own;
        },
      )

  -- The loop puts every character, if it never meets the read cursor and the count stays below a
  -- whole turn of the buffer; then it wakes the readers and gives the lock back.
  pub write_loop-IsPut :
      (pi start n i : ℕ) (pa : ℕ → ℕ) (w : World)
      → Runs w.table.hart
      → layer + 1 < 2 ^ 32
      → w.pipe.readable ≢ 0
      → w.pipe.write_cursor + n < 2 ^ 32
      → n ≤ pipesize
      → ((j : ℕ) → j < n → (w.pipe.write_cursor + 1 + j) % pipesize ≢ w.pipe.read_cursor)
      → ((j : ℕ) → j < 64 → (w.table.procs j).lock ≢ 0)
      → IsMappedBeside w.kmem.mem (w.table.procs k).pagetable start (i + n) cur pa
      → (w1 : World) × (w' : World) × (write_loop id pi cur start n i w
          ≡ some (finished, unlock_pipe id w'))
        × IsPut n (λ j. w.kmem.mem (pa (i + j))) cur w w1
        × (w' ≡ record w1 { table = w'.table })
        × (w'.table.procs ≡ w1.table.procs)
  unfolding write_loop
  write_loop-IsPut pi start zero i pa w r deep readable small turn room free mapped =
      let (t, e, same, level) = wakeup-free id (read_channel pi) w.table r.level.1 deep free in
      (w, record w { table = t }, rw e, IsPut-none _ cur w, refl, same)
  write_loop-IsPut pi start (suc n) i pa w r deep readable small turn room free mapped =
      let open_ : (w.pipe.readable == 0) ≡ false = ground arith in
      let space : is_full w.pipe ≡ false = ground (arith, room 0) in
      let (h, away) = mapped i (omega arith) w.kmem.mem (λ b ne. refl) in
      let (w1, e1, p1, r1) =
        put_char-IsPut ((start + i) % 2 ^ 64) (pa i) w r deep (omega arith) h in
      let wc1 : w1.pipe.write_cursor ≡ w.pipe.write_cursor + 1 =
        ap (λ (p : Pipe). p.write_cursor) p1.pipe in
      let rc1 : w1.pipe.read_cursor ≡ w.pipe.read_cursor =
        ap (λ (p : Pipe). p.read_cursor) p1.pipe in
      let rd1 : w1.pipe.readable ≡ w.pipe.readable = ap (λ (p : Pipe). p.readable) p1.pipe in
      let same1 : (w1.table.procs k).pagetable ≡ (w.table.procs k).pagetable =
        ap (λ f. (f k).pagetable) p1.processes in
      let (w2, w3, e2, p2, f2, s2) =
        write_loop-IsPut pi start n (i + 1) pa w1 r1 deep (omega arith) (omega arith) (omega arith)
          (λ j lt e. room (suc j) (omega arith) (omega arith))
          (λ j lt. subst (λ f. (f j).lock ≢ 0) (sym p1.processes) (free j lt))
          (λ j lt m' agree.
            rw same1 (mapped j (omega arith) m' (λ b ne. agree b ne ∙ p1.memory b ne))) in
      let rest : (j : ℕ) → j < n → pa (i + 1 + j) ≢ cur =
        λ j lt. (mapped (i + 1 + j) (omega arith) w.kmem.mem (λ b ne. refl)).1 in
      (
        w2,
        w3,
        rw (open_, space, e1) e2,
        IsPut-more n (λ j. w.kmem.mem (pa (i + j))) cur (omega arith)
            (IsPut-src 1 _ _ cur (λ j lt. ap (λ t. w.kmem.mem (pa t)) (omega arith)) p1)
            (IsPut-src n _ _ cur
              (λ j lt.
                p1.memory (pa (i + 1 + j)) (rest j lt) ∙ ap (λ t. w.kmem.mem (pa t)) (omega arith))
              p2),
        f2,
        s2,
      )
