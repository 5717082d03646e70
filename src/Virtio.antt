-- ===== src/Virtio.antt =====
-- kernel/virtio_disk.c: the driver's descriptors. What virtio.h, buf.h, param.h and fs.h of the
-- driver's own tree define is not in this repository, and stands here as the fields of `Config`.
pub mod Request
pub mod Interrupt
pub mod Alloc
pub mod Alloc3
pub mod Chain
pub mod Submit
pub mod Rw
pub mod Resume
pub mod Answer
pub mod Flight
pub mod Drain
pub mod Setup
use raynix.Base.{
  ℕ, zero, suc, ◌+◌, ◌-◌, ◌*◌, ◌/◌, ◌%◌, ◌^◌, Bool, not, Option, none, some, List, [], ◌∷◌, ◌++◌,
  bit_and, leb, ◌==◌, if◌then◌else◌, get_or, set,
}
use raynix.Spinlock.{Hart, SpinLock}
use raynix.Outcome.{Run, done, panic, forever, ◌>>=◌}

pub record Config : Type 0 where
  pub num : ℕ  -- NUM
  pub f_next : ℕ  -- VRING_DESC_F_NEXT
  pub f_write : ℕ  -- VRING_DESC_F_WRITE
  pub t_in : ℕ  -- VIRTIO_BLK_T_IN
  pub t_out : ℕ  -- VIRTIO_BLK_T_OUT
  pub bsize : ℕ  -- BSIZE
  pub req_size : ℕ  -- sizeof(struct virtio_blk_req)
  pub op_addr : ℕ → ℕ  -- &disk.ops[i]
  pub status_addr : ℕ → ℕ  -- &disk.info[i].status
  pub data_addr : ℕ → ℕ  -- b->data
  pub block_no : ℕ → ℕ  -- b->blockno

-- `struct virtq_desc`
pub record Desc : Type 0 where
  pub addr : ℕ
  pub len : ℕ
  pub flags : ℕ
  pub next : ℕ

abbrev pub zero_desc : Desc
zero_desc = record { addr = 0; len = 0; flags = 0; next = 0 }

-- `struct virtio_blk_req`
pub record Req : Type 0 where
  pub type : ℕ
  pub reserved : ℕ
  pub sector : ℕ

-- an entry of `disk.info`; `b` is a pointer to a buffer
pub record Info : Type 0 where
  pub b : ℕ
  pub status : ℕ

abbrev pub zero_info : Info
zero_info = record { b = 0; status = 0 }

-- What `wakeup` is called on: `&disk.free[0]`, or a buffer.
pub data Channel : Type 0 where
  free_slots : Channel
  buffer : ℕ → Channel

-- `struct disk` with the rings that it points to, the flag `b->disk` of every buffer `b`, the calls
-- of `wakeup` so far, the latest first, how often the queue was notified, and the hart that runs.
pub record Disk : Type 0 where
  pub desc : List Desc
  pub avail_ring : List ℕ
  pub avail_idx : ℕ
  pub used_ring : List ℕ
  pub dev_idx : ℕ
  pub free : List ℕ
  pub used_idx : ℕ
  pub info : List Info
  pub ops : List Req
  pub busy : ℕ → ℕ
  pub woken : List Channel
  pub notified : ℕ
  pub lock : SpinLock
  pub hart : Hart

-- `for(int i = 0; i < NUM; i++)` of `alloc_desc`, with `n` rounds left from `i` on; `none` is -1.
alloc_loop : ℕ → ℕ → Disk → Option ℕ × Disk
alloc_loop zero i d = (none, d)
alloc_loop (suc n) i d =
    if get_or d.free i 0 == 0
    then alloc_loop n (i + 1) d
    else (some i, record d { free = set d.free i 0 })

unfoldable pub alloc_desc : Config → Disk → Option ℕ × Disk
unfolding alloc_loop
alloc_desc c d = alloc_loop c.num 0 d

-- the state that `free_desc` leaves when it does not panic
abbrev pub freed : ℕ → Disk → Disk
freed i d = record d {
  desc = set d.desc i zero_desc;
  free = set d.free i 1;
  woken = free_slots ∷ d.woken;
}

unfoldable pub free_desc : Config → ℕ → Disk → Run Disk
free_desc c i d =
    if leb c.num i then panic else if not (get_or d.free i 0 == 0) then panic else done (freed i d)

-- `while(1)` of `free_chain`, on fuel
unfoldable pub chain_loop : ℕ → Config → ℕ → Disk → Run Disk
chain_loop zero c i d = forever
chain_loop (suc fuel) c i d = do
  let flag = (get_or d.desc i zero_desc).flags
  let nxt = (get_or d.desc i zero_desc).next
  d1 ← free_desc c i d
  if bit_and flag c.f_next == 0 then done d1 else chain_loop fuel c nxt d1

-- A chain frees a descriptor in each round and panics on one that is free, so there are at most
-- `NUM` rounds before the last.
unfoldable pub free_chain : Config → ℕ → Disk → Run Disk
free_chain c i d = chain_loop (c.num + 1) c i d

-- `for(int j = 0; j < i; j++) free_desc(idx[j]);`
free_each : Config → List ℕ → Disk → Run Disk
free_each c [] d = done d
free_each c (i ∷ idx) d = do d1 ← free_desc c i d; free_each c idx d1

-- One round of `alloc3_desc`, by what `alloc_desc` returned; `next` is the rest of the loop.
abbrev pub after_alloc :
    Config
    → List ℕ
    → (List ℕ → Disk → Run (Option (List ℕ) × Disk))
    → Option ℕ
    → Disk
    → Run (Option (List ℕ) × Disk)
unfolding free_each
after_alloc c idx next none d = do d1 ← free_each c idx d; done (none, d1)
after_alloc c idx next (some i) d = next (idx ++ i ∷ []) d

-- `for(int i = 0; i < 3; i++)` of `alloc3_desc`, with `n` rounds left and `idx` filled so far
alloc3_loop : ℕ → Config → List ℕ → Disk → Run (Option (List ℕ) × Disk)
alloc3_loop zero c idx d = done (some idx, d)
alloc3_loop (suc n) c idx d =
    let (r, d1) = alloc_desc c d in after_alloc c idx (alloc3_loop n c) r d1

-- The three indices, or `none` for the result -1.
unfoldable pub alloc3_desc : Config → Disk → Run (Option (List ℕ) × Disk)
unfolding alloc3_loop free_each
alloc3_desc c d = alloc3_loop 3 c [] d
