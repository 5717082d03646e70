-- ===== src/Virtio/Request.antt =====
-- `virtio_disk_rw`, cut where it sleeps: what runs up to the first `sleep`, and what runs after
-- the last. `sleep` gives the lock back and takes it again.
use raynix.Base.{
  put, ℕ, ◌+◌, ◌*◌, ◌/◌, ◌%◌, ◌^◌, Bool, Option, none, some, [], ◌∷◌, bit_or, ◌==◌, if◌then◌else◌,
  get_or, set,
}
use raynix.Spinlock.{acquire, release}
use raynix.Virtio.{Config, Desc, zero_info, Disk, alloc3_desc, free_chain}
use raynix.Outcome.{Run, done, forever, ◌>>=◌}

-- `acquire(&disk.vdisk_lock)`
abbrev pub lock_disk : ℕ → Disk → Run Disk
lock_disk id d = elim (acquire id (d.lock, d.hart)) [
  | none ↦ forever
  | some (lock, hart) ↦ done (record d { lock = lock; hart = hart })
]

-- `release(&disk.vdisk_lock)`
abbrev pub unlock_disk : ℕ → Disk → Disk
unlock_disk id d =
    let (lock, hart) = release id (d.lock, d.hart) in record d { lock = lock; hart = hart }

-- `b->blockno * (BSIZE / 512)`, in `uint`
abbrev pub sector_of : Config → ℕ → ℕ
sector_of c b = c.block_no b * (c.bsize / 512) % 2 ^ 32

-- the three descriptors, formatted
abbrev pub desc0 : Config → ℕ → ℕ → Desc
desc0 c i0 i1 = record { addr = c.op_addr i0; len = c.req_size; flags = c.f_next; next = i1 }

abbrev pub desc1 : Config → ℕ → Bool → ℕ → Desc
desc1 c b write i2 = record {
  addr = c.data_addr b;
  len = c.bsize;
  flags = bit_or (if write then 0 else c.f_write) c.f_next;
  next = i2;
}

abbrev pub desc2 : Config → ℕ → Desc
desc2 c i0 = record { addr = c.status_addr i0; len = 1; flags = c.f_write; next = 0 }

-- From "format the three descriptors" to the notification of the device.
unfoldable pub submit : Config → ℕ → Bool → ℕ → ℕ → ℕ → Disk → Disk
submit c b write i0 i1 i2 d = record d {
  ops =
      set d.ops i0
        (record { type = if write then c.t_out else c.t_in; reserved = 0; sector = sector_of c b });
  desc = set (set (set d.desc i0 (desc0 c i0 i1)) i1 (desc1 c b write i2)) i2 (desc2 c i0);
  info = set d.info i0 (record { b = b; status = 0xff });
  busy = put d.busy b 1;
  avail_ring = set d.avail_ring (d.avail_idx % c.num) i0;
  avail_idx = (d.avail_idx + 1) % 2 ^ 16;
  notified = d.notified + 1;
}

-- Where the call sleeps: for descriptors, or for the buffer with its request in flight.
pub data Wait : Type 0 where
  for_free : Wait
  for_buffer : (i0 : ℕ) → Wait

-- With the lock held: one round of `while(1)`, up to a `sleep`, which gives the lock back.
unfoldable pub attempt : ℕ → Config → ℕ → Bool → Disk → Run (Wait × Disk)
attempt id c b write d = do
  (idx, d1) ← alloc3_desc c d
  elim idx [
    | some (i0 ∷ i1 ∷ i2 ∷ []) ↦ done (for_buffer i0, unlock_disk id (submit c b write i0 i1 i2 d1))
    | _ ↦ done (for_free, unlock_disk id d1)
  ]

-- From the call, and again from each `wakeup` of the free slots.
unfoldable pub rw_start : ℕ → Config → ℕ → Bool → Disk → Run (Wait × Disk)
rw_start id c b write d = do d1 ← lock_disk id d; attempt id c b write d1

-- From a `wakeup` of the buffer: back to sleep while the request is in flight (`none`), else the
-- end of the call.
unfoldable pub rw_resume : ℕ → Config → ℕ → ℕ → Disk → Run (Option Wait × Disk)
rw_resume id c b i0 d = do
  d1 ← lock_disk id d
  if d1.busy b == 1 then done (some (for_buffer i0), unlock_disk id d1) else do
    let d2 = record d1 { info = set d1.info i0 (record (get_or d1.info i0 zero_info) { b = 0 }) }
    d3 ← free_chain c i0 d2
    done (none, unlock_disk id d3)
