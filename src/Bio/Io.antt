-- ===== src/Bio/Io.antt =====
-- `bread` and `bwrite` of kernel/bio.c over the disk driver, cut where `virtio_disk_rw` sleeps.
-- `bread` ends with `return b`, which nothing declares; it is read as `return buffer`.
pub mod Laws
pub mod Whole
use raynix.Base.{ℕ, Bool, true, false, Option, none, some, ◌==◌, if◌then◌else◌, put}
use raynix.Outcome.{Run, done, forever, ◌>>=◌}
use raynix.Virtio.{Config, Disk}
use raynix.Virtio.Request.{Wait, rw_start, rw_resume}
use raynix.Bio.{Cache}
use raynix.Bio.Get.{bget}

-- The cache and the disk. The hart that runs is the one of `cache`.
pub record Io : Type 0 where
  pub cache : Cache
  pub disk : Disk

-- the disk as the running hart finds it, and the state with the disk that a call leaves
abbrev pub disk_of : Io → Disk
disk_of s = record s.disk { hart = s.cache.hart }

abbrev pub with_disk : Io → Disk → Io
with_disk s d = record { cache = record s.cache { hart = d.hart }; disk = d }

-- What the driver reads of a buffer is the cache's.
abbrev pub buffers_of : Config → Cache → Config
buffers_of cfg c = record cfg { block_no = c.block_no }

abbrev pub start_rw : ℕ → Config → ℕ → Bool → Io → Run (Wait × Io)
start_rw id cfg b write s = do
  (w, d) ← rw_start id (buffers_of cfg s.cache) b write (disk_of s)
  done (w, with_disk s d)

abbrev pub resume_rw : ℕ → Config → ℕ → ℕ → Io → Run (Option Wait × Io)
resume_rw id cfg b i0 s = do
  (w, d) ← rw_resume id (buffers_of cfg s.cache) b i0 (disk_of s)
  done (w, with_disk s d)

-- Where a run of `bread` gets to: its return; a sleep of `virtio_disk_rw` on its buffer; or the use
-- of what `bget` gives when it falls off its end, which is undefined.
pub data Reading : Type 0 where
  returned : (b : ℕ) → Reading
  waits : (b : ℕ) (w : Wait) → Reading
  no_buffer : Reading

-- `virtio_disk_rw(buffer, 0)`: from `bread`, and again from each wakeup of the free slots.
abbrev pub fetch : ℕ → Config → ℕ → Io → Run (Reading × Io)
fetch id cfg b s = do (w, s1) ← start_rw id cfg b false s; done (waits b w, s1)

-- `bread` with what `bget` gave
abbrev pub read_buffer : ℕ → Config → Option (Option ℕ × Cache) → Io → Run (Reading × Io)
read_buffer id cfg none s = forever
read_buffer id cfg (some (none, c)) s = done (no_buffer, record s { cache = c })
read_buffer id cfg (some (some b, c)) s =
    if c.valid b == 0
    then fetch id cfg b (record s { cache = c })
    else done (returned b, record s { cache = c })

unfoldable pub bread : ℕ → Config → ℕ → ℕ → Io → Run (Reading × Io)
bread id cfg dev block_no s = read_buffer id cfg (bget id dev block_no s.cache) s

-- From a wakeup of the buffer: back to sleep, or on to the end.
abbrev pub end_read : ℕ → Option Wait → Io → Reading × Io
end_read b (some w) s = (waits b w, s)
end_read b none s =
    (returned b, record s { cache = record s.cache { valid = put s.cache.valid b 1 } })

unfoldable pub bread_back : ℕ → Config → ℕ → ℕ → Io → Run (Reading × Io)
bread_back id cfg b i0 s = do (w, s1) ← resume_rw id cfg b i0 s; done (end_read b w s1)

-- `virtio_disk_rw(buffer, 1)`, and on from a wakeup of the buffer
unfoldable pub bwrite : ℕ → Config → ℕ → Io → Run (Wait × Io)
bwrite id cfg b s = start_rw id cfg b true s

unfoldable pub bwrite_back : ℕ → Config → ℕ → ℕ → Io → Run (Option Wait × Io)
bwrite_back id cfg b i0 s = resume_rw id cfg b i0 s
