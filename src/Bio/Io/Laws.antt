-- ===== src/Bio/Io/Laws.antt =====
-- `bread` and `bwrite`: what is read, what is sent, and how the calls end.
use raynix.Base.{
  ℕ, ◌≡◌, refl, ◌≢◌, ◌⊎◌, inl, inr, Bool, true, false, some, arith, ◌==◌, if◌then◌else◌, put,
}
use raynix.Outcome.{done}
use raynix.Virtio.{Config, Disk}
use raynix.Virtio.Request.{for_free, for_buffer, unlock_disk}
use raynix.Virtio.Alloc.{free_at, IsSound, IsRolledBack}
use raynix.Virtio.Submit.{HasFlags}
use raynix.Virtio.Rw.{opened, IsSent, rw_start-cases}
use raynix.Virtio.Resume.{rw_resume-sent}
use native.Mathlib.Decide.{ℕ_discrete}
use raynix.Bio.{Cache}
use raynix.Bio.Get.{bget}
use raynix.Bio.Io.{
  Io, disk_of, with_disk, buffers_of, start_rw, returned, waits, bread, bread_back, bwrite,
}

-- A buffer whose request is on its way, or that waits for descriptors: by the disk before and after.
pub record IsAsked (id : ℕ) (cfg : Config) (b : ℕ) (write : Bool) (i0 i1 i2 : ℕ) (s s' : Io)
    : Type 0 where
  pub request : IsSent (buffers_of cfg s.cache) b write i0 i1 i2 (disk_of s) s'.disk
  pub rest : s'.cache ≡ record s.cache { hart = s'.disk.hart }

module _ (id : ℕ) (cfg : Config) (b : ℕ) (write : Bool) (s : Io) where
  start_rw-cases :
      s.disk.lock ≢ 0
      → HasFlags cfg
      → IsSound cfg s.disk
      → ((i0 : ℕ) × (i1 : ℕ) × (i2 : ℕ) × (s' : Io) × (start_rw id cfg b write s
            ≡ done (for_buffer i0, s'))
          × IsAsked id cfg b write i0 i1 i2 s s')
        ⊎ ((d : Disk) × (start_rw id cfg b write s
              ≡ done (for_free, with_disk s (unlock_disk id d)))
            × IsRolledBack (buffers_of cfg s.cache) (opened id (disk_of s)) d)
  start_rw-cases free f v =
      elim (rw_start-cases id (buffers_of cfg s.cache) b write (disk_of s) free
        (record { next_is = f.next_is; write_is = f.write_is })
        (record { entries = v.entries; descs = v.descs; binary = v.binary })) [
          | inl (i0, i1, i2, d, ran, r) ↦
              inl (i0, i1, i2, with_disk s d, rw ran refl, record { request = r; rest = refl })
          | inr (d, ran, r) ↦ inr (d, rw ran refl, r)
        ]

-- When `bget` returns buffer `b`, with the disk sound and its lock free: `bread` returns a buffer
-- that is valid at once and leaves the disk alone; for another it sends a read of the block of the
-- buffer to the device and sleeps on the buffer, or it sleeps with no three descriptors free.
pub bread-cases :
    (id : ℕ) (cfg : Config) (dev block_no b : ℕ) (s : Io) (c1 : Cache)
    → bget id dev block_no s.cache ≡ some (some b, c1)
    → s.disk.lock ≢ 0
    → HasFlags cfg
    → IsSound cfg s.disk
    → let s1 = record s { cache = c1 } in
      ((c1.valid b ≢ 0) × (bread id cfg dev block_no s ≡ done (returned b, s1)))
      ⊎ ((c1.valid b ≡ 0)
          × (((i0 : ℕ) × (i1 : ℕ) × (i2 : ℕ) × (s' : Io) × (bread id cfg dev block_no s
                  ≡ done (waits b (for_buffer i0), s'))
                × IsAsked id cfg b false i0 i1 i2 s1 s')
              ⊎ ((d : Disk) × (bread id cfg dev block_no s
                    ≡ done (waits b for_free, with_disk s1 (unlock_disk id d)))
                  × IsRolledBack (buffers_of cfg c1) (opened id (disk_of s1)) d)))
unfolding bread
bread-cases id cfg dev block_no b s c1 got free f v =
    let s1 : Io = record s { cache = c1 } in
    elim (ℕ_discrete (c1.valid b) 0) [
      | no ne ↦ let e : (c1.valid b == 0) ≡ false = ground arith in inl (ne, rw (got, e) refl)
      | yes z ↦ inr (
        z,
        elim (start_rw-cases id cfg b false s1 free f v) [
          | inl (i0, i1, i2, s', ran, r) ↦ inl (i0, i1, i2, s', rw (got, z, ran) refl, r)
          | inr (d, ran, r) ↦ inr (d, rw (got, z, ran) refl, r)
        ],
      )
    ]

-- A call of `bwrite`, with the disk sound and its lock free, sends a write of the block of the buffer
-- to the device and sleeps on the buffer, or it sleeps with no three descriptors free.
pub bwrite-cases :
    (id : ℕ) (cfg : Config) (b : ℕ) (s : Io)
    → s.disk.lock ≢ 0
    → HasFlags cfg
    → IsSound cfg s.disk
    → ((i0 : ℕ) × (i1 : ℕ) × (i2 : ℕ) × (s' : Io) × (bwrite id cfg b s ≡ done (for_buffer i0, s'))
        × IsAsked id cfg b true i0 i1 i2 s s')
      ⊎ ((d : Disk) × (bwrite id cfg b s ≡ done (for_free, with_disk s (unlock_disk id d)))
          × IsRolledBack (buffers_of cfg s.cache) (opened id (disk_of s)) d)
unfolding bwrite
bwrite-cases id cfg b s free f v = start_rw-cases id cfg b true s free f v

-- Once the device has answered the request of a read, with its descriptors as they were sent and the
-- lock of the disk free, whatever else has changed in the cache and the disk, the call returns the
-- buffer: it is valid, no other buffer changes in that, and each descriptor is free or taken as
-- before the call.
pub bread_back-returns :
    (id : ℕ) (cfg : Config) (b i0 i1 i2 : ℕ) (s s1 s2 : Io)
    → IsSound cfg s.disk
    → IsAsked id cfg b false i0 i1 i2 s s1
    → s2.disk.desc ≡ s1.disk.desc
    → s2.disk.free ≡ s1.disk.free
    → s2.disk.lock ≢ 0
    → s2.disk.busy b ≢ 1
    → (s' : Io) × (bread_back id cfg b i0 s2 ≡ done (returned b, s'))
      × ((j : ℕ) → s'.cache.valid j ≡ (if j == b then 1 else s2.cache.valid j))
      × (s'.cache.link_no ≡ s2.cache.link_no)
      × (s'.disk.lock ≡ 1)
      × ((j : ℕ) → free_at s'.disk j ≡ free_at s.disk j)
unfolding bread_back
bread_back-returns id cfg b i0 i1 i2 s s1 s2 v r same_desc same_free free answered =
    let sound : IsSound (buffers_of cfg s.cache) (disk_of s) = record {
      entries = v.entries;
      descs = v.descs;
      binary = v.binary;
    } in
    let (d', ran, _, unlocked, after) =
      rw_resume-sent id (buffers_of cfg s.cache) b false i0 i1 i2 (disk_of s) s1.disk (disk_of s2)
        s2.cache.block_no sound r.request same_desc same_free free answered in
    (
      record {
        cache = record s2.cache { hart = d'.hart; valid = put s2.cache.valid b 1 };
        disk = d';
      },
      rw ran refl,
      (λ j. refl),
      refl,
      unlocked,
      after,
    )
