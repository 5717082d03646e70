-- ===== src/Tests/Requests.antt =====
-- Requests to the disk, from the driver and from the block cache.
use raynix.Base.{Option, some, put, ℕ, ◌≡◌, ◌≢◌, ◌⊎◌, refl, arith, true, false, none}
use raynix.Outcome.{done}
use raynix.Virtio.{Disk}
use raynix.Virtio.Request.{for_free, for_buffer, unlock_disk, rw_start, rw_resume}
use raynix.Virtio.Alloc.{IsRolledBack}
use raynix.Virtio.Rw.{opened, IsSent, sent, sent-IsSent, rw_start-cases}
use raynix.Virtio.Resume.{IsEnded}
use raynix.Virtio.Chain.{IsChain}
use raynix.Bio.Get.Laws.{handed}
use raynix.Bio.Io.{Io, disk_of, with_disk, buffers_of, returned, waits, bread}
use raynix.Bio.Io.Laws.{IsAsked, bread-cases}
use raynix.Spinlock.{acquire, release}
use raynix.Virtio.{alloc3_desc, alloc_desc}
use raynix.Virtio.Request.{attempt, submit}
use raynix.Virtio.Flight.{at_time, Flight, Reach, start, send, elsewhere}
use raynix.Virtio.Flight.Reached.{rw_resume-reached}
use raynix.Tests.Disks.{four, quiet, four-HasFlags, quiet-IsSound, quiet-IsTriple}
use raynix.Tests.Buffers.{three, bget-three}

rw_start-cases_example :
    ((i0 : ℕ) × (i1 : ℕ) × (i2 : ℕ) × (d' : Disk) × (rw_start 1 four 0x500 true quiet
        ≡ done (for_buffer i0, d'))
      × IsSent four 0x500 true i0 i1 i2 quiet d')
    ⊎ ((d1 : Disk) × (rw_start 1 four 0x500 true quiet ≡ done (for_free, unlock_disk 1 d1))
        × IsRolledBack four (opened 1 quiet) d1)
rw_start-cases_example =
    rw_start-cases 1 four 0x500 true quiet (λ e. omega arith) four-HasFlags quiet-IsSound

-- a read of buffer 6 on the descriptors 0, 1 and 2
abbrev asked : Disk
asked = sent 1 four 6 false 0 1 2 quiet

asked-IsSent : IsSent four 6 false 0 1 2 quiet asked
asked-IsSent = sent-IsSent 1 6 false 0 1 2 four-HasFlags quiet-IsSound (record {
  in_range = quiet-IsTriple.in_range;
  distinct = quiet-IsTriple.distinct;
  were_free = quiet-IsTriple.were_free;
})

-- the same, answered
abbrev landed : Disk
landed = record asked { busy = λ b. 0 }

-- The cache with no valid buffer, and a quiet disk.
abbrev stale : Io
stale = record { cache = record three { valid = λ i. 0 }; disk = quiet }

bread-cases_example :
    (((handed 1 6 stale.cache).valid 6 ≢ 0)
      × (bread 1 four 1 60 stale
          ≡ done (returned 6, record stale { cache = handed 1 6 stale.cache })))
    ⊎ (((handed 1 6 stale.cache).valid 6 ≡ 0)
        × (((i0 : ℕ) × (i1 : ℕ) × (i2 : ℕ) × (s' : Io) × (bread 1 four 1 60 stale
                ≡ done (waits 6 (for_buffer i0), s'))
              × IsAsked 1 four 6 false i0 i1 i2
                  (record stale { cache = handed 1 6 stale.cache })
                  s')
            ⊎ ((d : Disk) × (bread 1 four 1 60 stale
                  ≡ done (
                    waits 6 for_free,
                    with_disk (record stale { cache = handed 1 6 stale.cache }) (unlock_disk 1 d),
                  ))
                × IsRolledBack
                    (buffers_of four (handed 1 6 stale.cache))
                    (opened 1 (disk_of (record stale { cache = handed 1 6 stale.cache })))
                    d)))
bread-cases_example =
    bread-cases 1 four 1 60 6 stale (handed 1 6 stale.cache) (bget-three (λ i. 0))
      (λ e. omega arith) four-HasFlags quiet-IsSound

-- the read of buffer 6 from the quiet disk, by the cache
abbrev reading : Io
reading = with_disk stale (sent 1 (buffers_of four stale.cache) 6 false 0 1 2 (disk_of stale))

-- The call of that read, from the driver.
asked-runs : rw_start 1 (at_time four four.block_no) 6 false quiet ≡ done (for_buffer 0, asked)
unfolding rw_start attempt alloc3_desc alloc_desc acquire release
asked-runs = refl

abbrev first_flight : Flight
first_flight = record { b = 6; i0 = 0; i1 = 1; i2 = 2 }

abbrev one_flight : ℕ → Option Flight
one_flight = put (λ k. none) 0 (some first_flight)

landed-Reach : Reach four landed one_flight
unfolding submit
landed-Reach =
    elsewhere
      (send 1 0 6 false 0 four.block_no (start quiet-IsSound) refl (λ e. omega arith) asked-runs)
      refl refl

rw_resume-reached_example :
    (d' : Disk) × (rw_resume 1 (at_time four (λ b. 7)) 6 0 landed ≡ done (none, d'))
    × IsEnded (at_time four (λ b. 7)) 0 1 2 landed d'
    × IsChain four landed 0 1 2
rw_resume-reached_example =
    rw_resume-reached 1 0 four landed one_flight first_flight (λ b. 7) four-HasFlags landed-Reach
      refl (λ e. omega (arith, asked-IsSent.unlocked)) (λ e. omega arith)
