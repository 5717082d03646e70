-- ===== src/Virtio/Rw.antt =====
-- `virtio_disk_rw`: a request on its way to the device, and the end of the call.
use raynix.Base.{
  arith, ℕ, ◌+◌, ◌%◌, ◌^◌, ◌≡◌, refl, ap, ◌≢◌, ◌⊎◌, inl, inr, Bool, ◌==◌, if◌then◌else◌, get_or,
  set,
}
use raynix.Spinlock.{push_inter_off}
use raynix.Spinlock.Lock.{acquire-free, release_lem}
use raynix.Virtio.{Config, Disk, zero_desc}
use raynix.Outcome.{done}
use raynix.Virtio.Request.{
  for_free, for_buffer, lock_disk, unlock_disk, desc1, sector_of, submit, attempt, rw_start,
}
use raynix.Virtio.Alloc.{free_at, taken3, IsSound, IsTriple, IsRolledBack}
use raynix.Virtio.Alloc3.{alloc3_desc-cases}
use raynix.Virtio.Chain.{IsChain}
use raynix.Virtio.Submit.{HasFlags, sent-IsSound, submit-IsChain, free_at-taken3, at1, desc-sent}

-- the disk with its lock held
abbrev pub opened : ℕ → Disk → Disk
opened id d = record d { lock = 0; hart = push_inter_off id d.hart }

pub lock_disk-free : (id : ℕ) (d : Disk) → d.lock ≢ 0 → lock_disk id d ≡ done (opened id d)
lock_disk-free id d free = rw (lock_disk, acquire-free id d.lock d.hart free) refl

-- whatever its lock was
pub unlock_disk-lock : (id : ℕ) (d : Disk) → (unlock_disk id d).lock ≡ 1
unlock_disk-lock id d = ap (λ p. p.0) (release_lem id d.lock d.hart)

opened-IsSound : (id : ℕ) {c : Config} {d : Disk} → IsSound c d → IsSound c (opened id d)
opened-IsSound id v = record { entries = v.entries; descs = v.descs; binary = v.binary }

unlocked-IsSound : (id : ℕ) {c : Config} {d : Disk} → IsSound c d → IsSound c (unlock_disk id d)
unlocked-IsSound id v = record { entries = v.entries; descs = v.descs; binary = v.binary }

-- What a request of buffer `b` on three descriptors leaves: they are a chain, and taken, the others
-- as before; the data of the buffer is at the second; the device is told, the buffer is in flight,
-- and the lock of the disk is free.
pub record IsSent (c : Config) (b : ℕ) (write : Bool) (i0 i1 i2 : ℕ) (d d' : Disk) : Type 0 where
  pub triple : IsTriple c d i0 i1 i2
  pub sound : IsSound c d'
  pub chain : IsChain c d' i0 i1 i2
  pub free :
      (j : ℕ)
      → free_at d' j
        ≡ (if j == i2 then 0 else if j == i1 then 0 else if j == i0 then 0 else free_at d j)
  pub data_of : get_or d'.desc i1 zero_desc ≡ desc1 c b write i2
  pub others :
      (j : ℕ) → j ≢ i0 → j ≢ i1 → j ≢ i2 → get_or d'.desc j zero_desc ≡ get_or d.desc j zero_desc
  pub command :
      d'.ops
      ≡ set d.ops i0 (record {
        type = if write then c.t_out else c.t_in;
        reserved = 0;
        sector = sector_of c b;
      })
  pub named : d'.info ≡ set d.info i0 (record { b = b; status = 0xff })
  pub busy : (j : ℕ) → d'.busy j ≡ (if j == b then 1 else d.busy j)
  pub queued : d'.avail_ring ≡ set d.avail_ring (d.avail_idx % c.num) i0
  pub counted : d'.avail_idx ≡ (d.avail_idx + 1) % 2 ^ 16
  pub told : d'.notified ≡ d.notified + 1
  pub same_used : (d'.used_ring ≡ d.used_ring) × (d'.used_idx ≡ d.used_idx)
  pub unlocked : d'.lock ≡ 1

-- the disk after `attempt` on three descriptors
abbrev pub sent : ℕ → Config → ℕ → Bool → ℕ → ℕ → ℕ → Disk → Disk
sent id c b write i0 i1 i2 d =
    unlock_disk id (submit c b write i0 i1 i2 (taken3 i0 i1 i2 (opened id d)))

pub sent-IsSent :
    (id : ℕ) {c : Config} (b : ℕ) (write : Bool) (i0 i1 i2 : ℕ) {d : Disk}
    → HasFlags c
    → IsSound c d
    → IsTriple c (opened id d) i0 i1 i2
    → IsSent c b write i0 i1 i2 d (sent id c b write i0 i1 i2 d)
unfolding submit
sent-IsSent id {c} b write i0 i1 i2 {d} f v t =
    let w = opened-IsSound id v in
    let chain = submit-IsChain w i0 i1 i2 t b write f in
    record {
      triple = record { in_range = t.in_range; distinct = t.distinct; were_free = t.were_free };
      sound = unlocked-IsSound id (sent-IsSound w i0 i1 i2 t b write);
      chain = record {
        in_range = chain.in_range;
        distinct = chain.distinct;
        in_use = chain.in_use;
        linked = chain.linked;
        flagged = chain.flagged;
      };
      free = λ j. free_at-taken3 w i0 i1 i2 t j;
      data_of = at1 w i0 i1 i2 t b write;
      others = λ j n0 n1 n2. ground (arith, desc-sent w i0 i1 i2 t b write j);
      command = refl;
      named = refl;
      busy = λ j. refl;
      queued = refl;
      counted = refl;
      told = refl;
      same_used = (refl, refl);
      unlocked = unlock_disk-lock id (submit c b write i0 i1 i2 (taken3 i0 i1 i2 (opened id d)));
    }

-- In a sound state with the lock free, a call of `virtio_disk_rw` gets to a `sleep` and leaves the
-- lock free: it waits for its buffer, with the request sent on three free descriptors; or it waits
-- for descriptors, no three were free, and each is free or taken as before.
pub rw_start-cases :
    (id : ℕ) (c : Config) (b : ℕ) (write : Bool) (d : Disk)
    → d.lock ≢ 0
    → HasFlags c
    → IsSound c d
    → ((i0 : ℕ) × (i1 : ℕ) × (i2 : ℕ) × (d' : Disk) × (rw_start id c b write d
          ≡ done (for_buffer i0, d'))
        × IsSent c b write i0 i1 i2 d d')
      ⊎ ((d1 : Disk) × (rw_start id c b write d ≡ done (for_free, unlock_disk id d1))
          × IsRolledBack c (opened id d) d1)
unfolding rw_start attempt
rw_start-cases id c b write d free f v =
    elim (alloc3_desc-cases c (opened id d) (opened-IsSound id v)) [
      | inl (i0, i1, i2, ran, t) ↦ inl (
        i0,
        i1,
        i2,
        sent id c b write i0 i1 i2 d,
        rw (lock_disk-free id d free, ran) refl,
        sent-IsSent id b write i0 i1 i2 f v t,
      )
      | inr (d1, ran, r) ↦ inr (d1, rw (lock_disk-free id d free, ran) refl, r)
    ]
