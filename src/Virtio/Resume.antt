-- ===== src/Virtio/Resume.antt =====
-- `virtio_disk_rw` when its buffer is woken.
use raynix.Base.{
  ℕ, ◌≡◌, refl, ap, ◌∙◌, ◌≢◌, Bool, false, none, some, arith, ◌==◌, if◌then◌else◌, get_or, set,
  length,
}
use raynix.Virtio.{Config, Disk, zero_desc, zero_info}
use raynix.Outcome.{done}
use raynix.Virtio.Request.{for_buffer, unlock_disk, rw_resume}
use raynix.Virtio.Alloc.{free_at, IsSound}
use raynix.Virtio.Alloc3.{free_at-freed, desc-freed, freed-IsSound}
use raynix.Virtio.Chain.{IsChain, freed3, free_chain-freed3}
use raynix.Virtio.Rw.{opened, lock_disk-free, unlock_disk-lock, IsSent}

-- the disk with the entry of the request cleared
abbrev cleared : ℕ → ℕ → Disk → Disk
cleared id i0 d = record (opened id d) {
  info = set d.info i0 (record (get_or d.info i0 zero_info) { b = 0 });
}

-- A call that is woken with its request in flight sleeps again and changes only the hart.
pub rw_resume-waits :
    (id : ℕ) (c : Config) (b i0 : ℕ) (d : Disk)
    → d.lock ≢ 0
    → d.busy b ≡ 1
    → rw_resume id c b i0 d ≡ done (some (for_buffer i0), unlock_disk id (opened id d))
unfolding rw_resume
rw_resume-waits id c b i0 d free flying = rw (lock_disk-free id d free, flying) refl

-- What the end of a call leaves, in a sound state with the lock free: the three descriptors of its chain
-- are free, and the others as they were.
pub record IsEnded (c : Config) (i0 i1 i2 : ℕ) (d d' : Disk) : Type 0 where
  pub sound : IsSound c d'
  pub unlocked : d'.lock ≡ 1
  pub free :
      (j : ℕ)
      → free_at d' j
        ≡ (if j == i2 then 1 else if j == i1 then 1 else if j == i0 then 1 else free_at d j)
  pub others :
      (j : ℕ) → j ≢ i0 → j ≢ i1 → j ≢ i2 → get_or d'.desc j zero_desc ≡ get_or d.desc j zero_desc

module _ (id : ℕ) {c : Config} (b : ℕ) {i0 i1 i2 : ℕ} {d : Disk} (free : d.lock ≢ 0)
    (v : IsSound c d) (h : IsChain c d i0 i1 i2) where
  abbrev finished : Disk
  finished = freed3 i0 i1 i2 (cleared id i0 d)

  cleared-IsSound : IsSound c (cleared id i0 d)
  cleared-IsSound = record { entries = v.entries; descs = v.descs; binary = v.binary }

  cleared-IsChain : IsChain c (cleared id i0 d) i0 i1 i2
  cleared-IsChain = record {
    in_range = h.in_range;
    distinct = h.distinct;
    in_use = h.in_use;
    linked = h.linked;
    flagged = h.flagged;
  }

  finished-free :
      (j : ℕ)
      → free_at (freed3 i0 i1 i2 (cleared id i0 d)) j
        ≡ (if j == i2 then 1 else if j == i1 then 1 else if j == i0 then 1 else free_at d j)
  finished-free j =
      let (lt0, lt1, lt2) = h.in_range in
      let w0 = freed-IsSound cleared-IsSound i0 lt0 in
      ground (
        arith,
        free_at-freed (freed-IsSound w0 i1 lt1) i2 lt2 j,
        free_at-freed w0 i1 lt1 j,
        free_at-freed cleared-IsSound i0 lt0 j,
      )

  finished-others :
      (j : ℕ)
      → j ≢ i0
      → j ≢ i1
      → j ≢ i2
      → get_or (freed3 i0 i1 i2 (cleared id i0 d)).desc j zero_desc ≡ get_or d.desc j zero_desc
  finished-others j n0 n1 n2 =
      let (lt0, lt1, lt2) = h.in_range in
      let w0 = freed-IsSound cleared-IsSound i0 lt0 in
      ground (
        arith,
        desc-freed (freed-IsSound w0 i1 lt1) i2 lt2 j,
        desc-freed w0 i1 lt1 j,
        desc-freed cleared-IsSound i0 lt0 j,
      )

  -- A call that is woken with its request answered returns, in a sound state with the lock free, and
  -- frees the three descriptors of its chain and no other.
  pub rw_resume-returns :
      d.busy b ≢ 1
      → (d' : Disk) × (rw_resume id c b i0 d ≡ done (none, d')) × IsEnded c i0 i1 i2 d d'
  unfolding rw_resume
  rw_resume-returns answered =
      let (lt0, lt1, lt2) = h.in_range in
      let landed : (d.busy b == 1) ≡ false = ground arith in
      let w = freed-IsSound (freed-IsSound (freed-IsSound cleared-IsSound i0 lt0) i1 lt1) i2 lt2 in
      (
        unlock_disk id (freed3 i0 i1 i2 (cleared id i0 d)),
        rw (lock_disk-free id d free, landed, free_chain-freed3 cleared-IsSound cleared-IsChain)
            refl,
        record {
          sound = record { entries = w.entries; descs = w.descs; binary = w.binary };
          unlocked = unlock_disk-lock id (freed3 i0 i1 i2 (cleared id i0 d));
          free = finished-free;
          others = finished-others;
        },
      )

module _ {c : Config} (numbers : ℕ → ℕ) {d d2 : Disk} (same_desc : d2.desc ≡ d.desc)
    (same_free : d2.free ≡ d.free) where
  pub same-IsSound : IsSound c d → IsSound (record c { block_no = numbers }) d2
  same-IsSound v = record {
    entries = ap length same_free ∙ v.entries;
    descs = ap length same_desc ∙ v.descs;
    binary = λ j h. rw same_free (v.binary j h);
  }

  pub same-IsChain :
      (i0 i1 i2 : ℕ) → IsChain c d i0 i1 i2 → IsChain (record c { block_no = numbers }) d2 i0 i1 i2
  same-IsChain i0 i1 i2 h = record {
    in_range = h.in_range;
    distinct = h.distinct;
    in_use = rw same_free h.in_use;
    linked = rw same_desc h.linked;
    flagged = rw same_desc h.flagged;
  }

-- From a sound state: once the request that a call has sent is answered, with the descriptors as the
-- call left them and the lock free, whatever the buffers' block numbers are now, the call returns, and each descriptor is free or taken as
-- before the call.
pub rw_resume-sent :
    (id : ℕ) (c : Config) (b : ℕ) (write : Bool) (i0 i1 i2 : ℕ) (d d1 d2 : Disk) (numbers : ℕ → ℕ)
    → IsSound c d
    → IsSent c b write i0 i1 i2 d d1
    → d2.desc ≡ d1.desc
    → d2.free ≡ d1.free
    → d2.lock ≢ 0
    → d2.busy b ≢ 1
    → (d' : Disk) × (rw_resume id (record c { block_no = numbers }) b i0 d2 ≡ done (none, d'))
      × IsSound (record c { block_no = numbers }) d'
      × (d'.lock ≡ 1)
      × ((j : ℕ) → free_at d' j ≡ free_at d j)
rw_resume-sent id c b write i0 i1 i2 d d1 d2 numbers v r same_desc same_free free answered =
    let w = same-IsSound numbers same_desc same_free r.sound in
    let h = same-IsChain numbers same_desc same_free i0 i1 i2 r.chain in
    let (d', ran, end) = rw_resume-returns id b free w h answered in
    let (lt0, lt1, lt2) = r.triple.in_range in
    (
      d',
      ran,
      end.sound,
      end.unlocked,
      λ j. ground (
        arith,
        end.free j,
        ap (λ f. get_or f j 0) same_free,
        r.free j,
        r.triple.were_free,
        v.binary i0 lt0,
        v.binary i1 lt1,
        v.binary i2 lt2,
      ),
    )
