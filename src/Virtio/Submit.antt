-- ===== src/Virtio/Submit.antt =====
-- The request that `virtio_disk_rw` builds on three descriptors, and its way back to free ones.
use raynix.Base.{
  ℕ, ◌<◌, ◌≡◌, ap, ◌∙◌, ◌≢◌, Bool, true, false, arith, bit_and, bit_or, ◌==◌, if◌then◌else◌, get_or,
  set, get_or-set, length-set,
}
use raynix.Virtio.{Config, Disk, zero_desc, free_chain}
use raynix.Outcome.{done}
use raynix.Virtio.Request.{submit, desc0, desc1, desc2}
use raynix.Virtio.Alloc.{free_at, taken, taken3, IsSound, IsTriple}
use raynix.Virtio.Alloc3.{free_at-taken, taken-IsSound, free_at-freed, freed-IsSound}
use raynix.Virtio.Chain.{IsChain, freed3, free_chain-freed3}

-- The values of the flags in the VIRTIO specification, 1 and 2.
pub record HasFlags (c : Config) : Type 0 where
  pub next_is : c.f_next ≡ 1
  pub write_is : c.f_write ≡ 2

data_flags : (write : Bool) → bit_and (bit_or (if write then 0 else 2) 1) 1 ≢ 0
data_flags true = λ e. omega arith
data_flags false = λ e. omega arith

module _ {c : Config} {d : Disk} (v : IsSound c d) (i0 i1 i2 : ℕ) (t : IsTriple c d i0 i1 i2) where
  lt0 : i0 < c.num
  lt0 = t.in_range.0

  lt1 : i1 < c.num
  lt1 = t.in_range.1

  lt2 : i2 < c.num
  lt2 = t.in_range.2

  v1 : IsSound c (taken i0 d)
  v1 = taken-IsSound v i0 lt0

  v2 : IsSound c (taken i1 (taken i0 d))
  v2 = taken-IsSound v1 i1 lt1

  pub taken3-IsSound : IsSound c (taken3 i0 i1 i2 d)
  taken3-IsSound = taken-IsSound v2 i2 lt2

  pub free_at-taken3 :
      (j : ℕ)
      → free_at (taken3 i0 i1 i2 d) j
        ≡ (if j == i2 then 0 else if j == i1 then 0 else if j == i0 then 0 else free_at d j)
  free_at-taken3 j =
      ground (arith, free_at-taken v2 i2 lt2 j, free_at-taken v1 i1 lt1 j, free_at-taken v i0 lt0 j)

  module _ (b : ℕ) (write : Bool) where
    sent : Disk
    sent = submit c b write i0 i1 i2 (taken3 i0 i1 i2 d)

    pub sent-IsSound : IsSound c (submit c b write i0 i1 i2 (taken3 i0 i1 i2 d))
    unfolding submit
    sent-IsSound = record {
      entries = taken3-IsSound.entries;
      descs = length-set _ i2 _ ∙ length-set _ i1 _ ∙ length-set d.desc i0 _ ∙ v.descs;
      binary = taken3-IsSound.binary;
    }

    pub desc-sent :
        (j : ℕ)
        → get_or (submit c b write i0 i1 i2 (taken3 i0 i1 i2 d)).desc j zero_desc ≡ (
            if j == i2
            then desc2 c i0
            else if j == i1
            then desc1 c b write i2
            else if j == i0
            then desc0 c i0 i1
            else get_or d.desc j zero_desc)
    unfolding submit
    desc-sent j = rw (
      get_or-set (set (set d.desc i0 (desc0 c i0 i1)) i1 (desc1 c b write i2)) i2 j (desc2 c i0)
          zero_desc
          (omega (
            arith,
            v.descs,
            length-set (set d.desc i0 (desc0 c i0 i1)) i1 (desc1 c b write i2),
            length-set d.desc i0 (desc0 c i0 i1),
          )),
      get_or-set (set d.desc i0 (desc0 c i0 i1)) i1 j (desc1 c b write i2) zero_desc
          (omega (arith, v.descs, length-set d.desc i0 (desc0 c i0 i1))),
      get_or-set d.desc i0 j (desc0 c i0 i1) zero_desc (omega (arith, v.descs)),
    )

    at0 : get_or (submit c b write i0 i1 i2 (taken3 i0 i1 i2 d)).desc i0 zero_desc ≡ desc0 c i0 i1
    at0 = ground (arith, desc-sent i0, t.distinct)

    pub at1 :
        get_or (submit c b write i0 i1 i2 (taken3 i0 i1 i2 d)).desc i1 zero_desc
        ≡ desc1 c b write i2
    at1 = ground (arith, desc-sent i1, t.distinct)

    at2 : get_or (submit c b write i0 i1 i2 (taken3 i0 i1 i2 d)).desc i2 zero_desc ≡ desc2 c i0
    at2 = ground (arith, desc-sent i2)

    pub in_use :
        (j : ℕ)
        → (if j == i2 then 0 else if j == i1 then 0 else if j == i0 then 0 else free_at d j) ≡ 0
        → free_at (submit c b write i0 i1 i2 (taken3 i0 i1 i2 d)) j ≡ 0
    unfolding submit
    in_use j e = free_at-taken3 j ∙ e

    -- With the flags of the VIRTIO specification, the request that is built in a sound state on
    -- three different free descriptors is a chain of them, which leads from the command to the
    -- data to the status byte.
    pub submit-IsChain :
        HasFlags c → IsChain c (submit c b write i0 i1 i2 (taken3 i0 i1 i2 d)) i0 i1 i2
    submit-IsChain f = record {
      in_range = t.in_range;
      distinct = t.distinct;
      in_use = (in_use i0 (ground arith), in_use i1 (ground arith), in_use i2 (ground arith));
      linked = (ap (λ e. e.next) at0, ap (λ e. e.next) at1);
      flagged = (
        rw (at0, f.next_is) (λ e. omega arith),
        rw (at1, f.next_is, f.write_is) (data_flags write),
        rw (at2, f.next_is, f.write_is),
      );
    }

    free_at-freed3 :
        (j : ℕ)
        → free_at (freed3 i0 i1 i2 (submit c b write i0 i1 i2 (taken3 i0 i1 i2 d))) j ≡ free_at d j
    unfolding submit
    free_at-freed3 j =
        let w = sent-IsSound in
        ground (
          arith,
          free_at-freed (freed-IsSound (freed-IsSound w i0 lt0) i1 lt1) i2 lt2 j,
          free_at-freed (freed-IsSound w i0 lt0) i1 lt1 j,
          free_at-freed w i0 lt0 j,
          free_at-taken3 j,
          t.were_free,
          v.binary i0 lt0,
          v.binary i1 lt1,
          v.binary i2 lt2,
        )

    -- With the flags of the VIRTIO specification, `free_chain` on the request that was built in
    -- a sound state on three different free descriptors returns, and each descriptor is free or
    -- taken as before they were allocated.
    pub free_chain-submit :
        HasFlags c
        → (d' : Disk) × (free_chain c i0 (submit c b write i0 i1 i2 (taken3 i0 i1 i2 d)) ≡ done d')
          × ((j : ℕ) → free_at d' j ≡ free_at d j)
    free_chain-submit f = (_, free_chain-freed3 sent-IsSound (submit-IsChain f), free_at-freed3)
