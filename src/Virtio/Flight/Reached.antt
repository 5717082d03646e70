-- ===== src/Virtio/Flight/Reached.antt =====
-- The states that requests lead to, and the end of every call.
use raynix.Base.{
  Bool-cases, Option-cases, ◌^◌, ℕ, zero, suc, ◌≡◌, refl, sym, ap, subst, ◌∙◌, ◌≢◌, inl, inr,
  Option, none, some, ◌==◌, get_or, Bool, ◌⊎◌, put,
}
use raynix.Virtio.{Config, Disk, zero_desc, zero_info}
use raynix.Outcome.{Run, ◌>>=◌, done, panic, forever}
use raynix.Virtio.Request.{Wait, for_free, for_buffer, lock_disk, unlock_disk, rw_start, rw_resume}
use raynix.Virtio.Interrupt.{used_id, intr_loop, intr_round, virtio_disk_intr}
use raynix.Virtio.Chain.{IsChain}
use raynix.Virtio.Resume.{IsEnded, same-IsSound, same-IsChain, rw_resume-returns}
use raynix.Virtio.Submit.{HasFlags}
use raynix.Virtio.Rw.{opened, IsSent, rw_start-cases}
use raynix.Virtio.Alloc.{IsRolledBack}
use raynix.Virtio.Flight.{
  at_time, flight_at, Flight, Reach, start, send, wait, finish, elsewhere, Inv,
}
use raynix.Spinlock.{acquire}
use raynix.Virtio.Answer.{served}
use raynix.Virtio.Flight.Steps.{chain-used, send-Inv, kept-Inv, finish-Inv}

-- The end of a call, from the invariant.
resumes :
    (id : ℕ) {c : Config} {d : Disk} {fs : ℕ → Option Flight} (k : ℕ) (f : Flight) (numbers : ℕ → ℕ)
    → Inv c d fs
    → fs k ≡ some f
    → d.lock ≢ 0
    → d.busy f.b ≢ 1
    → (d' : Disk) × (rw_resume id (at_time c numbers) f.b f.i0 d ≡ done (none, d'))
      × IsEnded (at_time c numbers) f.i0 f.i1 f.i2 d d'
resumes id k f numbers v at free answered =
    rw_resume-returns id f.b free (same-IsSound numbers refl refl v.sound)
      (same-IsChain numbers refl refl f.i0 f.i1 f.i2 (v.chains k f at)) answered

-- the disk that a call leaves
abbrev disk_after : Disk → Run (Option Wait × Disk) → Disk
disk_after d (done (w, d')) = d'
disk_after d panic = d
disk_after d forever = d

-- A run ends in one way.
wait_of : Run (Wait × Disk) → Wait
wait_of (done (w, d)) = w
wait_of panic = for_free
wait_of forever = for_free

disk_of_run : Disk → Run (Wait × Disk) → Disk
disk_of_run d (done (w, d')) = d'
disk_of_run d panic = d
disk_of_run d forever = d

same_end :
    {w w' : Wait} {d d' : Disk}
    → ◌≡◌ {A = Run (Wait × Disk)} (done (w, d)) (done (w', d'))
    → (w ≡ w') × (d ≡ d')
unfolding wait_of disk_of_run
same_end {w} {w'} {d} {d'} e = (ap wait_of e, ap (disk_of_run d) e)

buffer_of : Wait → ℕ
buffer_of for_free = 0
buffer_of (for_buffer i0) = i0

same_buffer : {i j : ℕ} → for_buffer i ≡ for_buffer j → i ≡ j
unfolding buffer_of
same_buffer e = ap buffer_of e

not_both : {i : ℕ} → for_free ≡ for_buffer i → ⊥
not_both e = cc

-- What a call that ended in a sleep has left.
started :
    {c : Config} {d d' : Disk} {fs : ℕ → Option Flight} (id b : ℕ) (write : Bool) (numbers : ℕ → ℕ)
    (sleep : Wait)
    → HasFlags c
    → Inv c d fs
    → d.lock ≢ 0
    → rw_start id (at_time c numbers) b write d ≡ done (sleep, d')
    → ((i0 : ℕ) × (i1 : ℕ) × (i2 : ℕ) × (sleep ≡ for_buffer i0)
        × IsSent (at_time c numbers) b write i0 i1 i2 d d')
      ⊎ ((d1 : Disk) × (sleep ≡ for_free)
          × (d' ≡ unlock_disk id d1)
          × IsRolledBack (at_time c numbers) (opened id d) d1)
started {c} {d} {d'} id b write numbers sleep flags v free ran =
    elim (rw_start-cases id (at_time c numbers) b write d free
      (record { next_is = flags.next_is; write_is = flags.write_is })
      (same-IsSound numbers refl refl v.sound)) [
        | inl (i0, i1, i2, d2, ran2, r) ↦
            let (e, same) = same_end (sym ran2 ∙ ran) in
            inl (
              i0,
              i1,
              i2,
              sym e,
              subst (λ t. IsSent (at_time c numbers) b write i0 i1 i2 d t) same r,
            )
        | inr (d1, ran2, r) ↦
            let (e, same) = same_end (sym ran2 ∙ ran) in inr (d1, sym e, sym same, r)
      ]

-- The descriptors that a sent request names are its three.
flight_lem :
    {c : Config} {d : Disk} (b i0 i1 i2 : ℕ)
    → IsChain c d i0 i1 i2
    → flight_at b i0 d ≡ record { b = b; i0 = i0; i1 = i1; i2 = i2 }
flight_lem b i0 i1 i2 h = let (first, second) = h.linked in rw (first, second) refl

Reach-Inv :
    {c : Config} {d : Disk} {fs : ℕ → Option Flight} → HasFlags c → Reach c d fs → Inv c d fs
Reach-Inv flags (start sound) = record {
  sound = sound;
  chains = λ k f e. absurd (nothing f e);
  apart = λ k l f g ne e e' j u w. nothing f e;
}
  where
    nothing : (f : Flight) → none ≡ some f → ⊥
    nothing f z = cc
Reach-Inv {c} flags (send {d} {d'} {fs} id k b write i0 numbers before unused free ran) =
    let v = Reach-Inv flags before in
    elim (started id b write numbers (for_buffer i0) flags v free ran) [
      | inr (d1, e, _, _) ↦ absurd (not_both (sym e))
      | inl (j0, i1, i2, e, r) ↦
          let same : flight_at b i0 d' ≡ record { b = b; i0 = j0; i1 = i1; i2 = i2 } =
            ap (λ i. flight_at b i d') (same_buffer e) ∙ flight_lem b j0 i1 i2 r.chain in
          subst (λ f. Inv c d' (put fs k (some f))) (sym same)
            (send-Inv v k b write j0 i1 i2 numbers r)
    ]
Reach-Inv {c} flags (wait {d} {d'} {fs} id b write numbers before free ran) =
    let v = Reach-Inv flags before in
    elim (started id b write numbers for_free flags v free ran) [
      | inl (j0, i1, i2, e, r) ↦ absurd (not_both e)
      | inr (d1, _, same, r) ↦
          subst (λ t. Inv c t fs) (sym same)
            (kept-Inv {d' = unlock_disk id d1} v
              (same-IsSound {c = at_time c numbers} c.block_no {d = d1} refl refl r.sound)
              (λ k f e j u. (r.same_taken j (chain-used f (v.chains k f e) j u), r.same_free j)))
    ]
Reach-Inv {c} flags (finish {d} {d'} id k f numbers before at free answered ran) =
    let v = Reach-Inv flags before in
    let (d2, ran2, ended) = resumes id k f numbers v at free answered in
    let same : d2 ≡ d' = ap (disk_after d) (sym ran2 ∙ ran) in
    finish-Inv v k f at numbers
      (subst (λ t. IsEnded (at_time c numbers) f.i0 f.i1 f.i2 d t) same ended)
Reach-Inv {c} flags (elsewhere before same_desc same_free) =
    let v = Reach-Inv flags before in
    kept-Inv v (same-IsSound c.block_no same_desc same_free v.sound)
      (λ k f e j u. (ap (λ l. get_or l j zero_desc) same_desc, ap (λ l. get_or l j 0) same_free))

-- Let the flags of virtio.h be 1 for `VRING_DESC_F_NEXT` and 2 for `VRING_DESC_F_WRITE`. Take any state
-- that calls with the lock free, ends of calls and other work lead to from a sound one, where other
-- work leaves the array `desc` and the array `free` alone. With the lock free, the call behind any
-- request on its way then returns once its buffer is answered, without a panic, and frees the three
-- descriptors that its call has linked and no other, whichever other requests there are.
pub rw_resume-reached :
    (id k : ℕ) (c : Config) (d : Disk) (fs : ℕ → Option Flight) (f : Flight) (numbers : ℕ → ℕ)
    → HasFlags c
    → Reach c d fs
    → fs k ≡ some f
    → d.lock ≢ 0
    → d.busy f.b ≢ 1
    → (d' : Disk) × (rw_resume id (at_time c numbers) f.b f.i0 d ≡ done (none, d'))
      × IsEnded (at_time c numbers) f.i0 f.i1 f.i2 d d'
      × (IsChain c d f.i0 f.i1 f.i2)
rw_resume-reached id k c d fs f numbers flags reach at free answered =
    let v = Reach-Inv flags reach in
    let (d', ran, ended) = resumes id k f numbers v at free answered in
    (d', ran, ended, v.chains k f at)

-- What the interrupt leaves alone.
abbrev Leaves : Disk → Run Disk → Type 0
Leaves d (done d') = (d'.desc ≡ d.desc) × (d'.free ≡ d.free)
Leaves d panic = Unit
Leaves d forever = Unit

intr_loop-Leaves : (fuel : ℕ) (c : Config) (d : Disk) → Leaves d (intr_loop fuel c d)
unfolding intr_loop intr_round
intr_loop-Leaves zero c d = tt
intr_loop-Leaves (suc fuel) c d = elim (Bool-cases (d.used_idx == d.dev_idx)) [
  | inl e ↦ rw e (refl, refl)
  | inr e ↦ elim (Bool-cases ((get_or d.info (used_id c d) zero_info).status == 0)) [
    | inl good ↦
        rw (e, good) (intr_loop-Leaves fuel c (served (get_or d.info (used_id c d) zero_info).b d))
    | inr bad ↦ rw (e, bad) tt
  ]
]

-- The interrupt is other work.
pub virtio_disk_intr-Reach :
    (id : ℕ) (c : Config) (d d' : Disk) (fs : ℕ → Option Flight)
    → Reach c d fs
    → virtio_disk_intr id c d ≡ done d'
    → Reach c d' fs
unfolding virtio_disk_intr
virtio_disk_intr-Reach id c d d' fs reach ran =
    let (same_desc, same_free) = subst (Leaves d) ran (whole id c d) in
    elsewhere reach same_desc same_free
  where
    kept :
        (id : ℕ) (d0 d1 : Disk) (r : Run Disk)
        → d1.desc ≡ d0.desc
        → d1.free ≡ d0.free
        → Leaves d1 r
        → Leaves d0 (r >>= λ d2. done (unlock_disk id d2))
    kept id d0 d1 (done d2) e f (a, b) = (a ∙ e, b ∙ f)
    kept id d0 d1 panic e f h = tt
    kept id d0 d1 forever e f h = tt

    whole :
        (id : ℕ) (c : Config) (d : Disk)
        → Leaves d
            (lock_disk id d >>= λ d1. intr_loop (2 ^ 16) c d1 >>= λ d2. done (unlock_disk id d2))
    whole id c d = elim (Option-cases (acquire id (d.lock, d.hart))) [
      | inl e ↦ rw (lock_disk, e) tt
      | inr (r, e) ↦
          rw (lock_disk, e)
            (kept id d (record d { lock = r.0; hart = r.1 }) _ refl refl
              (intr_loop-Leaves (2 ^ 16) c (record d { lock = r.0; hart = r.1 })))
    ]
