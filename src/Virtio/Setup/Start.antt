-- ===== src/Virtio/Setup/Start.antt =====
-- What `virtio_disk_init` leaves when the device and the allocator let it finish.
use raynix.Base.{
  ℕ, ◌≤◌, ◌<◌, ◌≡◌, refl, ◌∙◌, ◌≢◌, ◌⊎◌, inl, inr, arith, true, false, List, ◌==◌, bit_and, length,
  get_or, length-replicate,
}
use native.Mathlib.Decide.{ℕ_discrete}
use raynix.Outcome.{done, panic, ◌>>=◌}
use raynix.Kalloc.Chain.{IsFree}
use raynix.Uart.{Device}
use raynix.Virtio.{Config}
use raynix.Virtio.Alloc.{free_at, IsSound}
use raynix.Virtio.Setup.{Mmio, Setup, free_loop, announce, queue_memory, started, virtio_disk_init}
use raynix.Virtio.Setup.Queue.{IsQueue, queue_memory-cases, length-free_loop, get_or-free_loop}
use raynix.Virtio.Setup.Right.{
  writes, reads, asked, selected, told, IsRight, is_disk-cases, negotiate-asked, is_usable-cases,
}

module _ {ℓ} {S : Type ℓ} (chip : Device S) (r : Mmio) where
  -- What the call leaves when it returns.
  pub record IsStarted (c : Config) (xs : List ℕ) (x x' : Setup S) : Type ℓ where
    pub rest : List ℕ
    pub queue : IsQueue x'.desc_page x'.avail_page x'.used_page xs rest x'.kmem
    pub all_free : (j : ℕ) → j < c.num → free_at x'.disk j ≡ 1
    pub sound : IsSound c x'.disk
    pub kept : x'.disk.info ≡ x.disk.info
    pub device :
        x'.dev
        ≡ writes chip r
            (told chip r c x'.desc_page x'.avail_page x'.used_page
              (reads chip r (asked chip r x.dev) r.status))
            (selected chip r x.dev)

  module _ (quiet : (reg : ℕ) (s : S) → (chip.read reg s).1 ≡ s) where
    queued :
        (c : Config) (id : ℕ) (x : Setup S) (xs : List ℕ)
        → x.kmem.lock ≢ 0
        → IsFree x.kmem xs
        → 3 ≤ length xs
        → length x.disk.free ≡ c.num
        → (x' : Setup S) × ((queue_memory id (record x.kmem { hart = x.disk.hart })
              >>= λ (a, b, u, k). done (
                  started chip r c x
                    (reads chip r (asked chip r x.dev) r.status)
                    (selected chip r x.dev)
                    a
                    b
                    u
                    k))
            ≡ done x')
          × IsStarted c xs x x'
    unfolding announce told writes
    queued c id x xs free f enough entries =
        elim (queue_memory-cases id (record x.kmem { hart = x.disk.hart }) xs free
          (record { chain = f.chain; pages = f.pages })) [
            | inl (_, few) ↦ absurd (omega arith)
            | inr (a, b, u, rest, k, e, q) ↦
                let one : (j : ℕ) → j < c.num → get_or (free_loop c.num 0 x.disk.free) j 0 ≡ 1 =
                  λ j lt. get_or-free_loop c.num 0 j x.disk.free (omega arith) ∙ ground arith in
                (
                  started chip r c x (reads chip r (asked chip r x.dev) r.status)
                      (selected chip r x.dev) a b u k,
                  rw e refl,
                  record {
                    rest = rest;
                    queue = q;
                    all_free = one;
                    sound = record {
                      entries = length-free_loop c.num 0 x.disk.free ∙ entries;
                      descs = length-replicate c.num _;
                      binary = λ j lt. omega (arith, one j lt);
                    };
                    kept = refl;
                    device = refl;
                  },
                )
          ]

    -- On a device whose registers do not change when they are read, with the allocator's lock free, three
    -- free pages at least, and an entry of `free` for each descriptor, `virtio_disk_init` returns if
    -- and only if the device is right, and panics otherwise. Right is a device that reads chip r as a block
    -- device of QEMU behind version 2 of the registers, that keeps `FEATURES_OK` once the driver has
    -- written the features it takes, and whose queue 0 is idle and has room for `NUM` descriptors. When
    -- the call returns, the queue lies in the first three free pages, all zero, the allocator holds the
    -- others, every descriptor is free, and the device has got the size of the queue, the halves of
    -- the three addresses, the queue's start and `DRIVER_OK`, in this order.
    pub virtio_disk_init-cases :
        (c : Config) (id : ℕ) (x : Setup S) (xs : List ℕ)
        → x.kmem.lock ≢ 0
        → IsFree x.kmem xs
        → 3 ≤ length xs
        → length x.disk.free ≡ c.num
        → (IsRight chip r c x.dev
            × (x' : Setup S) × (virtio_disk_init chip r c id x ≡ done x')
            × IsStarted c xs x x')
          ⊎ ((¬ IsRight chip r c x.dev) × (virtio_disk_init chip r c id x ≡ panic))
    unfolding virtio_disk_init
    virtio_disk_init-cases c id x xs free f enough entries =
        elim (is_disk-cases chip r quiet x.dev) [
          | inr (other, e) ↦ inr ((λ right. other right.disk), rw e refl)
          | inl (disk, e) ↦
              elim (ℕ_discrete (bit_and (reads chip r (asked chip r x.dev) r.status) r.features_ok)
                0) [
                  | yes refused ↦
                      let t : (bit_and (reads chip r (asked chip r x.dev) r.status) r.features_ok
                            == 0)
                          ≡ true =
                        ground arith in
                      inr (
                        (λ right. right.agreed refused),
                        rw (e, negotiate-asked chip r quiet x.dev, t) refl,
                      )
                  | no agreed ↦
                      let t : (bit_and (reads chip r (asked chip r x.dev) r.status) r.features_ok
                            == 0)
                          ≡ false =
                        ground arith in
                      elim (is_usable-cases chip r quiet c x.dev) [
                        | inr (other, u) ↦ inr (
                          (λ right. other right.usable),
                          rw (e, negotiate-asked chip r quiet x.dev, t, u) refl,
                        )
                        | inl (usable, u) ↦
                            let (x', ran, s) = queued c id x xs free f enough entries in
                            inl (
                              record { disk = disk; agreed = agreed; usable = usable },
                              x',
                              rw (e, negotiate-asked chip r quiet x.dev, t, u) ran,
                              s,
                            )
                      ]
                ]
        ]
