-- ===== src/Virtio/Answer.antt =====
-- The answer of the device to one request, and the interrupt that follows.
use raynix.Base.{
  ℕ, suc, ◌+◌, ◌%◌, ◌^◌, ◌<◌, ◌≡◌, refl, ◌≢◌, false, true, ◌∷◌, arith, ◌==◌, get_or, set,
  get_or-set_self, length, put,
}
use native.Mathlib.Nat.{mod-lt}
use raynix.Virtio.{Config, Disk, buffer, zero_info}
use raynix.Outcome.{done, ◌>>=◌}
use raynix.Virtio.Request.{lock_disk, unlock_disk}
use raynix.Virtio.Interrupt.{used_id, intr_round, intr_loop, virtio_disk_intr}
use raynix.Virtio.Rw.{opened, lock_disk-free}

-- The device has written the status 0 of the request at `i0`, its entry of the used ring, and the
-- counter.
abbrev pub answered : Config → ℕ → Disk → Disk
answered c i0 d = record d {
  info = set d.info i0 (record (get_or d.info i0 zero_info) { status = 0 });
  used_ring = set d.used_ring (d.used_idx % c.num) i0;
  dev_idx = (d.used_idx + 1) % 2 ^ 16;
}

-- What the interrupt does about one answer.
abbrev pub served : ℕ → Disk → Disk
served b d = record d {
  busy = put d.busy b 0;
  woken = buffer b ∷ d.woken;
  used_idx = (d.used_idx + 1) % 2 ^ 16;
}

module _ (c : Config) (i0 : ℕ) (d : Disk) (lt : i0 < c.num) (infos : length d.info ≡ c.num)
    (ring : length d.used_ring ≡ c.num) (small : d.used_idx < 2 ^ 16) where
  one_round :
      (fuel : ℕ)
      → intr_loop (suc (suc fuel)) c (answered c i0 d)
        ≡ done (served (get_or d.info i0 zero_info).b (answered c i0 d))
  unfolding intr_loop intr_round
  one_round fuel =
      let e = answered c i0 d in
      let entry = record (get_or d.info i0 zero_info) { status = 0 } in
      let used : used_id c e ≡ i0 =
        get_or-set_self d.used_ring (d.used_idx % c.num) i0 0
          (rw ring (mod-lt d.used_idx (omega arith))) in
      let named : get_or e.info i0 zero_info ≡ entry =
        get_or-set_self d.info i0 entry zero_info (omega (arith, infos)) in
      let more : (d.used_idx == (d.used_idx + 1) % 2 ^ 16) ≡ false = ground arith in
      let over : ((d.used_idx + 1) % 2 ^ 16 == (d.used_idx + 1) % 2 ^ 16) ≡ true = ground arith in
      rw (more, used, named, over) refl

run_with :
    (id : ℕ) (c : Config) (fuel : ℕ) (d : Disk) {d' : Disk}
    → d.lock ≢ 0
    → intr_loop fuel c (opened id d) ≡ done d'
    → (lock_disk id d >>= λ d1. intr_loop fuel c d1 >>= λ d2. done (unlock_disk id d2))
      ≡ done (unlock_disk id d')
run_with id c fuel d free ran = rw (lock_disk-free id d free, ran) refl

-- With the lock free, and the rings as long as the driver thinks, the interrupt after the answer to
-- a request serves this one: its buffer is no longer in flight and is woken, and the lock is free.
pub virtio_disk_intr-answered :
    (id : ℕ) (c : Config) (i0 : ℕ) (d : Disk)
    → d.lock ≢ 0
    → i0 < c.num
    → length d.info ≡ c.num
    → length d.used_ring ≡ c.num
    → d.used_idx < 2 ^ 16
    → virtio_disk_intr id c (answered c i0 d)
      ≡ done (unlock_disk id (served (get_or d.info i0 zero_info).b (opened id (answered c i0 d))))
unfolding virtio_disk_intr
virtio_disk_intr-answered id c i0 d free lt infos ring small =
    run_with id c (2 ^ 16) (answered c i0 d) free
      (one_round c i0 (opened id d) lt infos ring small 65534)
