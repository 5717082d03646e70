-- ===== src/Virtio/Interrupt.antt =====
-- `virtio_disk_intr`. The acknowledgement that it writes to the device changes no state of the
-- driver; `dev_idx` and `used_ring` are what the device has written.
use raynix.Base.{put, ℕ, zero, suc, ◌+◌, ◌%◌, ◌^◌, ◌∷◌, not, ◌==◌, if◌then◌else◌, get_or}
use raynix.Virtio.{Config, zero_info, Disk, buffer}
use raynix.Outcome.{Run, done, panic, forever, ◌>>=◌}
use raynix.Virtio.Request.{lock_disk, unlock_disk}

-- One round of the loop: the entry of the used ring at `used_idx`.
abbrev pub used_id : Config → Disk → ℕ
used_id c d = get_or d.used_ring (d.used_idx % c.num) 0

unfoldable pub intr_round : Config → Disk → Run Disk
intr_round c d =
    let entry = get_or d.info (used_id c d) zero_info in
    if not (entry.status == 0)
    then panic
    else done (record d {
      busy = put d.busy entry.b 0;
      woken = buffer entry.b ∷ d.woken;
      used_idx = (d.used_idx + 1) % 2 ^ 16;
    })

-- `while(disk.used_idx != disk.used->idx)`, on fuel
unfoldable pub intr_loop : ℕ → Config → Disk → Run Disk
intr_loop zero c d = forever
intr_loop (suc fuel) c d =
    if d.used_idx == d.dev_idx then done d else do d1 ← intr_round c d; intr_loop fuel c d1

-- Both indices are `uint16`, so they meet within 2 ^ 16 rounds.
unfoldable pub virtio_disk_intr : ℕ → Config → Disk → Run Disk
virtio_disk_intr id c d = do
  d1 ← lock_disk id d
  d2 ← intr_loop (2 ^ 16) c d1
  done (unlock_disk id d2)
