-- ===== src/Tests/Devices.antt =====
-- `virtio_disk_init` of kernel/virtio_disk.c with a device that keeps the status that it is given.
use raynix.Base.{ℕ, ◌≡◌, refl, ◌≢◌, ◌⊎◌, inl, inr, arith, [], ◌∷◌, ◌==◌, if◌then◌else◌}
use raynix.Outcome.{done, panic}
use raynix.Kalloc.{Kmem, free_page}
use raynix.Kalloc.Pages.{Has, IsPage}
use raynix.Kalloc.Chain.{IsFree}
use raynix.Kalloc.Laws.{free_page-IsFree}
use raynix.Uart.{Device}
use raynix.Virtio.Setup.{Mmio, Setup, virtio_disk_init}
use raynix.Virtio.Setup.Right.{IsRight}
use raynix.Virtio.Setup.Start.{IsStarted, virtio_disk_init-cases}
use raynix.Tests.{two_pages}
use raynix.Tests.Pages.{two_pages-IsFree}
use raynix.Tests.Disks.{four, quiet}

abbrev registers : Mmio
registers = record {
  magic_value = 0x000;
  version = 0x004;
  device_id = 0x008;
  vendor_id = 0x00c;
  status = 0x070;
  device_features = 0x010;
  driver_features = 0x020;
  queue_sel = 0x030;
  queue_ready = 0x044;
  queue_num_max = 0x034;
  queue_num = 0x038;
  desc_low = 0x080;
  desc_high = 0x084;
  driver_low = 0x090;
  driver_high = 0x094;
  device_low = 0x0a0;
  device_high = 0x0a4;
  acknowledge = 1;
  driver = 2;
  features_ok = 8;
  driver_ok = 4;
  blk_ro = 5;
  blk_scsi = 7;
  blk_config_wce = 11;
  blk_mq = 12;
  any_layout = 27;
  event_idx = 29;
  indirect_desc = 28;
}

-- The state of the device is its status.
abbrev chip : Device ℕ
chip = record {
  read = λ reg s. (
    if reg == 0x000
        then 0x74726976
        else if reg == 0x004
        then 2
        else if reg == 0x008
        then 2
        else if reg == 0x00c
        then 0x554d4551
        else if reg == 0x070
        then s
        else if reg == 0x034
        then 1024
        else 0,
    s,
  );
  write = λ reg v s. if reg == 0x070 then v else s;
}

abbrev three_pages : Kmem
three_pages = free_page 16384 two_pages

page16384 : IsPage 16384
page16384 = record { aligned = refl; nonzero = omega arith; small = omega arith }

fresh16384 : (x : ℕ) → Has x (8192 ∷ 12288 ∷ []) → 16384 ≢ x
fresh16384 x (inl e) f = omega arith
fresh16384 x (inr (inl e)) f = omega arith
fresh16384 x (inr (inr z)) f = absurd z

three_pages-IsFree : IsFree three_pages (16384 ∷ 8192 ∷ 12288 ∷ [])
three_pages-IsFree = (free_page-IsFree page16384 fresh16384 two_pages-IsFree).0

three_pages-unlocked : three_pages.lock ≢ 0
unfolding free_page
three_pages-unlocked e = omega arith

abbrev reset : Setup ℕ
reset = record {
  dev = 0;
  kmem = three_pages;
  disk = quiet;
  desc_page = 0;
  avail_page = 0;
  used_page = 0;
}

virtio_disk_init-cases_example :
    (IsRight chip registers four 0
      × (x' : Setup ℕ) × (virtio_disk_init chip registers four 1 reset ≡ done x')
      × IsStarted chip registers four (16384 ∷ 8192 ∷ 12288 ∷ []) reset x')
    ⊎ ((¬ IsRight chip registers four 0) × (virtio_disk_init chip registers four 1 reset ≡ panic))
virtio_disk_init-cases_example =
    virtio_disk_init-cases chip registers (λ reg s. refl) four 1 reset (16384 ∷ 8192 ∷ 12288 ∷ [])
      three_pages-unlocked three_pages-IsFree (omega arith) refl
