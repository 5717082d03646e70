-- ===== src/Virtio/Setup.antt =====
-- `virtio_disk_init` of kernel/virtio_disk.c. The registers of the device and the bits of virtio.h are
-- the fields of `Mmio`; a read of a register may change the device. `initlock` is read as
-- `spinlock_init` and `memset` as `set_memory`.
pub mod Queue
pub mod Right
pub mod Start
use raynix.Base.{
  ℕ, zero, suc, ◌+◌, ◌-◌, ◌/◌, ◌%◌, ◌^◌, Bool, true, false, not, ◌&&◌, ◌||◌, List, Option, none,
  some, bit_and, bit_or, ltb, ◌==◌, if◌then◌else◌, replicate, set,
}
use raynix.Memory.{Addr}
use raynix.Tools.{set_memory}
use raynix.Layout.{pgsize}
use raynix.Outcome.{Run, done, panic, forever, ◌>>=◌}
use raynix.Spinlock.{spinlock_init}
use raynix.Kalloc.{Kmem, kalloc}
use raynix.Uart.{Device}
use raynix.Virtio.{Config, Disk, zero_desc}

pub record Mmio : Type 0 where
  pub magic_value : ℕ
  pub version : ℕ
  pub device_id : ℕ
  pub vendor_id : ℕ
  pub status : ℕ
  pub device_features : ℕ
  pub driver_features : ℕ
  pub queue_sel : ℕ
  pub queue_ready : ℕ
  pub queue_num_max : ℕ
  pub queue_num : ℕ
  pub desc_low : ℕ
  pub desc_high : ℕ
  pub driver_low : ℕ
  pub driver_high : ℕ
  pub device_low : ℕ
  pub device_high : ℕ
  pub acknowledge : ℕ
  pub driver : ℕ
  pub features_ok : ℕ
  pub driver_ok : ℕ
  pub blk_ro : ℕ
  pub blk_scsi : ℕ
  pub blk_config_wce : ℕ
  pub blk_mq : ℕ
  pub any_layout : ℕ
  pub event_idx : ℕ
  pub indirect_desc : ℕ

-- The device, the memory, the driver's state, and its pointers to the three areas of the queue.
pub record Setup {ℓ} (S : Type ℓ) : Type ℓ where
  pub dev : S
  pub kmem : Kmem
  pub disk : Disk
  pub desc_page : Addr
  pub avail_page : Addr
  pub used_page : Addr

-- A call that may not return.
abbrev pub returned {ℓ} : {A : Type ℓ} → Option A → Run A
returned none = forever
returned (some a) = done a

-- `for(int i = 0; i < NUM; i++) disk.free[i] = 1;`, with `n` rounds left from `i` on
unfoldable pub free_loop : ℕ → ℕ → List ℕ → List ℕ
free_loop zero i free = free
free_loop (suc n) i free = free_loop n (i + 1) (set free i 1)

-- The three pages, zeroed, or a panic when one is missing.
unfoldable pub queue_memory : ℕ → Kmem → Run (Addr × Addr × Addr × Kmem)
queue_memory id k = do
  (a, k1) ← returned (kalloc id k)
  (b, k2) ← returned (kalloc id k1)
  (c, k3) ← returned (kalloc id k2)
  let mem = set_memory (set_memory (set_memory k3.mem a 0 pgsize) b 0 pgsize) c 0 pgsize
  if (a == 0) || (b == 0) || (c == 0) then panic else done (a, b, c, record k3 { mem = mem })

-- What the areas of the queue hold once they are zeroed.
abbrev pub cleared : Config → Disk → Disk
cleared c d = record d {
  desc = replicate c.num zero_desc;
  avail_ring = replicate c.num 0;
  avail_idx = 0;
  used_ring = replicate c.num 0;
  dev_idx = 0;
  lock = spinlock_init d.lock;
}

module _ {ℓ} {S : Type ℓ} (chip : Device S) (r : Mmio) where
  -- A test of a register, and the tests behind it when it holds.
  abbrev pub expect : ℕ → ℕ → (S → Bool × S) → S → Bool × S
  expect reg value next s =
      let (v, s1) = chip.read reg s in if v == value then next s1 else (false, s1)

  -- the four tests of the device's identity
  unfoldable pub is_disk : S → Bool × S
  is_disk s =
      expect r.magic_value 0x74726976
        (expect r.version 2 (expect r.device_id 2 (expect r.vendor_id 0x554d4551 (λ s. (true, s)))))
        s

  -- `features &= ~(1 << bit)`
  abbrev pub without : ℕ → ℕ → ℕ
  without bit features = bit_and features (2 ^ 64 - 1 - 2 ^ bit)

  abbrev pub wanted : ℕ → ℕ
  wanted features = without r.indirect_desc (
      without r.event_idx (
        without r.any_layout (
          without r.blk_mq
            (without r.blk_config_wce (without r.blk_scsi (without r.blk_ro features))))))

  -- from the reset to the status that the device answers with
  unfoldable pub negotiate : S → ℕ × S
  negotiate s =
      let s1 = chip.write r.status 0 s in
      let s2 = chip.write r.status (bit_or 0 r.acknowledge) s1 in
      let status = bit_or (bit_or 0 r.acknowledge) r.driver in
      let s3 = chip.write r.status status s2 in
      let (features, s4) = chip.read r.device_features s3 in
      let s5 = chip.write r.driver_features (wanted features % 2 ^ 32) s4 in
      let s6 = chip.write r.status (bit_or status r.features_ok) s5 in chip.read r.status s6

  -- Queue 0 is idle and long enough.
  unfoldable pub is_usable : Config → S → Bool × S
  is_usable c s =
      let (ready, s1) = chip.read r.queue_ready (chip.write r.queue_sel 0 s) in
      let (most, s2) = chip.read r.queue_num_max s1 in
      if not (ready == 0) then (false, s1) else (not (most == 0) && not (ltb most c.num), s2)

  -- the writes of the size and of the addresses, up to `QUEUE_READY`
  unfoldable pub announce : Config → Addr → Addr → Addr → S → S
  announce c desc avail used s =
      let s1 = chip.write r.queue_num c.num s in
      let s2 = chip.write r.desc_low (desc % 2 ^ 32) s1 in
      let s3 = chip.write r.desc_high (desc / 2 ^ 32 % 2 ^ 32) s2 in
      let s4 = chip.write r.driver_low (avail % 2 ^ 32) s3 in
      let s5 = chip.write r.driver_high (avail / 2 ^ 32 % 2 ^ 32) s4 in
      let s6 = chip.write r.device_low (used % 2 ^ 32) s5 in
      let s7 = chip.write r.device_high (used / 2 ^ 32 % 2 ^ 32) s6 in chip.write r.queue_ready 1 s7

  -- What is left at the end, with the queue's pages and memory and the status that was read.
  abbrev pub started : Config → Setup S → ℕ → S → Addr → Addr → Addr → Kmem → Setup S
  started c x answer s desc avail used k =
      let d = cleared c x.disk in
      record {
        dev = chip.write r.status (bit_or answer r.driver_ok) (announce c desc avail used s);
        kmem = k;
        disk = record d { free = free_loop c.num 0 d.free; hart = k.hart };
        desc_page = desc;
        avail_page = avail;
        used_page = used;
      }

  unfoldable pub virtio_disk_init : Config → ℕ → Setup S → Run (Setup S)
  virtio_disk_init c id x =
      let (found, s1) = is_disk x.dev in
      let (answer, s2) = negotiate s1 in
      let (usable, s3) = is_usable c s2 in
      let filled = (do
        (a, b, u, k) ← queue_memory id (record x.kmem { hart = x.disk.hart })
        done (started c x answer s3 a b u k)) in
      if not found
      then panic
      else if bit_and answer r.features_ok == 0
      then panic
      else if not usable
      then panic
      else filled
