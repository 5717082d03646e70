-- ===== src/Virtio/Setup/Right.antt =====
-- The device that `virtio_disk_init` takes, and its three tests of it.
use raynix.Base.{
  ℕ, ◌%◌, ◌/◌, ◌^◌, ◌≤◌, ◌≡◌, refl, ap, ◌∙◌, ◌≢◌, ◌⊎◌, inl, inr, arith, true, false, List, [], ◌∷◌,
  ltb, ◌==◌, bit_and, bit_or,
}
use native.Mathlib.Decide.{ℕ_discrete, dec_lt}
use raynix.Memory.{Addr}
use raynix.Uart.{Device}
use raynix.Virtio.{Config}
use raynix.Virtio.Setup.{Mmio, is_disk, negotiate, wanted, is_usable}

module _ {ℓ} {S : Type ℓ} (chip : Device S) (r : Mmio) where
  -- values written to registers, one after the other
  unfoldable pub writes : List (ℕ × ℕ) → S → S
  writes [] s = s
  writes ((reg, v) ∷ ws) s = writes ws (chip.write reg v s)

  -- what a register reads as
  abbrev pub reads : S → ℕ → ℕ
  reads s reg = (chip.read reg s).0

  -- the device once the driver has offered the features that it takes
  pub asked : S → S
  asked s =
      let status = bit_or (bit_or 0 r.acknowledge) r.driver in
      let s3 =
        writes ((r.status, 0) ∷ (r.status, bit_or 0 r.acknowledge) ∷ (r.status, status) ∷ []) s in
      writes
        ((r.driver_features, wanted chip r (reads s3 r.device_features) % 2 ^ 32)
          ∷ (r.status, bit_or status r.features_ok)
          ∷ [])
        s3

  -- with queue 0 selected
  abbrev pub selected : S → S
  selected s = chip.write r.queue_sel 0 (asked s)

  -- The identity that the driver expects: a block device of QEMU behind version 2 of the registers.
  pub record IsDisk (s : S) : Type 0 where
    pub magic : reads s r.magic_value ≡ 0x74726976
    pub version : reads s r.version ≡ 2
    pub device : reads s r.device_id ≡ 2
    pub vendor : reads s r.vendor_id ≡ 0x554d4551

  -- Queue 0 is not in use, and has room for the descriptors.
  pub record IsUsable (c : Config) (s : S) : Type 0 where
    pub idle : reads s r.queue_ready ≡ 0
    pub present : reads s r.queue_num_max ≢ 0
    pub long : c.num ≤ reads s r.queue_num_max

  -- A device that the driver takes: it keeps `FEATURES_OK` too.
  pub record IsRight (c : Config) (s : S) : Type 0 where
    pub disk : IsDisk s
    pub agreed : bit_and (reads (asked s) r.status) r.features_ok ≢ 0
    pub usable : IsUsable c (selected s)

  -- the writes that tell the device about the queue, and that the driver is ready
  unfoldable pub told : Config → Addr → Addr → Addr → ℕ → List (ℕ × ℕ)
  told c desc avail used answer =
      (r.queue_num, c.num)
      ∷ (r.desc_low, desc % 2 ^ 32)
      ∷ (r.desc_high, desc / 2 ^ 32 % 2 ^ 32)
      ∷ (r.driver_low, avail % 2 ^ 32)
      ∷ (r.driver_high, avail / 2 ^ 32 % 2 ^ 32)
      ∷ (r.device_low, used % 2 ^ 32)
      ∷ (r.device_high, used / 2 ^ 32 % 2 ^ 32)
      ∷ (r.queue_ready, 1)
      ∷ (r.status, bit_or answer r.driver_ok)
      ∷ []

  module _ (quiet : (reg : ℕ) (s : S) → (chip.read reg s).1 ≡ s) where
    pub is_disk-cases :
        (s : S)
        → (IsDisk s × (is_disk chip r s ≡ (true, s)))
          ⊎ ((¬ IsDisk s) × (is_disk chip r s ≡ (false, s)))
    unfolding is_disk
    is_disk-cases s = elim (ℕ_discrete (reads s r.magic_value) 0x74726976) [
      | no ne ↦
          let e : (reads s r.magic_value == 0x74726976) ≡ false = ground arith in
          inr ((λ d. ne d.magic), rw (e, quiet r.magic_value s) refl)
      | yes e1 ↦
          let t1 : (reads s r.magic_value == 0x74726976) ≡ true = ground arith in
          elim (ℕ_discrete (reads s r.version) 2) [
            | no ne ↦
                let e : (reads s r.version == 2) ≡ false = ground arith in
                inr ((λ d. ne d.version), rw (t1, quiet r.magic_value s, e, quiet r.version s) refl)
            | yes e2 ↦
                let t2 : (reads s r.version == 2) ≡ true = ground arith in
                elim (ℕ_discrete (reads s r.device_id) 2) [
                  | no ne ↦
                      let e : (reads s r.device_id == 2) ≡ false = ground arith in
                      inr (
                        (λ d. ne d.device),
                        rw
                            (
                              t1,
                              quiet r.magic_value s,
                              t2,
                              quiet r.version s,
                              e,
                              quiet r.device_id s,
                            )
                            refl,
                      )
                  | yes e3 ↦
                      let t3 : (reads s r.device_id == 2) ≡ true = ground arith in
                      last s e1 e2 e3 t1 t2 t3
                ]
          ]
    ]
      where
        last :
            (s : S)
            → reads s r.magic_value ≡ 0x74726976
            → reads s r.version ≡ 2
            → reads s r.device_id ≡ 2
            → (reads s r.magic_value == 0x74726976) ≡ true
            → (reads s r.version == 2) ≡ true
            → (reads s r.device_id == 2) ≡ true
            → (IsDisk s × (is_disk chip r s ≡ (true, s)))
              ⊎ ((¬ IsDisk s) × (is_disk chip r s ≡ (false, s)))
        last s e1 e2 e3 t1 t2 t3 = elim (ℕ_discrete (reads s r.vendor_id) 0x554d4551) [
          | no ne ↦
              let e : (reads s r.vendor_id == 0x554d4551) ≡ false = ground arith in
              inr (
                (λ d. ne d.vendor),
                rw
                    (
                      t1,
                      quiet r.magic_value s,
                      t2,
                      quiet r.version s,
                      t3,
                      quiet r.device_id s,
                      e,
                      quiet r.vendor_id s,
                    )
                    refl,
              )
          | yes e4 ↦
              let t4 : (reads s r.vendor_id == 0x554d4551) ≡ true = ground arith in
              inl (
                record { magic = e1; version = e2; device = e3; vendor = e4 },
                rw
                    (
                      t1,
                      quiet r.magic_value s,
                      t2,
                      quiet r.version s,
                      t3,
                      quiet r.device_id s,
                      t4,
                      quiet r.vendor_id s,
                    )
                    refl,
              )
        ]

    pub negotiate-asked : (s : S) → negotiate chip r s ≡ (reads (asked s) r.status, asked s)
    unfolding negotiate asked writes
    negotiate-asked s =
        let status = bit_or (bit_or 0 r.acknowledge) r.driver in
        let s3 : S =
          chip.write r.status status
            (chip.write r.status (bit_or 0 r.acknowledge) (chip.write r.status 0 s)) in
        let features : ℕ = wanted chip r (reads s3 r.device_features) % 2 ^ 32 in
        let answer : S → ℕ × S = λ s4. chip.read r.status (
          chip.write r.status (bit_or status r.features_ok)
            (chip.write r.driver_features features s4)) in
        ap answer (quiet r.device_features s3)
        ∙ ap (λ t. (reads (asked s) r.status, t)) (quiet r.status (asked s))

    pub is_usable-cases :
        (c : Config) (s : S)
        → (IsUsable c (selected s) × (is_usable chip r c (asked s) ≡ (true, selected s)))
          ⊎ ((¬ IsUsable c (selected s)) × (is_usable chip r c (asked s) ≡ (false, selected s)))
    unfolding is_usable
    is_usable-cases c s =
        let q = selected s in
        let most = reads q r.queue_num_max in
        elim (ℕ_discrete (reads q r.queue_ready) 0) [
          | no ne ↦
              let e : (reads q r.queue_ready == 0) ≡ false = ground arith in
              inr ((λ u. ne u.idle), rw (e, quiet r.queue_ready q) refl)
          | yes z ↦
              let e : (reads q r.queue_ready == 0) ≡ true = ground arith in
              elim (ℕ_discrete most 0) [
                | yes absent ↦
                    let t : (most == 0) ≡ true = ground arith in
                    inr (
                      (λ u. u.present absent),
                      rw (e, quiet r.queue_ready q, quiet r.queue_num_max q, t) refl,
                    )
                | no some_ ↦
                    let t : (most == 0) ≡ false = ground arith in
                    elim (dec_lt most c.num) [
                      | yes short ↦
                          let w : ltb most c.num ≡ true = ground arith in
                          inr (
                            (λ u. let le = u.long in omega arith),
                            rw (e, quiet r.queue_ready q, quiet r.queue_num_max q, t, w) refl,
                          )
                      | no enough ↦
                          let w : ltb most c.num ≡ false = ground arith in
                          inl (
                            record { idle = z; present = some_; long = omega arith },
                            rw (e, quiet r.queue_ready q, quiet r.queue_num_max q, t, w) refl,
                          )
                    ]
              ]
        ]
