-- ===== src/Mkfs/Image/Bitmap.antt =====
-- The bitmap that `balloc` writes.
use raynix.Base.{
  ℕ, zero, suc, ◌+◌, ◌*◌, ◌/◌, ◌%◌, ◌^◌, ◌<◌, ◌≤◌, ◌≡◌, refl, ◌∙◌, ◌≢◌, ◌⊎◌, arith, inl, inr,
  Bool-cases, true, ◌&&◌, ltb, leb, bit_or, if◌then◌else◌, put, put_self, put_ne,
}
use raynix.Base.Bits.{bit, bit-bit_or, bit-mod, bit_pow_self, bit_pow_ne}
use native.Mathlib.Decide.{ℕ_discrete}
use raynix.Outcome.{done, panic}
use raynix.Mkfs.Order.{Bytes}
use raynix.Mkfs.Image.{Format, Host, Image, place, bit_loop, balloc}
use raynix.Mkfs.Image.Sectors.{written, wsect-written, written-inside, written-outside}

-- bit `j` of a bitmap
abbrev pub mark : Bytes → ℕ → ℕ
mark buf j = bit (buf (j / 8)) (j % 8)

-- one round of the loop
abbrev marked : ℕ → Bytes → Bytes
marked i buf = put buf (i / 8) (bit_or (buf (i / 8)) (2 ^ (i % 8)) % 0x100)

mark_self : (i : ℕ) (buf : Bytes) → mark (marked i buf) i ≡ 1
mark_self i buf =
    let at = i % 8 in
    rw (put_self buf (i / 8) (bit_or (buf (i / 8)) (2 ^ at) % 0x100)) (
      bit-mod 8 at (bit_or (buf (i / 8)) (2 ^ at)) (omega arith)
      ∙ bit-bit_or at (buf (i / 8)) (2 ^ at)
      ∙ omega (arith, bit_pow_self at))

mark_ne : (i j : ℕ) (buf : Bytes) → j ≢ i → mark (marked i buf) j ≡ mark buf j
mark_ne i j buf ne =
    let value = bit_or (buf (i / 8)) (2 ^ (i % 8)) in
    elim (ℕ_discrete (j / 8) (i / 8)) [
      | yes same ↦
          rw (same, put_self buf (i / 8) (value % 0x100))
            (bit-mod 8 (j % 8) value (omega arith)
              ∙ bit-bit_or (j % 8) (buf (i / 8)) (2 ^ (i % 8))
              ∙ omega (arith, bit_pow_ne (i % 8) (j % 8) (λ e. ne (omega arith))))
      | no apart ↦ rw (put_ne buf (i / 8) (j / 8) (value % 0x100) apart) refl
    ]

mark-bit_loop :
    (n i j : ℕ) (buf : Bytes)
    → mark (bit_loop n i buf) j ≡ (if leb i j && ltb j (i + n) then 1 else mark buf j)
unfolding bit_loop
mark-bit_loop zero i j buf = ground arith
mark-bit_loop (suc n) i j buf =
    rw (mark-bit_loop n (i + 1) j (marked i buf)) (elim (ℕ_discrete j i) [
      | yes here ↦ rw (here, mark_self i buf) (ground arith)
      | no ne ↦ rw (mark_ne i j buf ne) (ground arith)
    ])

-- `balloc` for fewer blocks than a block has bits, with the host's calls on the sector of the bitmap
-- succeeding, writes a bitmap in which a bit is set exactly if its block is below `used`, and
-- nothing else; for more blocks it fails its assertion.
pub balloc-mark :
    (fmt : Format) (host : Host) (used : ℕ) (m : Image)
    → host.seeks (place fmt m.sb.bmapstart) ≡ true
    → host.writes (place fmt m.sb.bmapstart) ≡ true
    → ((used < fmt.bsize * 8)
        × (m' : Image) × (balloc fmt host used m ≡ done m')
        × ((j : ℕ)
            → j < fmt.bsize * 8
            → mark (λ k. m'.file (place fmt m.sb.bmapstart + k)) j ≡ (if ltb j used then 1 else 0))
        × ((b : ℕ)
            → (b < place fmt m.sb.bmapstart) ⊎ (place fmt m.sb.bmapstart + fmt.bsize ≤ b)
            → m'.file b ≡ m.file b)
        × (m' ≡ record m { file = m'.file }))
      ⊎ ((fmt.bsize * 8 ≤ used) × (balloc fmt host used m ≡ panic))
unfolding balloc
balloc-mark fmt host used m seeks writes =
    let bits = bit_loop used 0 (λ _. 0) in
    let start = place fmt m.sb.bmapstart in
    elim (Bool-cases (ltb used (fmt.bsize * 8))) [
      | inl fits ↦ inl (
        ground arith,
        written fmt start bits m,
        rw (fits, wsect-written fmt host m.sb.bmapstart bits m seeks writes) refl,
        (λ j lt.
            rw
              (
                written-inside fmt start (j / 8) bits m (omega arith),
                mark-bit_loop used 0 j (λ _. 0),
              )
              (ground arith)),
        (λ b out. written-outside fmt start b bits m out),
        refl,
      )
      | inr more ↦ inr (ground arith, rw more refl)
    ]
