-- ===== src/Mkfs/Append/Round.antt =====
-- One round of the loop of `iappend`, on a file with direct blocks.
use raynix.Base.{
  ℕ, ◌+◌, ◌-◌, ◌*◌, ◌/◌, ◌%◌, ◌^◌, ◌<◌, ◌≤◌, ◌≡◌, ap, sym, ◌∙◌, ◌≢◌, ◌⊎◌, inl, inr, arith, ltb,
  Bool-cases,
}
use native.Mathlib.Decide.{ℕ_discrete}
use native.Mathlib.Nat.{div-add-mod', div-eq_of_lt-le, div-lt_iff_lt-mul, mod-lt, mul-le-mul_right}
use raynix.Mkfs.Order.{Bytes}
use raynix.Mkfs.Image.{Format, Host, Image, Dinode, place}
use raynix.Mkfs.Image.Sectors.{written, written-inside, written-outside}
use raynix.Mkfs.Append.{chunk, splice}
use raynix.Mkfs.Append.Ends.{chunk-min}
use raynix.Mkfs.Append.Block.{addr, IsArea, IsReady, IsTaken}

-- Byte `k` of the file of an inode with direct blocks.
abbrev pub content : Format → Host → Image → Dinode → ℕ → ℕ
content fmt host m din k = m.file (place fmt (addr host din (k / fmt.bsize)) + k % fmt.bsize)

-- `m'` and `din'` are `m` and `din` with `n` bytes of `p` behind byte `off` of the file: what was
-- before is as it was, and so is everything outside the data blocks.
pub record IsGrown (fmt : Format) (host : Host) (lo off n : ℕ) (p : Bytes) (din : Dinode)
    (m : Image) (din' : Dinode) (m' : Image) : Type 0 where
  pub old : (k : ℕ) → k < off → content fmt host m' din' k ≡ content fmt host m din k
  pub new : (j : ℕ) → j < n → content fmt host m' din' (off + j) ≡ p j
  pub outside : (b : ℕ) → b < lo * fmt.bsize → m'.file b ≡ m.file b
  pub inode : din' ≡ record din { addrs = din'.addrs }
  pub image : m' ≡ record m { file = m'.file; freeblock = m'.freeblock }

from_lem : (fmt : Format) (off : ℕ) → off - off / fmt.bsize * fmt.bsize ≡ off % fmt.bsize
from_lem fmt off = omega (arith, div-add-mod' off fmt.bsize)

splice-old :
    (fmt : Format) (off n1 i : ℕ) (p buf : Bytes)
    → i < off % fmt.bsize
    → splice fmt off n1 p buf i ≡ buf i
splice-old fmt off n1 i p buf lt = rw (from_lem fmt off) (ground arith)

splice-new :
    (fmt : Format) (off n1 j : ℕ) (p buf : Bytes)
    → j < n1
    → splice fmt off n1 p buf (off % fmt.bsize + j) ≡ p j
splice-new fmt off n1 j p buf lt =
    let back : off % fmt.bsize + j - off % fmt.bsize ≡ j = omega arith in
    rw (from_lem fmt off, back) (ground arith)

-- A data block lies where it should, apart from every other sector.
module _ (fmt : Format) (host : Host) (lo hi : ℕ) (area : IsArea fmt host lo hi) where
  place_lem :
      (s : ℕ)
      → s < hi
      → (place fmt s ≡ s * fmt.bsize) × (s * fmt.bsize + fmt.bsize ≤ hi * fmt.bsize)
  place_lem s lt = (
    omega (arith, area.fits, mul-le-mul_right fmt.bsize lt),
    omega (arith, mul-le-mul_right fmt.bsize lt),
  )

  apart :
      (s t b : ℕ)
      → s < hi
      → t < hi
      → s ≢ t
      → b < fmt.bsize
      → (place fmt s + b < place fmt t) ⊎ (place fmt t + fmt.bsize ≤ place fmt s + b)
  apart s t b hs ht ne lt =
      rw ((place_lem s hs).0, (place_lem t ht).0)
        (elim (Bool-cases (ltb s t)) [
          | inl below ↦
              let le : s + 1 ≤ t = ground arith in
              inl (omega (arith, mul-le-mul_right fmt.bsize le))
          | inr above ↦
              let le : t + 1 ≤ s = ground arith in
              inr (omega (arith, mul-le-mul_right fmt.bsize le))
        ])

  -- The round that puts `n1` bytes of `p` into block `x`.
  module _ (off n : ℕ) (p : Bytes) (din : Dinode) (m : Image) (r : IsReady fmt host lo hi off din m)
      (x : ℕ) (din1 : Dinode) (m1 : Image)
      (t : IsTaken fmt host lo (off / fmt.bsize) din m x din1 m1)
      (direct : off / fmt.bsize < fmt.ndirect) (inside : m1.freeblock ≤ hi) where
    abbrev n1 : ℕ
    n1 = chunk fmt off n

    abbrev previous : Bytes
    previous i = m1.file (place fmt x + i)

    abbrev spliced : Bytes
    spliced = splice fmt off n1 p previous

    abbrev pub after_round : Image
    after_round = written fmt (place fmt x) spliced m1

    file1 : m1.file ≡ m.file
    file1 = ap (λ (u : Image). u.file) t.image

    x_hi : x < hi
    x_hi = omega (arith, t.handed_out)

    below_hi : (i : ℕ) → i < fmt.ndirect → addr host din i < hi
    below_hi i lt = elim (r.range i lt) [
      | inl zero_ ↦ omega (arith, area.not_boot, t.from_lo, x_hi)
      | inr (le, below) ↦ omega (arith, r.below)
    ]

    bsize_word : fmt.bsize < 2 ^ 32
    bsize_word = omega (arith, area.fits, (place_lem x x_hi).1)

    -- the bytes of the round lie in one block
    same_block :
        (j : ℕ)
        → j < n1
        → ((off + j) / fmt.bsize ≡ off / fmt.bsize) × ((off + j) % fmt.bsize ≡ off % fmt.bsize + j)
    same_block j lt =
        let room : n1 ≤ fmt.bsize - off % fmt.bsize =
          omega (arith, chunk-min fmt off n area.some_bytes bsize_word) in
        let q : (off + j) / fmt.bsize ≡ off / fmt.bsize =
          div-eq_of_lt-le fmt.bsize (omega (arith, div-add-mod' off fmt.bsize))
            (omega (arith, div-add-mod' off fmt.bsize)) in
        (
          q,
          omega (
            arith,
            div-add-mod' off fmt.bsize,
            div-add-mod' (off + j) fmt.bsize,
            ap (λ t. t * fmt.bsize) q,
          ),
        )

    at_block :
        (k : ℕ)
        → k / fmt.bsize ≡ off / fmt.bsize
        → content fmt host after_round din1 k ≡ spliced (k % fmt.bsize)
    at_block k e =
        rw (e, t.named)
          (written-inside fmt (place fmt x) (k % fmt.bsize) spliced m1 (mod-lt k area.some_bytes))

    round_old : (k : ℕ) → k < off → content fmt host after_round din1 k ≡ content fmt host m din k
    round_old k lt = elim (ℕ_discrete (k / fmt.bsize) (off / fmt.bsize)) [
      | yes same ↦
          let low : k % fmt.bsize < off % fmt.bsize = omega (
            arith,
            div-add-mod' k fmt.bsize,
            div-add-mod' off fmt.bsize,
            ap (λ q. q * fmt.bsize) same,
          ) in
          let begun : addr host din (off / fmt.bsize) ≢ 0 =
            r.begun (off / fmt.bsize) direct (omega (arith, div-add-mod' off fmt.bsize)) in
          at_block k same
          ∙ splice-old fmt off n1 (k % fmt.bsize) p previous low
          ∙ ap (λ f. f (place fmt x + k % fmt.bsize)) file1
          ∙ ap (λ s. m.file (place fmt s + k % fmt.bsize))
              (sym (t.kept begun) ∙ ap (addr host din) (sym same))
      | no other ↦ rw (t.other_entries (k / fmt.bsize) other) (
          let before : k / fmt.bsize < fmt.ndirect =
            let le : k / fmt.bsize < off / fmt.bsize + 1 =
              (div-lt_iff_lt-mul {k = fmt.bsize} {x = k} {y = off / fmt.bsize + 1}
                  area.some_bytes).1
                (omega (arith, div-add-mod' off fmt.bsize, mod-lt off area.some_bytes)) in
            omega arith in
          written-outside fmt (place fmt x) _ spliced m1 (
            apart (addr host din (k / fmt.bsize)) x (k % fmt.bsize)
              (below_hi (k / fmt.bsize) before) x_hi (t.other_blocks (k / fmt.bsize) before other)
              (mod-lt k area.some_bytes))
          ∙ ap (λ f. f (place fmt (addr host din (k / fmt.bsize)) + k % fmt.bsize)) file1)
    ]

    round_new : (j : ℕ) → j < n1 → content fmt host after_round din1 (off + j) ≡ p j
    round_new j lt =
        let (q, e) = same_block j lt in
        at_block (off + j) q ∙ ap spliced e ∙ splice-new fmt off n1 j p previous lt

    round_outside : (b : ℕ) → b < lo * fmt.bsize → after_round.file b ≡ m.file b
    round_outside b lt =
        written-outside fmt (place fmt x) b spliced m1
          (inl (omega (arith, (place_lem x x_hi).0, mul-le-mul_right fmt.bsize t.from_lo)))
        ∙ ap (λ f. f b) file1

    pub round-IsGrown : IsGrown fmt host lo off n1 p din m din1 after_round
    round-IsGrown = record {
      old = round_old;
      new = round_new;
      outside = round_outside;
      inode = t.inode;
      image = ap (λ (u : Image). record u { file = after_round.file }) t.image;
    }

    -- a block that the file has begun after the round, other than that of the round, was begun before
    earlier : (i : ℕ) → i ≢ off / fmt.bsize → i * fmt.bsize < off + n1 → i * fmt.bsize < off
    earlier i ne h =
        let room : n1 ≤ fmt.bsize - off % fmt.bsize =
          omega (arith, chunk-min fmt off n area.some_bytes bsize_word) in
        elim (Bool-cases (ltb i (off / fmt.bsize))) [
          | inl before ↦
              let le : i + 1 ≤ off / fmt.bsize = ground arith in
              omega
                (arith, area.some_bytes, div-add-mod' off fmt.bsize, mul-le-mul_right fmt.bsize le)
          | inr after ↦
              let le : off / fmt.bsize + 1 ≤ i = ground arith in
              absurd (
                omega (
                  arith,
                  mod-lt off area.some_bytes,
                  div-add-mod' off fmt.bsize,
                  mul-le-mul_right fmt.bsize le,
                ))
        ]

    pub round-IsReady : IsReady fmt host lo hi (off + n1) din1 after_round
    round-IsReady = record {
      blocks = t.blocks ∙ r.blocks;
      range = λ i lt. elim (ℕ_discrete i (off / fmt.bsize)) [
        | yes here ↦ rw (here, t.named) (inr (t.from_lo, t.handed_out))
        | no other ↦ rw (t.other_entries i other) (elim (r.range i lt) [
          | inl zero_ ↦ inl zero_
          | inr (le, below) ↦ inr (le, omega (arith, t.more))
        ])
      ];
      single = λ i j hi hj ne e. elim (ℕ_discrete i (off / fmt.bsize)) [
        | yes here ↦ elim (ℕ_discrete j (off / fmt.bsize)) [
          | yes there ↦ here ∙ sym there
          | no other ↦ absurd (
              t.other_blocks j hj other
                (sym (t.other_entries j other) ∙ sym e ∙ ap (addr host din1) here ∙ t.named))
        ]
        | no other ↦ elim (ℕ_discrete j (off / fmt.bsize)) [
          | yes there ↦ absurd (
              t.other_blocks i hi other
                (sym (t.other_entries i other) ∙ e ∙ ap (addr host din1) there ∙ t.named))
          | no other' ↦
              r.single i j hi hj (λ z. ne (t.other_entries i other ∙ z))
                (sym (t.other_entries i other) ∙ e ∙ t.other_entries j other')
        ]
      ];
      begun = λ i lt h. elim (ℕ_discrete i (off / fmt.bsize)) [
        | yes here ↦ λ z.
            omega
              (arith, area.not_boot, t.from_lo, sym t.named ∙ ap (addr host din1) (sym here) ∙ z)
        | no other ↦ λ z. r.begun i lt (earlier i other h) (sym (t.other_entries i other) ∙ z)
      ];
      words = t.words;
      above = omega (arith, r.above, t.more);
      below = inside;
    }
