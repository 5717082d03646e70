-- ===== src/Mkfs/Append/Block.antt =====
-- The block that `iappend` takes for the next part of a file with direct blocks.
use raynix.Base.{
  ℕ, ◌+◌, ◌*◌, ◌%◌, ◌^◌, ◌<◌, ◌≤◌, ◌≡◌, refl, ap, sym, ◌∙◌, ◌≢◌, ◌⊎◌, inl, inr, arith, true, ltb,
  ◌==◌, length, get_or, set, length-set, get_or-set_self, get_or-set_ne, Bool-cases,
}
use native.Mathlib.Nat.{mul-le-mul_left}
use native.Mathlib.Decide.{ℕ_discrete}
use raynix.Outcome.{done}
use raynix.Mkfs.Order.{xint}
use raynix.Mkfs.Order.Laws.{xint-xint, xint-lt}
use raynix.Mkfs.Image.{Format, Host, Image, Dinode, place}
use raynix.Mkfs.Append.{fill_addr, block_for}

-- The block that entry `i` of an inode names.
abbrev pub addr : Host → Dinode → ℕ → ℕ
addr host din i = xint host.order (get_or din.addrs i 0)

-- The data blocks: those from `lo` on and below `hi`, on all of which the host's calls succeed.
pub record IsArea (fmt : Format) (host : Host) (lo hi : ℕ) : Type 0 where
  pub not_boot : 0 < lo
  pub some_bytes : 0 < fmt.bsize
  pub fits : hi * fmt.bsize < 2 ^ 32
  pub seeks : (s : ℕ) → lo ≤ s → s < hi → host.seeks (place fmt s) ≡ true
  pub reads : (s : ℕ) → lo ≤ s → s < hi → host.reads (place fmt s) ≡ true
  pub writes : (s : ℕ) → lo ≤ s → s < hi → host.writes (place fmt s) ≡ true

-- An inode and the image: every direct entry is 0 or names a data block that is handed out, no two
-- the same one, and the part of the file below `off` has its blocks.
pub record IsReady (fmt : Format) (host : Host) (lo hi off : ℕ) (din : Dinode) (m : Image)
    : Type 0 where
  pub blocks : length din.addrs ≡ fmt.ndirect + 1
  pub range :
      (i : ℕ)
      → i < fmt.ndirect
      → (addr host din i ≡ 0) ⊎ ((lo ≤ addr host din i) × (addr host din i < m.freeblock))
  pub single :
      (i j : ℕ)
      → i < fmt.ndirect
      → j < fmt.ndirect
      → addr host din i ≢ 0
      → addr host din i ≡ addr host din j
      → i ≡ j
  pub begun : (i : ℕ) → i < fmt.ndirect → i * fmt.bsize < off → addr host din i ≢ 0
  pub words : (i : ℕ) → get_or din.addrs i 0 < 2 ^ 32
  pub above : lo ≤ m.freeblock
  pub below : m.freeblock ≤ hi

-- Block `x`, which entry `fbn` names now; the other entries and the file are as they were.
pub record IsTaken (fmt : Format) (host : Host) (lo fbn : ℕ) (din : Dinode) (m : Image) (x : ℕ)
    (din1 : Dinode) (m1 : Image) : Type 0 where
  pub named : addr host din1 fbn ≡ x
  pub from_lo : lo ≤ x
  pub handed_out : x < m1.freeblock
  pub other_entries : (i : ℕ) → i ≢ fbn → addr host din1 i ≡ addr host din i
  pub other_blocks : (i : ℕ) → i < fmt.ndirect → i ≢ fbn → addr host din i ≢ x
  pub kept : addr host din fbn ≢ 0 → addr host din fbn ≡ x
  pub inode : din1 ≡ record din { addrs = din1.addrs }
  pub blocks : length din1.addrs ≡ length din.addrs
  pub words : (i : ℕ) → get_or din1.addrs i 0 < 2 ^ 32
  pub image : m1 ≡ record m { freeblock = m1.freeblock }
  pub more : m.freeblock ≤ m1.freeblock
  pub one_more : m1.freeblock ≤ m.freeblock + 1

module _ (fmt : Format) (host : Host) (lo hi off : ℕ) (din : Dinode) (m : Image)
    (area : IsArea fmt host lo hi) (r : IsReady fmt host lo hi off din m) where
  -- the inode and the image when entry `fbn` is given the next block
  abbrev filled_inode : ℕ → Dinode
  filled_inode fbn = record din { addrs = set din.addrs fbn (xint host.order m.freeblock) }

  abbrev filled_image : Image
  filled_image = record m { freeblock = (m.freeblock + 1) % 2 ^ 32 }

  small : m.freeblock < hi → m.freeblock + 1 < 2 ^ 32
  small lt =
      let one : 1 ≤ fmt.bsize = area.some_bytes in omega (arith, area.fits, mul-le-mul_left hi one)

  fresh : (i : ℕ) → i < fmt.ndirect → addr host din i ≢ m.freeblock
  fresh i lt e = elim (r.range i lt) [
    | inl zero_ ↦ omega (arith, area.not_boot, r.above)
    | inr (le, below) ↦ omega arith
  ]

  pub in_range :
      (i : ℕ)
      → i < fmt.ndirect
      → addr host din i ≢ 0
      → (lo ≤ addr host din i) × (addr host din i < m.freeblock)
  in_range i lt ne = elim (r.range i lt) [ inl zero_ ↦ absurd (ne zero_) | inr both ↦ both ]

  named :
      (fbn : ℕ)
      → fbn < fmt.ndirect
      → m.freeblock < hi
      → addr host (filled_inode fbn) fbn ≡ m.freeblock
  named fbn lt room =
      ap (xint host.order) (get_or-set_self din.addrs fbn _ 0 (omega (arith, r.blocks)))
      ∙ xint-xint host.order m.freeblock (omega (arith, small room))

  words_filled :
      (fbn : ℕ) → fbn < fmt.ndirect → (i : ℕ) → get_or (filled_inode fbn).addrs i 0 < 2 ^ 32
  words_filled fbn lt i =
      let x = xint host.order m.freeblock in
      elim (ℕ_discrete i fbn) [
        | yes here ↦
            let e : get_or (set din.addrs fbn x) i 0 ≡ x =
              ap (λ j. get_or (set din.addrs fbn x) j 0) here
              ∙ get_or-set_self din.addrs fbn x 0 (omega (arith, r.blocks)) in
            omega (arith, e, xint-lt host.order m.freeblock)
        | no other ↦
            omega (arith, get_or-set_ne din.addrs fbn i x 0 (λ e. other (sym e)), r.words i)
      ]

  pub block_for-IsTaken :
      (fbn : ℕ)
      → fbn < fmt.ndirect
      → m.freeblock < hi
      → (x : ℕ) × (din1 : Dinode) × (m1 : Image) × (block_for fmt host fbn din m
          ≡ done (x, din1, m1))
        × IsTaken fmt host lo fbn din m x din1 m1
  unfolding block_for fill_addr
  block_for-IsTaken fbn direct room =
      let is_direct : ltb fbn fmt.ndirect ≡ true = ground arith in
      elim (Bool-cases (addr host din fbn == 0)) [
        | inl empty ↦ (
          m.freeblock,
          filled_inode fbn,
          filled_image,
          rw (is_direct, empty, named fbn direct room) refl,
          record {
            named = named fbn direct room;
            from_lo = r.above;
            handed_out = omega (arith, small room);
            other_entries =
                λ i ne. ap (xint host.order) (get_or-set_ne din.addrs fbn i _ 0 (λ e. ne (sym e)));
            other_blocks = λ i lt ne e. fresh i lt e;
            kept = λ ne. absurd (ne (ground arith));
            inode = refl;
            blocks = length-set din.addrs fbn _;
            words = words_filled fbn direct;
            image = refl;
            more = omega (arith, small room);
            one_more = omega (arith, small room);
          },
        )
        | inr full ↦ (
          addr host din fbn,
          din,
          m,
          rw (is_direct, full) refl,
          (let (le, below) = in_range fbn direct (λ e. ground arith) in
              record {
                named = refl;
                from_lo = le;
                handed_out = below;
                other_entries = λ i ne. refl;
                other_blocks =
                    λ i lt ne e. ne (sym (r.single fbn i direct lt (λ z. ground arith) (sym e)));
                kept = λ ne. refl;
                inode = refl;
                blocks = refl;
                words = r.words;
                image = refl;
                more = omega arith;
                one_more = omega arith;
              }),
        )
      ]
