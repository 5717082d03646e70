-- ===== src/Mkfs/Image/Inodes.antt =====
-- An inode written by `winode` or `ialloc` is what `rinode` reads, and the other inodes stay.
use raynix.Base.{
  ℕ, ◌+◌, ◌*◌, ◌%◌, ◌^◌, ◌<◌, ◌≤◌, ◌≡◌, refl, ap, ◌∙◌, ◌≢◌, ◌⊎◌, inl, inr, arith, Bool-cases, ltb,
  true, ◌&&◌, length, length-replicate, zero, suc, get_or, replicate,
}
use native.Mathlib.Decide.{ℕ_discrete}
use native.Mathlib.Nat.{mod-lt, mul-le-mul_right}
use raynix.Outcome.{done}
use raynix.Mkfs.Order.{Bytes}
use raynix.Mkfs.Order.Laws.{xshort-lt, xint-lt}
use raynix.Mkfs.Image.{
  Format, Host, Image, Super, Dinode, place, new_dinode, rsect, winode, rinode, ialloc,
}
use raynix.Mkfs.Image.Sectors.{written, wsect-written, rsect-file, written-inside, written-outside}

-- The members have the widths that `struct dinode` gives them.
pub record IsDinode (fmt : Format) (d : Dinode) : Type 0 where
  pub short_type : d.type < 2 ^ 16
  pub short_nlink : d.nlink < 2 ^ 16
  pub word_size : d.size < 2 ^ 32
  pub blocks : length d.addrs ≡ fmt.ndirect + 1
  pub words : (i : ℕ) → get_or d.addrs i 0 < 2 ^ 32

-- What the headers promise: an array of inodes in a block, and a place of its own for each inode.
pub record IsFormat (fmt : Format) : Type 0 where
  pub same :
      (buf : Bytes) (k : ℕ) (d : Dinode)
      → k < fmt.ipb
      → IsDinode fmt d
      → fmt.get_dinode (fmt.set_dinode buf k d) k ≡ d
  pub apart :
      (buf : Bytes) (j k : ℕ) (d : Dinode)
      → j < fmt.ipb
      → k < fmt.ipb
      → j ≢ k
      → fmt.get_dinode (fmt.set_dinode buf k d) j ≡ fmt.get_dinode buf j
  pub local :
      (buf buf' : Bytes) (k : ℕ)
      → k < fmt.ipb
      → ((b : ℕ) → b < fmt.bsize → buf b ≡ buf' b)
      → fmt.get_dinode buf k ≡ fmt.get_dinode buf' k
  pub places :
      (i j : ℕ) (sb : Super) → fmt.iblock i sb ≡ fmt.iblock j sb → i % fmt.ipb ≡ j % fmt.ipb → i ≡ j
  pub some_inodes : 0 < fmt.ipb

-- The block of inode `i` lies in what a `uint` can address.
abbrev pub IsInside : Format → Super → ℕ → Type 0
IsInside fmt sb i = (fmt.iblock i sb + 1) * fmt.bsize ≤ 2 ^ 32

-- `m'` is `m` with inode `i` set to `d`: it reads as `d`, every other inode as before, and nothing
-- outside its block has changed.
pub record IsWritten (fmt : Format) (host : Host) (i : ℕ) (d : Dinode) (m m' : Image) : Type 0 where
  pub own : rinode fmt host i m' ≡ done d
  pub others : (j : ℕ) → j ≢ i → IsInside fmt m.sb j → rinode fmt host j m' ≡ rinode fmt host j m
  pub outside :
      (b : ℕ)
      → (b < place fmt (fmt.iblock i m.sb)) ⊎ (place fmt (fmt.iblock i m.sb) + fmt.bsize ≤ b)
      → m'.file b ≡ m.file b
  pub rest : m' ≡ record m { file = m'.file }

-- Reading an inode depends on what its place in the file holds.
pub rinode-agree :
    (fmt : Format) (host : Host) (j : ℕ) (m : Image) (f : Bytes)
    → let start = place fmt (fmt.iblock j m.sb) in
      fmt.get_dinode (λ t. f (start + t)) (j % fmt.ipb)
        ≡ fmt.get_dinode (λ t. m.file (start + t)) (j % fmt.ipb)
      → rinode fmt host j (record m { file = f }) ≡ rinode fmt host j m
unfolding rinode rsect
rinode-agree fmt host j m f e =
    let start = place fmt (fmt.iblock j m.sb) in
    elim (Bool-cases (host.seeks start && host.reads start)) [
      | inl yes_ ↦ rw yes_ (ap done e)
      | inr no_ ↦ rw no_ refl
    ]

-- Different sectors do not overlap.
sectors-apart :
    (fmt : Format) (s t b : ℕ)
    → s ≢ t
    → (s + 1) * fmt.bsize ≤ 2 ^ 32
    → (t + 1) * fmt.bsize ≤ 2 ^ 32
    → b < fmt.bsize
    → (place fmt s + b < place fmt t) ⊎ (place fmt t + fmt.bsize ≤ place fmt s + b)
sectors-apart fmt s t b ne hs ht lt =
    let first : place fmt s ≡ s * fmt.bsize = omega arith in
    let second : place fmt t ≡ t * fmt.bsize = omega arith in
    rw (first, second)
      (elim (Bool-cases (ltb s t)) [
        | inl below ↦
            let le : s + 1 ≤ t = ground arith in inl (omega (arith, mul-le-mul_right fmt.bsize le))
        | inr above ↦
            let le : t + 1 ≤ s = ground arith in inr (omega (arith, mul-le-mul_right fmt.bsize le))
      ])

module _ (fmt : Format) (host : Host) (law : IsFormat fmt) (i : ℕ) (d : Dinode) (m : Image) where
  -- For a layout as the headers promise, an inode whose members have the widths of `struct dinode`, and
  -- whose block lies in what a `uint` can address, `winode` returns where the host's calls on that
  -- block succeed; `rinode` then reads the same inode back, every other inode that lies so reads as
  -- before, and nothing outside the block has changed.
  pub winode-IsWritten :
      IsDinode fmt d
      → IsInside fmt m.sb i
      → host.seeks (place fmt (fmt.iblock i m.sb)) ≡ true
      → host.reads (place fmt (fmt.iblock i m.sb)) ≡ true
      → host.writes (place fmt (fmt.iblock i m.sb)) ≡ true
      → (m' : Image) × (winode fmt host i d m ≡ done m') × IsWritten fmt host i d m m'
  unfolding winode rinode
  winode-IsWritten formed inside seeks reads writes =
      let bn = fmt.iblock i m.sb in
      let start = place fmt bn in
      let buf : Bytes = fmt.set_dinode (λ t. m.file (start + t)) (i % fmt.ipb) d in
      let low = mod-lt i law.some_inodes in
      (
        written fmt start buf m,
        rw (rsect-file fmt host bn m seeks reads) (wsect-written fmt host bn buf m seeks writes),
        record {
          own = rw (rsect-file fmt host bn (written fmt start buf m) seeks reads) (
              ap done (
                law.local _ buf (i % fmt.ipb) low (λ b lt. written-inside fmt start b buf m lt)
                ∙ law.same _ (i % fmt.ipb) d low formed));
          others = λ j ne fits.
              rinode-agree fmt host j m (written fmt start buf m).file
                (elim (ℕ_discrete (fmt.iblock j m.sb) bn) [
                  | yes same ↦ rw same (
                      law.local _ buf (j % fmt.ipb) (mod-lt j law.some_inodes)
                        (λ b lt. written-inside fmt start b buf m lt)
                      ∙ law.apart _ (j % fmt.ipb) (i % fmt.ipb) d (mod-lt j law.some_inodes) low
                          (λ e. ne (law.places j i m.sb same e)))
                  | no other ↦ law.local _ _ (j % fmt.ipb) (mod-lt j law.some_inodes) (λ b lt.
                      written-outside fmt start _ buf m
                        (sectors-apart fmt (fmt.iblock j m.sb) bn b other fits inside lt))
                ]);
          outside = λ b out. written-outside fmt start b buf m out;
          rest = refl;
        },
      )

get_or-zeros : (n i : ℕ) → ◌≡◌ {A = ℕ} (get_or (replicate n 0) i 0) 0
get_or-zeros zero i = refl
get_or-zeros (suc n) zero = refl
get_or-zeros (suc n) (suc i) = get_or-zeros n i

new_dinode-IsDinode :
    (fmt : Format) (host : Host) (type : ℕ) → IsDinode fmt (new_dinode fmt host type)
new_dinode-IsDinode fmt host type = record {
  short_type = xshort-lt host.order type;
  short_nlink = xshort-lt host.order 1;
  word_size = xint-lt host.order 0;
  blocks = length-replicate (fmt.ndirect + 1) 0;
  words = λ i. omega (arith, get_or-zeros (fmt.ndirect + 1) i);
}

-- `ialloc` gives the next number, and an inode of that type without a block and of size 0, with the
-- members in the byte order of the image.
pub ialloc-IsWritten :
    (fmt : Format) (host : Host) (law : IsFormat fmt) (type : ℕ) (m : Image)
    → IsInside fmt m.sb m.freeinode
    → host.seeks (place fmt (fmt.iblock m.freeinode m.sb)) ≡ true
    → host.reads (place fmt (fmt.iblock m.freeinode m.sb)) ≡ true
    → host.writes (place fmt (fmt.iblock m.freeinode m.sb)) ≡ true
    → (m' : Image) × (ialloc fmt host type m ≡ done (m.freeinode, m'))
      × IsWritten fmt host m.freeinode
          (new_dinode fmt host type)
          (record m { freeinode = (m.freeinode + 1) % 2 ^ 32 })
          m'
unfolding ialloc
ialloc-IsWritten fmt host law type m inside seeks reads writes =
    let (m', e, w) =
      winode-IsWritten fmt host law m.freeinode (new_dinode fmt host type)
        (record m { freeinode = (m.freeinode + 1) % 2 ^ 32 }) (new_dinode-IsDinode fmt host type)
        inside seeks reads writes in
    (m', rw e refl, w)
