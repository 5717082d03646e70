-- ===== src/Mkfs/Append/Whole.antt =====
-- `iappend` as a whole: the file, its inode and the other inodes.
use raynix.Base.{
  ℕ, ◌+◌, ◌*◌, ◌/◌, ◌%◌, ◌^◌, ◌<◌, ◌≤◌, ◌≡◌, ap, sym, subst, ◌∙◌, ◌≢◌, inr, arith, true,
}
use native.Mathlib.Nat.{div-add-mod', mod-lt, div-lt_iff_lt-mul, mul-le-mul_right}
use raynix.Outcome.{done}
use raynix.Mkfs.Order.{Bytes, xint}
use raynix.Mkfs.Order.Laws.{xint-lt, xint-xint}
use raynix.Mkfs.Image.{Format, Host, Image, Dinode, place, rsect, rinode}
use raynix.Mkfs.Image.Inodes.{IsDinode, IsFormat, IsWritten, winode-IsWritten, rinode-agree}
use raynix.Mkfs.Append.{iappend}
use raynix.Mkfs.Append.Block.{addr, IsArea, IsReady, in_range}
use raynix.Mkfs.Append.Round.{content, IsGrown}
use raynix.Mkfs.Append.Files.{append_loop-IsGrown}

-- `m'` is `m` with `n` bytes of `p` at the end of the file of inode `inum`.
pub record IsAppended (fmt : Format) (host : Host) (lo inum n : ℕ) (p : Bytes) (din : Dinode)
    (m : Image) (din' : Dinode) (m' : Image) : Type 0 where
  pub inode : rinode fmt host inum m' ≡ done din'
  pub size : xint host.order din'.size ≡ xint host.order din.size + n
  pub old :
      (k : ℕ) → k < xint host.order din.size → content fmt host m' din' k ≡ content fmt host m din k
  pub new : (j : ℕ) → j < n → content fmt host m' din' (xint host.order din.size + j) ≡ p j
  pub others :
      (j : ℕ) → j ≢ inum → fmt.iblock j m.sb < lo → rinode fmt host j m' ≡ rinode fmt host j m

-- What a call finds: an inode that lies before the data blocks, and reads as `din`.
pub record IsFile (fmt : Format) (host : Host) (lo hi inum : ℕ) (din : Dinode) (m : Image)
    : Type 0 where
  pub reads_as : rinode fmt host inum m ≡ done din
  pub formed : IsDinode fmt din
  pub ready : IsReady fmt host lo hi (xint host.order din.size) din m
  pub before : fmt.iblock inum m.sb < lo
  pub seeks : host.seeks (place fmt (fmt.iblock inum m.sb)) ≡ true
  pub reads : host.reads (place fmt (fmt.iblock inum m.sb)) ≡ true
  pub writes : host.writes (place fmt (fmt.iblock inum m.sb)) ≡ true

module _ (fmt : Format) (host : Host) (lo hi : ℕ) (law : IsFormat fmt)
    (area : IsArea fmt host lo hi) (direct : fmt.ndirect ≤ fmt.maxfile)
    (words : fmt.ndirect * fmt.bsize < 2 ^ 32) where
  abbrev resized : Dinode → ℕ → Dinode
  resized d size = record d { size = xint host.order size }

  -- With blocks handed out up to `hi` at most, a sector before the data blocks lies before them.
  before_data :
      (off : ℕ) (din : Dinode) (m : Image) (s : ℕ)
      → IsReady fmt host lo hi off din m
      → s < lo
      → (place fmt s + fmt.bsize ≤ lo * fmt.bsize) × ((s + 1) * fmt.bsize ≤ 2 ^ 32)
  before_data off din m s r lt =
      let le : lo ≤ hi = omega (arith, r.above, r.below) in
      let a = mul-le-mul_right fmt.bsize lt in
      let b = mul-le-mul_right fmt.bsize le in
      (omega (arith, area.fits, a, b), omega (arith, area.fits, a, b))

  -- Reading an inode that lies before the data blocks.
  rinode_same :
      (off off' n j : ℕ) (p : Bytes) (din din' : Dinode) (m m' : Image)
      → IsReady fmt host lo hi off' din m
      → IsGrown fmt host lo off n p din m din' m'
      → fmt.iblock j m.sb < lo
      → rinode fmt host j m' ≡ rinode fmt host j m
  unfolding rinode rsect
  rinode_same off off' n j p din din' m m' r g lt =
      let m0 : Image = record m { freeblock = m'.freeblock } in
      ap (rinode fmt host j) g.image
      ∙ rinode-agree fmt host j m0 m'.file (
          law.local _ _ (j % fmt.ipb) (mod-lt j law.some_inodes) (λ b h.
            g.outside _ (omega (arith, (before_data off' din m (fmt.iblock j m.sb) r lt).0))))

  -- Writing an inode leaves the files.
  content_same :
      (off inum k : ℕ) (d din : Dinode) (m m' : Image)
      → IsReady fmt host lo hi off din m
      → IsWritten fmt host inum d m m'
      → fmt.iblock inum m.sb < lo
      → off ≤ fmt.ndirect * fmt.bsize
      → k < off
      → content fmt host m' din k ≡ content fmt host m din k
  content_same off inum k d din m m' r w lt fits h =
      let i = k / fmt.bsize in
      let i_direct : i < fmt.ndirect =
        (div-lt_iff_lt-mul {k = fmt.bsize} {x = k} {y = fmt.ndirect} area.some_bytes).1
          (omega arith) in
      let begun : addr host din i ≢ 0 =
        r.begun i i_direct (omega (arith, div-add-mod' k fmt.bsize)) in
      let (from_lo, below) = in_range fmt host lo hi off din m area r i i_direct begun in
      let hi_ : addr host din i < hi = omega (arith, r.below) in
      w.outside _ (
        inr (
          omega (
            arith,
            (before_data off din m (fmt.iblock inum m.sb) r lt).0,
            mul-le-mul_right fmt.bsize from_lo,
            mul-le-mul_right fmt.bsize hi_,
            area.fits,
            area.some_bytes,
          )))

  -- Let the layout be as the headers promise, and the direct blocks be at most `MAXFILE` and fit a
  -- `uint`. The inode lies before the data blocks and has the widths of `struct dinode`; each direct
  -- entry is 0 or names a data block that is handed out, no two the same one, and the blocks of what
  -- the file holds are there. For `n` bytes with which the file keeps to its direct blocks, with enough
  -- data blocks left, and when the host's calls succeed on the data blocks and on the block of the
  -- inode, `iappend` returns: the file is longer by the `n` bytes, which stand at its end, what it
  -- held before stands where it did, and every other inode before the data blocks reads as before.
  pub iappend-IsAppended :
      (inum n : ℕ) (p : Bytes) (din : Dinode) (m : Image)
      → IsFile fmt host lo hi inum din m
      → xint host.order din.size + n ≤ fmt.ndirect * fmt.bsize
      → m.freeblock + fmt.ndirect ≤ hi + xint host.order din.size / fmt.bsize
      → (din' : Dinode) × (m' : Image) × (iappend fmt host inum p n m ≡ done m')
        × IsAppended fmt host lo inum n p din m din' m'
  unfolding iappend
  iappend-IsAppended inum n p din m f fits room =
      let off = xint host.order din.size in
      let (d1, m1, e1, g, r1) =
        append_loop-IsGrown fmt host lo hi area direct words n off p n din m f.ready fits
          (omega arith) (λ _. room) in
      let sb1 : m1.sb ≡ m.sb = ap (λ (u : Image). u.sb) g.image in
      let formed : IsDinode fmt (resized d1 (off + n)) = record {
        short_type = subst (λ (u : Dinode). u.type < 2 ^ 16) (sym g.inode) f.formed.short_type;
        short_nlink = subst (λ (u : Dinode). u.nlink < 2 ^ 16) (sym g.inode) f.formed.short_nlink;
        word_size = xint-lt host.order (off + n);
        blocks = r1.blocks;
        words = r1.words;
      } in
      let (m2, e2, w) =
        winode-IsWritten fmt host law inum (resized d1 (off + n)) m1 formed
          (rw sb1 (before_data off din m (fmt.iblock inum m.sb) f.ready f.before).1)
          (rw sb1 f.seeks) (rw sb1 f.reads) (rw sb1 f.writes) in
      let same : (k : ℕ) → k < off + n → content fmt host m2 d1 k ≡ content fmt host m1 d1 k =
        λ k lt. content_same (off + n) inum k _ d1 m1 m2 r1 w (rw sb1 f.before) fits lt in
      (
        resized d1 (off + n),
        m2,
        rw (f.reads_as, e1) e2,
        record {
          inode = w.own;
          size = xint-xint host.order (off + n) (omega arith);
          old = λ k lt. same k (omega arith) ∙ g.old k lt;
          new = λ j lt. same (off + j) (omega arith) ∙ g.new j lt;
          others = λ j ne lt.
              w.others j ne (rw sb1 (before_data off din m (fmt.iblock j m.sb) f.ready lt).1)
              ∙ rinode_same off off n j p din d1 m m1 f.ready g lt;
        },
      )
