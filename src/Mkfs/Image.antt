-- ===== src/Mkfs/Image.antt =====
-- The sectors and the inodes of the image: `wsect`, `rsect`, `winode`, `rinode`, `ialloc` and
-- `balloc` of mkfs/mkfs.c.
pub mod Sectors
pub mod Inodes
pub mod Bitmap
use raynix.Base.{
  ℕ, zero, suc, ◌+◌, ◌-◌, ◌*◌, ◌/◌, ◌%◌, ◌^◌, Bool, ◌&&◌, leb, ltb, bit_or, List, replicate,
  if◌then◌else◌, put,
}
use raynix.Outcome.{Run, done, panic, ◌>>=◌}
use raynix.Mkfs.Order.{Order, Bytes, xshort, xint}

-- `struct superblock`, as mkfs/mkfs.c fills it.
pub record Super : Type 0 where
  pub magic : ℕ
  pub size : ℕ
  pub nblocks : ℕ
  pub ninodes : ℕ
  pub nlog : ℕ
  pub logstart : ℕ
  pub inodestart : ℕ
  pub bmapstart : ℕ

-- The members of `struct dinode` that mkfs/mkfs.c names; the others stay 0.
pub record Dinode : Type 0 where
  pub type : ℕ
  pub nlink : ℕ
  pub size : ℕ
  pub addrs : List ℕ

-- What the missing headers define: constants, the block of an inode, and the layouts of structures.
-- `get_dinode` and `set_dinode` read and assign an element of a buffer seen as an array of inodes.
pub record Format : Type 0 where
  pub bsize : ℕ
  pub fssize : ℕ
  pub logsize : ℕ
  pub ipb : ℕ
  pub ndirect : ℕ
  pub maxfile : ℕ
  pub rootino : ℕ
  pub dirsiz : ℕ
  pub t_dir : ℕ
  pub t_file : ℕ
  pub fsmagic : ℕ
  pub dinode_size : ℕ
  pub dirent_size : ℕ
  pub iblock : ℕ → Super → ℕ
  pub get_dinode : Bytes → ℕ → Dinode
  pub set_dinode : Bytes → ℕ → Dinode → Bytes
  pub super_bytes : Super → Bytes
  pub dirent_bytes : ℕ → Bytes → Bytes

-- The host: its byte order, and whether `lseek` to a place in the image succeeds, and then `write`
-- and `read` of a whole block there.
pub record Host : Type 0 where
  pub order : Order
  pub seeks : ℕ → Bool
  pub writes : ℕ → Bool
  pub reads : ℕ → Bool

-- The image file and the variables of the program.
pub record Image : Type 0 where
  pub file : Bytes
  pub sb : Super
  pub freeinode : ℕ
  pub freeblock : ℕ

-- `sec * BSIZE`
abbrev pub place : Format → ℕ → ℕ
place fmt sec = sec * fmt.bsize % 2 ^ 32

unfoldable pub wsect : Format → Host → ℕ → Bytes → Image → Run Image
wsect fmt host sec buf m =
    let start = place fmt sec in
    if host.seeks start && host.writes start
    then done (record m {
      file = λ b. if leb start b && ltb b (start + fmt.bsize) then buf (b - start) else m.file b;
    })
    else panic

unfoldable pub rsect : Format → Host → ℕ → Image → Run Bytes
rsect fmt host sec m =
    let start = place fmt sec in
    if host.seeks start && host.reads start then done (λ i. m.file (start + i)) else panic

unfoldable pub winode : Format → Host → ℕ → Dinode → Image → Run Image
winode fmt host inum d m = do
  let bn = fmt.iblock inum m.sb
  buf ← rsect fmt host bn m
  wsect fmt host bn (fmt.set_dinode buf (inum % fmt.ipb) d) m

unfoldable pub rinode : Format → Host → ℕ → Image → Run Dinode
rinode fmt host inum m = do
  buf ← rsect fmt host (fmt.iblock inum m.sb) m
  done (fmt.get_dinode buf (inum % fmt.ipb))

-- the inode of `ialloc`, after `bzero`
abbrev pub new_dinode : Format → Host → ℕ → Dinode
new_dinode fmt host type = record {
  type = xshort host.order type;
  nlink = xshort host.order 1;
  size = xint host.order 0;
  addrs = replicate (fmt.ndirect + 1) 0;
}

unfoldable pub ialloc : Format → Host → ℕ → Image → Run (ℕ × Image)
ialloc fmt host type m = do
  let inum = m.freeinode
  m1 ←
      winode fmt host inum (new_dinode fmt host type) (record m { freeinode = (inum + 1) % 2 ^ 32 })
  done (inum, m1)

-- `for(i = 0; i < used; i++)`, with `n` rounds left from `i` on
unfoldable pub bit_loop : ℕ → ℕ → Bytes → Bytes
bit_loop zero i buf = buf
bit_loop (suc n) i buf =
    bit_loop n (i + 1) (put buf (i / 8) (bit_or (buf (i / 8)) (2 ^ (i % 8)) % 0x100))

-- `used` is not negative.
unfoldable pub balloc : Format → Host → ℕ → Image → Run Image
balloc fmt host used m =
    if ltb used (fmt.bsize * 8)
    then wsect fmt host m.sb.bmapstart (bit_loop used 0 (λ _. 0)) m
    else panic
