-- ===== src/Mkfs/Build.antt =====
-- `main` of mkfs/mkfs.c. A path is the list of its characters; what follows the first `read` that
-- gives nothing is left out of the contents of a file.
pub mod Ends
use raynix.Base.{
  ℕ, zero, suc, ◌+◌, ◌-◌, ◌*◌, ◌/◌, ◌%◌, ◌^◌, Bool, true, false, not, ◌&&◌, ltb, ◌==◌, List, [],
  ◌∷◌, Option, none, some, get_or, if◌then◌else◌,
}
use raynix.Outcome.{Run, done, panic, ◌>>=◌}
use raynix.Mkfs.Order.{Bytes, xshort, xint}
use raynix.Mkfs.Image.{Format, Host, Image, Super, Dinode, wsect, winode, rinode, ialloc, balloc}
use raynix.Mkfs.Append.{iappend}

-- An argument of the program: its name, and, if it can be opened, what each `read` gives.
pub record Source : Type 0 where
  pub path : List ℕ
  pub contents : Option (List (ℕ × Bytes))

abbrev pub ninodes : ℕ
ninodes = 200

abbrev pub nbitmap : Format → ℕ
nbitmap fmt = fmt.fssize / (fmt.bsize * 8) + 1

abbrev pub ninodeblocks : Format → ℕ
ninodeblocks fmt = ninodes / fmt.ipb + 1

abbrev pub nmeta : Format → ℕ
nmeta fmt = 2 + fmt.logsize + ninodeblocks fmt + nbitmap fmt

abbrev pub superblock : Format → Host → Super
superblock fmt host = record {
  magic = fmt.fsmagic;
  size = xint host.order fmt.fssize;
  nblocks = xint host.order ((fmt.fssize + 2 ^ 32 - nmeta fmt) % 2 ^ 32);
  ninodes = xint host.order ninodes;
  nlog = xint host.order fmt.logsize;
  logstart = xint host.order 2;
  inodestart = xint host.order (2 + fmt.logsize);
  bmapstart = xint host.order (2 + fmt.logsize + ninodeblocks fmt);
}

-- `for(i = 0; i < FSSIZE; i++) wsect(i, zeroes);`
unfoldable pub zero_loop : Format → Host → ℕ → ℕ → Image → Run Image
zero_loop fmt host zero i m = done m
zero_loop fmt host (suc n) i m = do
  m1 ← wsect fmt host i (λ _. 0) m
  zero_loop fmt host n (i + 1) m1

-- A string in an array that is all 0, cut to `n` characters.
abbrev pub padded : ℕ → List ℕ → Bytes
padded n name i = if ltb i n then get_or name i 0 else 0

-- "user/"
abbrev pub strip_user : List ℕ → List ℕ
strip_user (a ∷ b ∷ c ∷ d ∷ e ∷ rest) =
    if (a == 117) && (b == 115) && (c == 101) && (d == 114) && (e == 47)
    then rest
    else a ∷ b ∷ c ∷ d ∷ e ∷ rest
strip_user path = path

abbrev pub has_slash : List ℕ → Bool
has_slash [] = false
has_slash (c ∷ path) = if c == 47 then true else has_slash path

abbrev pub strip_underscore : List ℕ → List ℕ
strip_underscore [] = []
strip_underscore (c ∷ path) = if c == 95 then path else c ∷ path

-- An entry of the root directory.
abbrev pub append_entry : Format → Host → ℕ → List ℕ → Image → Run Image
append_entry fmt host inum name m =
    iappend fmt host fmt.rootino
      (fmt.dirent_bytes (xshort host.order inum) (padded fmt.dirsiz name)) fmt.dirent_size m

-- `while((cc = read(fd, buf, sizeof(buf))) > 0)`
unfoldable pub copy_loop : Format → Host → ℕ → List (ℕ × Bytes) → Image → Run Image
copy_loop fmt host inum [] m = done m
copy_loop fmt host inum ((cc, buf) ∷ rest) m = do
  m1 ← iappend fmt host inum buf cc m
  copy_loop fmt host inum rest m1

-- One round of the loop over the arguments.
unfoldable pub add_file : Format → Host → Source → Image → Run Image
add_file fmt host source m =
    let shortname = strip_user source.path in
    let add : List (ℕ × Bytes) → Run Image = λ chunks. (do
      (inum, m1) ← ialloc fmt host fmt.t_file m
      m2 ← append_entry fmt host inum (strip_underscore shortname) m1
      copy_loop fmt host inum chunks m2) in
    if has_slash shortname
    then panic
    else elim source.contents [ none ↦ panic | some chunks ↦ add chunks ]

unfoldable pub file_loop : Format → Host → List Source → Image → Run Image
file_loop fmt host [] m = done m
file_loop fmt host (source ∷ rest) m = do
  m1 ← add_file fmt host source m
  file_loop fmt host rest m1

-- `off = ((off/BSIZE) + 1) * BSIZE`, for the size of the root directory
unfoldable pub fix_root : Format → Host → Image → Run Image
fix_root fmt host m = do
  din ← rinode fmt host fmt.rootino m
  let off = xint host.order din.size
  let off1 = (off / fmt.bsize + 1) * fmt.bsize % 2 ^ 32
  winode fmt host fmt.rootino (record din { size = xint host.order off1 }) m

-- What follows the opening of the image.
unfoldable pub fill_image : Format → Host → List Source → Run Image
fill_image fmt host sources = do
  let start : Image = record {
    file = λ _. 0;
    sb = superblock fmt host;
    freeinode = 1;
    freeblock = nmeta fmt;
  }
  m1 ← zero_loop fmt host fmt.fssize 0 start
  m2 ← wsect fmt host 1 (fmt.super_bytes m1.sb) m1
  (rootino, m3) ← ialloc fmt host fmt.t_dir m2
  if rootino == fmt.rootino
      then (do
        m4 ← append_entry fmt host rootino (46 ∷ []) m3
        m5 ← append_entry fmt host rootino (46 ∷ 46 ∷ []) m4
        m6 ← file_loop fmt host sources m5
        m7 ← fix_root fmt host m6
        balloc fmt host m7.freeblock m7)
      else panic

-- `main`; its second argument is the list of those after the name of the program.
unfoldable pub main : Format → Host → List Source → Run Image
main fmt host [] = panic
main fmt host (image ∷ sources) =
    let built = fill_image fmt host sources in
    if (fmt.bsize % fmt.dinode_size == 0) && (fmt.bsize % fmt.dirent_size == 0)
    then elim image.contents [ none ↦ panic | some _ ↦ built ]
    else panic
