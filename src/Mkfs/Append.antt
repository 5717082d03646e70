-- ===== src/Mkfs/Append.antt =====
-- `iappend` of mkfs/mkfs.c. Every round of its loop takes at least one byte, so `n` rounds are enough.
pub mod Ends
pub mod Block
pub mod Round
pub mod Files
pub mod Whole
use raynix.Base.{
  ℕ, zero, suc, ◌+◌, ◌-◌, ◌*◌, ◌/◌, ◌%◌, ◌^◌, Bool, ◌&&◌, leb, ltb, ◌==◌, List, get_or, set, min,
  if◌then◌else◌,
}
use raynix.Outcome.{Run, done, panic, forever, ◌>>=◌}
use raynix.Mkfs.Order.{Bytes, xint, get_word, set_word}
use raynix.Mkfs.Image.{Format, Host, Image, Dinode, wsect, rsect, winode, rinode}

-- `xint(freeblock++)`
abbrev pub take_block : Host → Image → ℕ × Image
take_block host m =
    (xint host.order m.freeblock, record m { freeblock = (m.freeblock + 1) % 2 ^ 32 })

-- Entry `k` of `din.addrs`, given a block if it has none.
unfoldable pub fill_addr : Host → ℕ → Dinode → Image → Dinode × Image
fill_addr host k din m =
    let (block, m1) = take_block host m in
    if xint host.order (get_or din.addrs k 0) == 0
    then (record din { addrs = set din.addrs k block }, m1)
    else (din, m)

-- the branch for a block that the indirect block names
unfoldable pub indirect_block : Format → Host → ℕ → Dinode → Image → Run (ℕ × Dinode × Image)
indirect_block fmt host fbn din m = do
  let (din1, m1) = fill_addr host fmt.ndirect din m
  let at = xint host.order (get_or din1.addrs fmt.ndirect 0)
  let k = fbn - fmt.ndirect
  indirect ← rsect fmt host at m1
  let (block, m2) = take_block host m1
  let filled = set_word host.order indirect k block
  let write = (do
    m3 ← wsect fmt host at filled m2
    done (xint host.order (get_word host.order filled k), din1, m3))
  if get_word host.order indirect k == 0
      then write
      else done (xint host.order (get_word host.order indirect k), din1, m1)

-- The block that holds block `fbn` of the file.
unfoldable pub block_for : Format → Host → ℕ → Dinode → Image → Run (ℕ × Dinode × Image)
block_for fmt host fbn din m =
    let (din1, m1) = fill_addr host fbn din m in
    if ltb fbn fmt.ndirect
    then done (xint host.order (get_or din1.addrs fbn 0), din1, m1)
    else indirect_block fmt host fbn din m

-- `min(n, (fbn + 1) * BSIZE - off)`
abbrev pub chunk : Format → ℕ → ℕ → ℕ
chunk fmt off n = min n (((off / fmt.bsize + 1) * fmt.bsize + 2 ^ 32 - off) % 2 ^ 32)

-- `bcopy(p, buf + off - (fbn * BSIZE), n1)`
abbrev pub splice : Format → ℕ → ℕ → Bytes → Bytes → Bytes
splice fmt off n1 p buf i =
    let from = off - off / fmt.bsize * fmt.bsize in
    if leb from i && ltb i (from + n1) then p (i - from) else buf i

-- The loop, with the offset and the inode that it ends with.
unfoldable pub append_loop :
    Format → Host → ℕ → ℕ → Bytes → ℕ → Dinode → Image → Run (ℕ × Dinode × Image)
append_loop fmt host zero off p n din m = if n == 0 then done (off, din, m) else forever
append_loop fmt host (suc fuel) off p n din m =
    let n1 = chunk fmt off n in
    let rest = (do
      (x, din1, m1) ← block_for fmt host (off / fmt.bsize) din m
      buf ← rsect fmt host x m1
      m2 ← wsect fmt host x (splice fmt off n1 p buf) m1
      append_loop fmt host fuel ((off + n1) % 2 ^ 32) (λ i. p (n1 + i)) (n - n1) din1 m2) in
    if n == 0 then done (off, din, m) else if ltb (off / fmt.bsize) fmt.maxfile then rest else panic

unfoldable pub iappend : Format → Host → ℕ → Bytes → ℕ → Image → Run Image
iappend fmt host inum p n m = do
  din ← rinode fmt host inum m
  (off, din1, m1) ← append_loop fmt host n (xint host.order din.size) p n din m
  winode fmt host inum (record din1 { size = xint host.order off }) m1
