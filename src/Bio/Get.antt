-- ===== src/Bio/Get.antt =====
-- `bget` of kernel/bio.c. A call that does not return is `none`; one that falls off the end of the
-- function returns no buffer.
pub mod Laws
pub mod Again
use raynix.Base.{
  ℕ, zero, suc, ◌+◌, ◌%◌, ◌^◌, Bool, ◌&&◌, Option, none, some, ◌>>=◌, ◌==◌, if◌then◌else◌, put,
}
use raynix.Spinlock.{acquire, release}
use raynix.Sleeplock.{acquire_sleep}
use raynix.Bio.{head, Cache}

abbrev pub matches : ℕ → ℕ → Cache → ℕ → Bool
matches dev block_no c b = (c.dev b == dev) && (c.block_no b == block_no)

-- `while(cursor != &cache.head)`: the buffer that matches, or `none` inside at the head. There are
-- 31 places in the ring: a walk of more steps does not end.
unfoldable pub find_loop : ℕ → ℕ → ℕ → Cache → ℕ → Option (Option ℕ)
find_loop zero dev block_no c cursor = none
find_loop (suc fuel) dev block_no c cursor =
    let rest = find_loop fuel dev block_no c (c.next cursor) in
    if cursor == head
    then some none
    else if matches dev block_no c cursor
    then some (some cursor)
    else rest

-- `cursor -> link_no ++`, the sleeping lock of the buffer, and the way out.
abbrev pub hold : ℕ → ℕ → Cache → Option (Option ℕ × Cache)
hold id b c = do
  let c1 = record c { link_no = put c.link_no b ((c.link_no b + 1) % 2 ^ 32) }
  (sllk, hart1) ← acquire_sleep id (c1.sllk b, c1.hart)
  let (lock, hart2) = release id (c1.lock, hart1)
  some (some b, record c1 { sllk = put c1.sllk b sllk; lock = lock; hart = hart2 })

abbrev pub renew : ℕ → ℕ → ℕ → Cache → Cache
renew dev block_no b c = record c {
  dev = put c.dev b dev;
  block_no = put c.block_no b block_no;
  valid = put c.valid b 0;
}

-- The second loop never moves its cursor: with users on the last buffer it does not end.
unfoldable pub recycle : ℕ → ℕ → ℕ → Cache → Option (Option ℕ × Cache)
recycle id dev block_no c =
    let cursor = c.prior head in
    if cursor == head
    then some (none, c)
    else if c.link_no cursor == 0
    then hold id cursor (renew dev block_no cursor c)
    else none

-- the two ways on from the first loop
abbrev pub get_or_recycle : ℕ → ℕ → ℕ → Cache → Option ℕ → Option (Option ℕ × Cache)
get_or_recycle id dev block_no c (some b) = hold id b c
get_or_recycle id dev block_no c none = recycle id dev block_no c

unfoldable pub bget : ℕ → ℕ → ℕ → Cache → Option (Option ℕ × Cache)
bget id dev block_no c = do
  (lock, hart) ← acquire id (c.lock, c.hart)
  let c1 = record c { lock = lock; hart = hart }
  found ← find_loop 31 dev block_no c1 (c1.next head)
  get_or_recycle id dev block_no c1 found
