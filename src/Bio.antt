-- ===== src/Bio.antt =====
-- kernel/bio.c: the circular list of the block cache. Buffer `i` of `buffers` is the number `i`,
-- and `cache.head` is the number 30.
pub mod Ring
pub mod Release
pub mod Init
pub mod Get
pub mod Io
use raynix.Base.{
  ℕ, zero, suc, ◌+◌, ◌-◌, ◌%◌, ◌^◌, Option, none, some, ◌>>=◌, ◌==◌, if◌then◌else◌, put,
}
use raynix.Spinlock.{SpinLock, Hart, spinlock_init, acquire, release}
use raynix.Sleeplock.{SleepLock, sleeplock_init, release_sleep}

abbrev pub head : ℕ
head = 30

-- The members of `struct buf` but the bytes of a block and `handled2disk`, which nothing uses; and
-- `cache.lock`, which the code also calls `cache->splk`.
pub record Cache : Type 0 where
  pub next : ℕ → ℕ
  pub prior : ℕ → ℕ
  pub link_no : ℕ → ℕ
  pub dev : ℕ → ℕ
  pub block_no : ℕ → ℕ
  pub valid : ℕ → ℕ
  pub sllk : ℕ → SleepLock
  pub lock : SpinLock
  pub hart : Hart

-- `for(int i = 1; i < 30; i ++)` of `binit`, with `n` rounds left. The lock that a round sets up
-- is the one of `cursor`, not of buffer `i`.
unfoldable pub link_loop : ℕ → ℕ → ℕ → Cache → ℕ × Cache
link_loop zero i cursor c = (cursor, c)
link_loop (suc n) i cursor c = link_loop n (i + 1) i (record c {
  next = put c.next cursor i;
  prior = put c.prior i cursor;
  sllk = put c.sllk cursor (sleeplock_init (c.sllk cursor));
})

unfoldable pub binit : Cache → Cache
unfolding link_loop
binit c =
    let c1 = record c {
      lock = spinlock_init c.lock;
      next = put c.next head 0;
      prior = put c.prior 0 head;
      sllk = put c.sllk 0 (sleeplock_init (c.sllk 0));
    } in
    let (cursor, c2) = link_loop 29 1 0 c1 in
    record c2 { next = put c2.next cursor head; prior = put c2.prior head cursor }

-- The assignments of `brelease` to the links, in their order.
abbrev pub unlink : ℕ → Cache → Cache
unlink b c =
    let c1 = record c { next = put c.next (c.prior b) (c.next b) } in
    record c1 { prior = put c1.prior (c1.next b) (c1.prior b) }

abbrev pub push_front : ℕ → Cache → Cache
push_front b c =
    let c1 = record c { next = put c.next b (c.next head) } in
    let c2 = record c1 { prior = put c1.prior b head } in record c2 { next = put c2.next head b }

-- `link_no` is a `uint`.
abbrev pub drop_link : ℕ → Cache → Cache
drop_link b c =
    let n = (c.link_no b + 2 ^ 32 - 1) % 2 ^ 32 in
    let c1 = record c { link_no = put c.link_no b n } in
    if n == 0 then push_front b (unlink b c1) else c1

unfoldable pub brelease : ℕ → ℕ → Cache → Option Cache
brelease id b c = do
  (sllk, hart1) ← release_sleep id (c.sllk b, c.hart)
  (lock, hart2) ← acquire id (c.lock, hart1)
  let c1 = drop_link b (record c { sllk = put c.sllk b sllk; lock = lock; hart = hart2 })
  let (lock', hart3) = release id (c1.lock, c1.hart)
  some (record c1 { lock = lock'; hart = hart3 })
