-- ===== src/Bio/Release.antt =====
-- `brelease`: the counts, the locks and the order of the list.
use raynix.Base.{
  put, put_self, ℕ, ◌+◌, ◌-◌, ◌%◌, ◌^◌, ◌≤◌, ◌<◌, ◌≡◌, refl, sym, ap, ◌∙◌, ◌≢◌, List, [], ◌∷◌, ◌++◌,
  arith, some, ◌==◌, false, inl, inr,
}
use raynix.Kalloc.Pages.{Has}
use raynix.Spinlock.{Hart, push_inter_off, pop_inter_off}
use raynix.Spinlock.Lock.{acquire-free, release_lem}
use raynix.Sleeplock.{SleepLock, release_sleep-free}
use raynix.Bio.{head, Cache, unlink, push_front, drop_link, brelease}
use raynix.Bio.Ring.{Leads, Differ, last, first, moved-Leads, Leads-at, Leads-first, Has-self}

-- a pair of calls on a lock
abbrev pub around : ℕ → Hart → Hart
around id h = pop_inter_off id (push_inter_off id h)

-- the state inside both locks
abbrev pub opened : ℕ → ℕ → Cache → Cache
opened id b c = record c {
  sllk = put c.sllk b (record { splk = 1; holding = 0 });
  lock = 0;
  hart = push_inter_off id (around id c.hart);
}

abbrev pub closed : ℕ → Cache → Cache
closed id c = record c { lock = 1; hart = pop_inter_off id c.hart }

pub brelease-runs :
    (id b : ℕ) (c : Cache)
    → (c.sllk b).splk ≢ 0
    → c.lock ≢ 0
    → brelease id b c ≡ some (closed id (drop_link b (opened id b c)))
unfolding brelease
brelease-runs id b c f g = rw (
  release_sleep-free id (c.sllk b) c.hart f,
  acquire-free id c.lock (around id c.hart) g,
  release_lem id (drop_link b (opened id b c)).lock (drop_link b (opened id b c)).hart,
)

drop_link-last :
    (b : ℕ) (c : Cache)
    → c.link_no b ≡ 1
    → drop_link b c ≡ push_front b (unlink b (record c { link_no = put c.link_no b 0 }))
drop_link-last b c one = rw one

pub drop_link-more :
    (b : ℕ) (c : Cache)
    → 2 ≤ c.link_no b
    → c.link_no b < 2 ^ 32
    → drop_link b c ≡ record c { link_no = put c.link_no b (c.link_no b - 1) }
drop_link-more b c many small =
    let n : (c.link_no b + 2 ^ 32 - 1) % 2 ^ 32 ≡ c.link_no b - 1 = omega arith in
    let more : (c.link_no b - 1 == 0) ≡ false = ground arith in rw (n, more)

-- With the locks free, the links leading from the head through different buffers back to it, and
-- the backward link of the buffer right, `brelease` by its last user returns with the locks
-- free, the count at 0, and the buffer first in the list, the others in their order behind it.
pub brelease-moves :
    (id b : ℕ) (c : Cache) (ys zs : List ℕ)
    → (c.sllk b).splk ≢ 0
    → c.lock ≢ 0
    → c.link_no b ≡ 1
    → Differ (head ∷ (ys ++ b ∷ zs))
    → Leads c.next head (ys ++ b ∷ zs) head
    → c.prior b ≡ last head ys
    → (c' : Cache) × (brelease id b c ≡ some c')
      × Leads c'.next head (b ∷ (ys ++ zs)) head
      × (c'.link_no b ≡ 0)
      × ((c'.sllk b).holding ≡ 0)
      × (c'.lock ≡ 1)
brelease-moves id b c ys zs f g one d l back =
    let c1 = record (opened id b c) { link_no = put c.link_no b 0 } in
    (
      closed id (push_front b (unlink b c1)),
      brelease-runs id b c f g
          ∙ ap (λ x. some (closed id x)) (drop_link-last b (opened id b c) one),
      moved-Leads c1 b ys zs d l back,
      ground arith,
      ap (λ (x : SleepLock). x.holding) (put_self c.sllk b (record { splk = 1; holding = 0 })),
      refl,
    )

-- With the locks free, `brelease` of a buffer with two users or more returns, takes one off the
-- count and leaves the list as it is.
pub brelease-keeps :
    (id b : ℕ) (c : Cache)
    → (c.sllk b).splk ≢ 0
    → c.lock ≢ 0
    → 2 ≤ c.link_no b
    → c.link_no b < 2 ^ 32
    → (c' : Cache) × (brelease id b c ≡ some c')
      × (c'.next ≡ c.next)
      × (c'.prior ≡ c.prior)
      × (c'.link_no b + 1 ≡ c.link_no b)
      × ((c'.sllk b).holding ≡ 0)
brelease-keeps id b c f g many small = (
  closed id (record (opened id b c) { link_no = put c.link_no b (c.link_no b - 1) }),
  brelease-runs id b c f g
      ∙ ap (λ x. some (closed id x)) (drop_link-more b (opened id b c) many small),
  refl,
  refl,
  omega (arith, put_self c.link_no b (c.link_no b - 1)),
  ap (λ (x : SleepLock). x.holding) (put_self c.sllk b (record { splk = 1; holding = 0 })),
)

Has-after : (b z : ℕ) (ys zs : List ℕ) → Has z (ys ++ b ∷ z ∷ zs)
Has-after b z [] zs = inr (inl refl)
Has-after b z (y ∷ ys) zs = inr (Has-after b z ys zs)

behind : (b y : ℕ) (ys zs : List ℕ) → Differ (head ∷ y ∷ (ys ++ b ∷ zs)) → y ≢ first zs head
behind b y ys [] d e = d.0 y (inl refl) (sym e)
behind b y ys (z ∷ zs) d e = d.1.0 z (Has-after b z ys zs) e

-- The links backward are left wrong: under the conditions of `brelease-moves`, when another
-- buffer was the first of the list and led back to the head, it is behind the released one
-- afterwards, and still leads back to the head.
pub brelease-stale :
    (id b y : ℕ) (c : Cache) (ys zs : List ℕ)
    → (c.sllk b).splk ≢ 0
    → c.lock ≢ 0
    → c.link_no b ≡ 1
    → Differ (head ∷ y ∷ (ys ++ b ∷ zs))
    → Leads c.next head (y ∷ (ys ++ b ∷ zs)) head
    → c.prior b ≡ last head (y ∷ ys)
    → c.prior y ≡ head
    → (c' : Cache) × (brelease id b c ≡ some c') × (c'.next b ≡ y) × (c'.prior y ≡ head)
brelease-stale id b y c ys zs f g one d l back lead =
    let c1 = record (opened id b c) { link_no = put c.link_no b 0 } in
    let apart : y ≢ c.next b = λ e.
      behind b y ys zs d
        (e ∙ Leads-first c.next b zs head (Leads-at c.next head b (y ∷ ys) zs head l).1) in
    let order = moved-Leads c1 b (y ∷ ys) zs d l back in
    (
      closed id (push_front b (unlink b c1)),
      brelease-runs id b c f g
          ∙ ap (λ x. some (closed id x)) (drop_link-last b (opened id b c) one),
      order.1.0,
      ground (arith, d.1.0 b (Has-self b ys zs), apart),
    )
