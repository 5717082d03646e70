-- ===== src/Bio/Get/Laws.antt =====
-- `bget` as a search in the list of buffers.
use raynix.Base.{
  ℕ, zero, suc, ◌+◌, ◌%◌, ◌^◌, ◌<◌, ◌≤◌, ◌≡◌, refl, ap, ◌∙◌, ◌≢◌, inl, inr, Bool, true, false,
  Option, none, some, List, [], ◌∷◌, arith, length, ◌==◌, if◌then◌else◌, put, Bool-cases,
}
use raynix.Kalloc.Pages.{Has}
use raynix.Spinlock.{push_inter_off, pop_inter_off}
use raynix.Spinlock.Lock.{acquire-free, release_lem}
use raynix.Sleeplock.{acquire_sleep-inverted}
use raynix.Bio.{head, Cache}
use raynix.Bio.Ring.{Leads, last}
use raynix.Bio.Release.{around}
use raynix.Bio.Get.{matches, find_loop, hold, recycle, get_or_recycle, bget}

-- What makes a buffer the one that is asked for: it holds this block of this device.
abbrev pub of_block : ℕ → ℕ → Cache → ℕ → Bool
of_block dev block_no c b = if c.dev b == dev then c.block_no b == block_no else false

-- The first of a list that passes a test.
abbrev pub first_match : (ℕ → Bool) → List ℕ → Option ℕ
first_match f [] = none
first_match f (x ∷ xs) = if f x then some x else first_match f xs

matches-of_block :
    (dev block_no : ℕ) (c : Cache) (b : ℕ) → matches dev block_no c b ≡ of_block dev block_no c b
matches-of_block dev block_no c b = elim (Bool-cases (c.dev b == dev)) [
  | inl e ↦ rw e refl
  | inr e ↦ rw e refl
]

if-some : (t : Bool) (a b : Option ℕ) → (if t then some a else some b) ≡ some (if t then a else b)
if-some true a b = refl
if-some false a b = refl

find_loop-first_match :
    (dev block_no : ℕ) (c : Cache) (p : ℕ) (xs : List ℕ) (fuel : ℕ)
    → length xs < fuel
    → ((y : ℕ) → Has y xs → head ≢ y)
    → Leads c.next p xs head
    → find_loop fuel dev block_no c (c.next p) ≡ some (first_match (of_block dev block_no c) xs)
unfolding find_loop
find_loop-first_match dev block_no c p xs zero lt away l = absurd (omega arith)
find_loop-first_match dev block_no c p [] (suc fuel) lt away l = rw l refl
find_loop-first_match dev block_no c p (x ∷ xs) (suc fuel) lt away (e, l) =
    let other : (x == head) ≡ false = ground (arith, away x (inl refl)) in
    rw
      (
        e,
        other,
        find_loop-first_match dev block_no c x xs fuel (omega arith) (λ y h. away y (inr h)) l,
      )
      (ap (λ t. if t then some (some x) else some (first_match (of_block dev block_no c) xs))
          (matches-of_block dev block_no c x)
        ∙ if-some (of_block dev block_no c x) (some x) (first_match (of_block dev block_no c) xs))

-- The state with one more user of buffer `b`, its sleeping lock held, and the lock of the cache
-- given back.
abbrev pub handed : ℕ → ℕ → Cache → Cache
handed id b c = record c {
  link_no = put c.link_no b ((c.link_no b + 1) % 2 ^ 32);
  sllk = put c.sllk b (record { splk = 1; holding = 1 });
  lock = 1;
  hart = pop_inter_off id (around id (push_inter_off id c.hart));
}

-- What a call with buffer `b` at hand gives: the sleeping lock is only given to a second holder.
abbrev pub handing : ℕ → ℕ → Cache → Option (Option ℕ × Cache)
handing id b c = if (c.sllk b).holding == 0 then none else some (some b, handed id b c)

-- The buffer with its new block, which is not read yet.
abbrev pub renamed : ℕ → ℕ → ℕ → Cache → Cache
renamed dev block_no b c = record c {
  dev = λ j. if j == b then dev else c.dev j;
  block_no = λ j. if j == b then block_no else c.block_no j;
  valid = λ j. if j == b then 0 else c.valid j;
}

-- What a call without a match gives, when `b` is the last of the list, or the head if it is empty.
abbrev pub recycling : ℕ → ℕ → ℕ → ℕ → Cache → Option (Option ℕ × Cache)
recycling id dev block_no b c =
    if b == head
    then some (none, record c { lock = 0; hart = push_inter_off id c.hart })
    else if c.link_no b == 0
    then handing id b (renamed dev block_no b c)
    else none

abbrev pub get_spec : ℕ → ℕ → ℕ → List ℕ → Cache → Option ℕ → Option (Option ℕ × Cache)
get_spec id dev block_no xs c (some b) = handing id b c
get_spec id dev block_no xs c none = recycling id dev block_no (last head xs) c

abbrev opened : ℕ → Cache → Cache
opened id c = record c { lock = 0; hart = push_inter_off id c.hart }

hold-handing :
    (id b : ℕ) (c : Cache) → (c.sllk b).splk ≢ 0 → hold id b (opened id c) ≡ handing id b c
hold-handing id b c free = elim (Bool-cases ((c.sllk b).holding == 0)) [
  | inl idle ↦ rw (acquire_sleep-inverted id (c.sllk b) (push_inter_off id c.hart) free, idle) refl
  | inr held ↦
      rw
        (
          acquire_sleep-inverted id (c.sllk b) (push_inter_off id c.hart) free,
          held,
          release_lem id 0 (around id (push_inter_off id c.hart)),
        )
        refl
]

recycle-recycling :
    (id dev block_no : ℕ) (c : Cache)
    → ((b : ℕ) → (c.sllk b).splk ≢ 0)
    → recycle id dev block_no (opened id c) ≡ recycling id dev block_no (c.prior head) c
unfolding recycle
recycle-recycling id dev block_no c frees =
    rw
      (hold-handing id (c.prior head) (renamed dev block_no (c.prior head) c)
        (frees (c.prior head)))
      refl

found-get_spec :
    (id dev block_no : ℕ) (xs : List ℕ) (c : Cache)
    → ((b : ℕ) → (c.sllk b).splk ≢ 0)
    → c.prior head ≡ last head xs
    → (found : Option ℕ)
    → get_or_recycle id dev block_no (opened id c) found ≡ get_spec id dev block_no xs c found
found-get_spec id dev block_no xs c frees back (some b) = hold-handing id b c (frees b)
found-get_spec id dev block_no xs c frees back none =
    recycle-recycling id dev block_no c frees ∙ ap (λ b. recycling id dev block_no b c) back

-- With the locks free, and the links leading from the head through at most 30 different buffers
-- and back, `bget` gives what the list of the buffers says: the first buffer of the block; or else
-- the last of the list, with its identity changed, if it has no users. It returns a buffer only
-- if the sleeping lock of that one is held already, and it does not return when the last buffer has
-- users.
pub bget-get_spec :
    (id dev block_no : ℕ) (xs : List ℕ) (c : Cache)
    → c.lock ≢ 0
    → ((b : ℕ) → (c.sllk b).splk ≢ 0)
    → length xs ≤ 30
    → ((y : ℕ) → Has y xs → head ≢ y)
    → Leads c.next head xs head
    → c.prior head ≡ last head xs
    → bget id dev block_no c
      ≡ get_spec id dev block_no xs c (first_match (of_block dev block_no c) xs)
unfolding bget
bget-get_spec id dev block_no xs c free frees few away l back =
    rw
      (
        acquire-free id c.lock c.hart free,
        find_loop-first_match dev block_no (opened id c) head xs 31 (omega arith) away l,
      )
      (found-get_spec id dev block_no xs c frees back (first_match (of_block dev block_no c) xs))
