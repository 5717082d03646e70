-- ===== src/Kalloc/Held.antt =====
-- The allocator under every order of calls: pages are held by its clients, who write into them.
use raynix.Base.{
  ℕ, ◌+◌, ◌≤◌, ◌<◌, ◌≡◌, ◌≢◌, ◌⊎◌, ◌∙◌, refl, sym, ap, subst, inl, inr, Bool, true, false, some,
  List, [], ◌∷◌, arith, put, Bool-cases,
}
use native.Mathlib.Decide.{ℕ_discrete}
use mathlib.Core.Option.{some-injective}
use raynix.Memory.{Memory}
use raynix.Spinlock.{Hart}
use raynix.Kalloc.{Kmem, free_page, kalloc}
use raynix.Kalloc.Pages.{Has, IsPage, IsPages-Has, apart}
use raynix.Kalloc.Chain.{Chain-agree, IsFree}
use raynix.Kalloc.Laws.{IsTaken, kalloc-IsTaken, kalloc-empty, free_page-IsFree}

-- The states that are reached from one in which no page is held: by calls of `kalloc` that return a page
-- or `NULL`, by calls of `free_page` on a page that is held, by writes into pages that are held, and
-- by what changes the hart.
pub data Reach : Kmem → (ℕ → Bool) → Type 0 where
  start : {s : Kmem} (xs : List ℕ) → s.lock ≢ 0 → IsFree s xs → Reach s (λ p. false)
  take :
      {s s' : Kmem} {held : ℕ → Bool} (id p : ℕ)
      → Reach s held
      → kalloc id s ≡ some (p, s')
      → p ≢ 0
      → Reach s' (put held p true)
  miss :
      {s s' : Kmem} {held : ℕ → Bool} (id : ℕ)
      → Reach s held
      → kalloc id s ≡ some (0, s')
      → Reach s' held
  give :
      {s : Kmem} {held : ℕ → Bool} (p : ℕ)
      → Reach s held
      → held p ≡ true
      → Reach (free_page p s) (put held p false)
  write :
      {s : Kmem} {held : ℕ → Bool} (mem : Memory) (hart : Hart)
      → Reach s held
      → ((b : ℕ) → ((p : ℕ) → held p ≡ true → (b < p) ⊎ (p + 4096 ≤ b)) → mem b ≡ s.mem b)
      → Reach (record s { mem = mem; hart = hart }) held

-- The lock is free, and what is held are pages that the allocator does not hold.
record Inv (s : Kmem) (held : ℕ → Bool) (xs : List ℕ) : Type 0 where
  unlocked : s.lock ≢ 0
  free : IsFree s xs
  pages : (p : ℕ) → held p ≡ true → IsPage p
  apart_from : (p : ℕ) → held p ≡ true → (y : ℕ) → Has y xs → y ≢ p

-- What `kalloc` gave, by the pages that the allocator held.
given :
    (id p : ℕ) (xs : List ℕ) (s s' : Kmem)
    → s.lock ≢ 0
    → IsFree s xs
    → kalloc id s ≡ some (p, s')
    → ((p ≡ 0) × (xs ≡ []) × IsTaken 0 [] s s')
      ⊎ ((ys : List ℕ) × (xs ≡ p ∷ ys) × IsTaken p ys s s')
given id p [] s s' free f ran =
    let (s1, got, t) = kalloc-empty id free f in
    let e : (0, s1) ≡ (p, s') = some-injective (0, s1) (p, s') (sym got ∙ ran) in
    inl (sym (ap (λ q. q.0) e), refl, subst (λ u. IsTaken 0 [] s u) (ap (λ q. q.1) e) t)
given id p (x ∷ xs) s s' free f ran =
    let (s1, got, t) = kalloc-IsTaken id free f in
    let e : (x, s1) ≡ (p, s') = some-injective (x, s1) (p, s') (sym got ∙ ran) in
    let is : x ≡ p = ap (λ q. q.0) e in
    inr (
      xs,
      ap (λ y. y ∷ xs) is,
      subst (λ u. IsTaken p xs s u) (ap (λ q. q.1) e) (subst (λ y. IsTaken y xs s s1) is t),
    )

take-Inv :
    {s s' : Kmem} {held : ℕ → Bool} (id p : ℕ) (xs : List ℕ)
    → Inv s held xs
    → kalloc id s ≡ some (p, s')
    → p ≢ 0
    → (ys : List ℕ) × Inv s' (put held p true) ys
take-Inv {s} {s'} {held} id p xs v ran some_page = elim (given id p xs s s' v.unlocked v.free ran) [
  | inl (z, none_left, t) ↦ absurd (some_page z)
  | inr (ys, e, t) ↦
      let f : IsFree s (p ∷ ys) = subst (IsFree s) e v.free in
      (
        ys,
        record {
          unlocked = λ z. omega (arith, t.unlocked);
          free = t.rest;
          pages = λ q h. elim (ℕ_discrete q p) [
            | yes same ↦ rw same (f.pages.0)
            | no ne ↦ v.pages q (ground arith)
          ];
          apart_from = λ q h y has. elim (ℕ_discrete q p) [
            | yes same ↦ rw same (f.pages.1 y has)
            | no ne ↦ v.apart_from q (ground arith) y (subst (Has y) (sym e) (inr has))
          ];
        },
      )
]

miss-Inv :
    {s s' : Kmem} {held : ℕ → Bool} (id : ℕ) (xs : List ℕ)
    → Inv s held xs
    → kalloc id s ≡ some (0, s')
    → (ys : List ℕ) × Inv s' held ys
miss-Inv {s} {s'} {held} id xs v ran = elim (given id 0 xs s s' v.unlocked v.free ran) [
  | inl (z, none_left, t) ↦ (
    [],
    record {
      unlocked = λ e. omega (arith, t.unlocked);
      free = t.rest;
      pages = v.pages;
      apart_from = λ q h y has. absurd has;
    },
  )
  | inr (ys, e, t) ↦
      let f : IsFree s (0 ∷ ys) = subst (IsFree s) e v.free in
      let page = f.pages.0 in absurd (omega arith)
]

give-Inv :
    {s : Kmem} {held : ℕ → Bool} (p : ℕ) (xs : List ℕ)
    → Inv s held xs
    → held p ≡ true
    → Inv (free_page p s) (put held p false) (p ∷ xs)
unfolding free_page
give-Inv {s} {held} p xs v mine = record {
  unlocked = v.unlocked;
  free = (free_page-IsFree (v.pages p mine) (λ x h e. v.apart_from p mine x h (sym e)) v.free).0;
  pages = λ q h. v.pages q (ground arith);
  apart_from = λ q h y has. elim has [
    | inl e ↦ λ z. ground arith
    | inr h' ↦ v.apart_from q (ground arith) y h'
  ];
}

write-Inv :
    {s : Kmem} {held : ℕ → Bool} (mem : Memory) (hart : Hart) (xs : List ℕ)
    → Inv s held xs
    → ((b : ℕ) → ((p : ℕ) → held p ≡ true → (b < p) ⊎ (p + 4096 ≤ b)) → mem b ≡ s.mem b)
    → Inv (record s { mem = mem; hart = hart }) held xs
write-Inv {s} {held} mem hart xs v same = record {
  unlocked = v.unlocked;
  free = record {
    chain =
        Chain-agree s.mem mem s.page_link xs
          (λ x h b lo hi. same b λ p mine.
            let far =
              apart (IsPages-Has xs v.free.pages h) (v.pages p mine) (v.apart_from p mine x h) in
            ground arith)
          v.free.chain;
    pages = v.free.pages;
  };
  pages = v.pages;
  apart_from = v.apart_from;
}

Reach-Inv : {s : Kmem} {held : ℕ → Bool} → Reach s held → (xs : List ℕ) × Inv s held xs
Reach-Inv (start xs unlocked f) = (
  xs,
  record {
    unlocked = unlocked;
    free = f;
    pages = λ p h. absurd (cc);
    apart_from = λ p h y has. absurd (cc);
  },
)
Reach-Inv (take id p before ran some_page) =
    let (xs, v) = Reach-Inv before in take-Inv id p xs v ran some_page
Reach-Inv (miss id before ran) = let (xs, v) = Reach-Inv before in miss-Inv id xs v ran
Reach-Inv (give p before mine) = let (xs, v) = Reach-Inv before in (p ∷ xs, give-Inv p xs v mine)
Reach-Inv (write mem hart before same) =
    let (xs, v) = Reach-Inv before in (xs, write-Inv mem hart xs v same)

-- In every state that calls of the allocator and writes of the holders into their pages lead to, what
-- `kalloc` returns is `NULL` or an aligned page that nobody holds, and the call changes no byte of a
-- page that is held.
pub kalloc-reached :
    (id p : ℕ) (s s' : Kmem) (held : ℕ → Bool)
    → Reach s held
    → kalloc id s ≡ some (p, s')
    → ((p ≡ 0) ⊎ (IsPage p × (held p ≡ false)))
      × ((q b : ℕ) → held q ≡ true → q ≤ b → b < q + 4096 → s'.mem b ≡ s.mem b)
kalloc-reached id p s s' held reach ran =
    let (xs, v) = Reach-Inv reach in
    elim (given id p xs s s' v.unlocked v.free ran) [
      | inl (z, none_left, t) ↦
          (inl z, (λ q b mine lo hi. let page = v.pages q mine in t.same b (inr (omega arith))))
      | inr (ys, e, t) ↦
          let f : IsFree s (p ∷ ys) = subst (IsFree s) e v.free in
          (
            inr (
              f.pages.0,
              elim (Bool-cases (held p)) [
                | inl mine ↦ absurd (v.apart_from p mine p (subst (Has p) (sym e) (inl refl)) refl)
                | inr other ↦ other
              ],
            ),
            (λ q b mine lo hi.
                let far =
                  apart f.pages.0 (v.pages q mine)
                    (λ z. v.apart_from q mine p (subst (Has p) (sym e) (inl refl)) z) in
                t.same b (ground arith)),
          )
    ]
