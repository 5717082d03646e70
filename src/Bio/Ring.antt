-- ===== src/Bio/Ring.antt =====
-- The list of the block cache as the sequence of buffers that it leads through.
use raynix.Base.{put, ℕ, ◌≡◌, refl, sym, subst, ◌∙◌, ◌≢◌, inl, inr, List, [], ◌∷◌, ◌++◌, arith}
use raynix.Kalloc.Pages.{Has}
use raynix.Bio.{head, Cache, unlink, push_front}

-- From `p` the links lead through `xs` to `e`.
abbrev pub Leads : (ℕ → ℕ) → ℕ → List ℕ → ℕ → Type 0
Leads next p [] e = next p ≡ e
Leads next p (x ∷ xs) e = (next p ≡ x) × Leads next x xs e

-- the last of `p` and `xs`
abbrev pub last : ℕ → List ℕ → ℕ
last p [] = p
last p (x ∷ xs) = last x xs

abbrev pub first : List ℕ → ℕ → ℕ
first [] e = e
first (x ∷ xs) e = x

abbrev pub Differ : List ℕ → Type 0
Differ [] = Unit
Differ (x ∷ xs) = ((y : ℕ) → Has y xs → x ≢ y) × Differ xs

-- what `ys ++ zs` has, `ys ++ b ∷ zs` has, and it is not `b` when all differ
pub Has-insert : (x b : ℕ) (ys zs : List ℕ) → Has x (ys ++ zs) → Has x (ys ++ b ∷ zs)
Has-insert x b [] zs h = inr h
Has-insert x b (y ∷ ys) zs (inl e) = inl e
Has-insert x b (y ∷ ys) zs (inr h) = inr (Has-insert x b ys zs h)

pub Has-self : (b : ℕ) (ys zs : List ℕ) → Has b (ys ++ b ∷ zs)
Has-self b [] zs = inl refl
Has-self b (y ∷ ys) zs = inr (Has-self b ys zs)

Has-last : (y : ℕ) (ys ws : List ℕ) → Has (last y ys) (y ∷ (ys ++ ws))
Has-last y [] ws = inl refl
Has-last y (x ∷ ys) ws = inr (Has-last x ys ws)

Differ-self : (x b : ℕ) (ys zs : List ℕ) → Differ (ys ++ b ∷ zs) → Has x (ys ++ zs) → b ≢ x
Differ-self x b [] zs d h f = d.0 x h f
Differ-self x b (y ∷ ys) zs d (inl e) f = d.0 b (Has-self b ys zs) (sym (f ∙ e))
Differ-self x b (y ∷ ys) zs d (inr h) f = Differ-self x b ys zs d.1 h f

-- Links that agree on what is passed lead the same way.
Leads-agree :
    (f g : ℕ → ℕ) (p q : ℕ) (xs : List ℕ) (e : ℕ)
    → g q ≡ f p
    → ((x : ℕ) → Has x xs → g x ≡ f x)
    → Leads f p xs e
    → Leads g q xs e
Leads-agree f g p q [] e start same l = start ∙ l
Leads-agree f g p q (x ∷ xs) e start same l =
    (start ∙ l.0, Leads-agree f g x x xs e (same x (inl refl)) (λ y h. same y (inr h)) l.1)

-- The links around `b`.
pub Leads-at :
    (f : ℕ → ℕ) (p b : ℕ) (ys zs : List ℕ) (e : ℕ)
    → Leads f p (ys ++ b ∷ zs) e
    → (f (last p ys) ≡ b) × Leads f b zs e
Leads-at f p b [] zs e l = l
Leads-at f p b (y ∷ ys) zs e l = Leads-at f y b ys zs e l.1

-- The first link.
pub Leads-first : (f : ℕ → ℕ) (p : ℕ) (xs : List ℕ) (e : ℕ) → Leads f p xs e → f p ≡ first xs e
Leads-first f p [] e l = l
Leads-first f p (x ∷ xs) e l = l.0

-- Without `b`: the link to it is led past it.
Leads-unlink :
    (f : ℕ → ℕ) (p b : ℕ) (ys zs : List ℕ) (e : ℕ)
    → Differ (p ∷ (ys ++ b ∷ zs))
    → Leads f p (ys ++ b ∷ zs) e
    → Leads (put f (last p ys) (f b)) p (ys ++ zs) e
Leads-unlink f p b [] zs e d l =
    Leads-agree f (put f p (f b)) b p zs e (ground arith) (λ x h. ground (arith, d.0 x (inr h))) l.1
Leads-unlink f p b (y ∷ ys) zs e d l = (
  ground (arith, d.0 (last y ys) (Has-last y ys (b ∷ zs)), l.0),
  Leads-unlink f y b ys zs e d.1 l.1,
)

-- The two moves of the links: `b` is taken out and put in front, the others keep their order.
pub moved-Leads :
    (c : Cache) (b : ℕ) (ys zs : List ℕ)
    → Differ (head ∷ (ys ++ b ∷ zs))
    → Leads c.next head (ys ++ b ∷ zs) head
    → c.prior b ≡ last head ys
    → Leads (push_front b (unlink b c)).next head (b ∷ (ys ++ zs)) head
moved-Leads c b ys zs d l back =
    let n1 = put c.next (last head ys) (c.next b) in
    let away : head ≢ b = d.0 b (Has-self b ys zs) in
    let out : ℕ → ℕ → ℕ = λ q. put c.next q (c.next b) in
    subst (λ q. Leads (put (put (out q) b (out q head)) head b) head (b ∷ (ys ++ zs)) head)
      (sym back)
      (
        ground arith,
        Leads-agree n1 (put (put n1 b (n1 head)) head b) head b (ys ++ zs) head (ground arith)
            (λ x h. ground (arith, d.0 x (Has-insert x b ys zs h), Differ-self x b ys zs d.1 h))
            (Leads-unlink c.next head b ys zs head d l),
      )
