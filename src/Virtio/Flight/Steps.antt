-- ===== src/Virtio/Flight/Steps.antt =====
-- One step of many requests: which chains it keeps.
use raynix.Base.{
  ℕ, ◌≡◌, refl, sym, ◌∙◌, ◌≢◌, ◌⊎◌, inl, inr, Bool, true, false, Option, none, some, arith, ◌==◌,
  get_or, put,
}
use native.Mathlib.Decide.{ℕ_discrete}
use mathlib.Core.Option.{some-injective}
use raynix.Virtio.{Config, Disk, zero_desc}
use raynix.Virtio.Alloc.{free_at, IsSound}
use raynix.Virtio.Chain.{IsChain}
use raynix.Virtio.Rw.{IsSent}
use raynix.Virtio.Resume.{IsEnded, same-IsSound, same-IsChain}
use raynix.Virtio.Flight.{at_time, Flight, Uses, Inv}

-- A chain stays one where its descriptors do.
pub kept-IsChain :
    {c c' : Config} {d d' : Disk} (f : Flight)
    → c'.num ≡ c.num
    → c'.f_next ≡ c.f_next
    → IsChain c d f.i0 f.i1 f.i2
    → ((j : ℕ) → Uses f j → get_or d'.desc j zero_desc ≡ get_or d.desc j zero_desc)
    → ((j : ℕ) → Uses f j → free_at d' j ≡ free_at d j)
    → IsChain c' d' f.i0 f.i1 f.i2
kept-IsChain f n m h same free = record {
  in_range = rw (n) h.in_range;
  distinct = h.distinct;
  in_use =
      rw (free f.i0 (inl refl), free f.i1 (inr (inl refl)), free f.i2 (inr (inr refl))) h.in_use;
  linked = rw (same f.i0 (inl refl), same f.i1 (inr (inl refl))) h.linked;
  flagged =
      rw (m, same f.i0 (inl refl), same f.i1 (inr (inl refl)), same f.i2 (inr (inr refl)))
        h.flagged;
}

-- The descriptors of a chain are taken.
pub chain-used :
    {c : Config} {d : Disk} (f : Flight)
    → IsChain c d f.i0 f.i1 f.i2
    → (j : ℕ) → Uses f j
    → free_at d j ≡ 0
chain-used f h j (inl e) = rw e h.in_use.0
chain-used f h j (inr (inl e)) = rw e h.in_use.1
chain-used f h j (inr (inr e)) = rw e h.in_use.2

-- The descriptors of a new request are not those of one on its way.
fresh :
    {c : Config} {numbers : ℕ → ℕ} {d d' : Disk} {b i0 i1 i2 : ℕ} {write : Bool} (f : Flight)
    → IsSent (at_time c numbers) b write i0 i1 i2 d d'
    → IsChain c d f.i0 f.i1 f.i2
    → (j : ℕ) → Uses f j
    → (j ≢ i0) × (j ≢ i1) × (j ≢ i2)
fresh f r h j u =
    let (n0, n1, n2) = r.triple.were_free in
    let z = chain-used f h j u in
    ((λ e. n0 (rw (sym e) z)), (λ e. n1 (rw (sym e) z)), (λ e. n2 (rw (sym e) z)))

module _ {c : Config} {d d' : Disk} {fs : ℕ → Option Flight} (v : Inv c d fs) where
  module _ (k b : ℕ) (write : Bool) (i0 i1 i2 : ℕ) (numbers : ℕ → ℕ)
      (r : IsSent (at_time c numbers) b write i0 i1 i2 d d') where
    abbrev new : Flight
    new = record { b = b; i0 = i0; i1 = i1; i2 = i2 }

    at_number : (l : ℕ) (f : Flight) → l ≡ k → put fs k (some new) l ≡ some f → some new ≡ some f
    at_number l f at e = let t : (l == k) ≡ true = ground arith in rw t at e

    elsewhere_number : (l : ℕ) (f : Flight) → l ≢ k → put fs k (some new) l ≡ some f → fs l ≡ some f
    elsewhere_number l f ne e = let t : (l == k) ≡ false = ground arith in rw t at e

    old_or_new :
        (l : ℕ) (f : Flight)
        → put fs k (some new) l ≡ some f
        → ((l ≡ k) × (f ≡ new)) ⊎ ((l ≢ k) × (fs l ≡ some f))
    old_or_new l f e = elim (ℕ_discrete l k) [
      | yes at ↦ inl (at, sym (some-injective new f (at_number l f at e)))
      | no ne ↦ inr (ne, elsewhere_number l f ne e)
    ]

    not_both : (l : ℕ) (f : Flight) → fs l ≡ some f → (j : ℕ) → Uses f j → Uses new j → ⊥
    not_both l f e j u w =
        let (n0, n1, n2) = fresh f r (v.chains l f e) j u in
        elim w [ inl z ↦ n0 z | inr w' ↦ elim w' [ inl z ↦ n1 z | inr z ↦ n2 z ] ]

    pub send-Inv : Inv c d' (put fs k (some new))
    send-Inv = record {
      sound = same-IsSound {c = at_time c numbers} c.block_no refl refl r.sound;
      chains = λ l f e. elim (old_or_new l f e) [
        | inl (at, is) ↦
            rw is (same-IsChain {c = at_time c numbers} c.block_no refl refl i0 i1 i2 r.chain)
        | inr (ne, e') ↦
            kept-IsChain f refl refl (v.chains l f e')
              (λ j u. let (n0, n1, n2) = fresh f r (v.chains l f e') j u in r.others j n0 n1 n2)
              (λ j u.
                let (n0, n1, n2) = fresh f r (v.chains l f e') j u in ground (arith, r.free j))
      ];
      apart = λ l m f g ne e e' j u w. elim (old_or_new l f e) [
        | inl (at, is) ↦ elim (old_or_new m g e') [
          | inl (at', is') ↦ ne (at ∙ sym at')
          | inr (_, o') ↦ not_both m g o' j w (rw is at u)
        ]
        | inr (_, o) ↦ elim (old_or_new m g e') [
          | inl (at', is') ↦ not_both l f o j u (rw is' at w)
          | inr (_, o') ↦ v.apart l m f g ne o o' j u w
        ]
      ];
    }

  pub kept-Inv :
      IsSound c d'
      → ((k : ℕ) (f : Flight)
          → fs k ≡ some f
          → (j : ℕ) → Uses f j
          → (get_or d'.desc j zero_desc ≡ get_or d.desc j zero_desc) × (free_at d' j ≡ free_at d j))
      → Inv c d' fs
  kept-Inv sound same = record {
    sound = sound;
    chains = λ k f e.
        kept-IsChain f refl refl (v.chains k f e) (λ j u. (same k f e j u).0)
          (λ j u. (same k f e j u).1);
    apart = v.apart;
  }

module _ {c : Config} {d d' : Disk} {fs : ℕ → Option Flight} (v : Inv c d fs) (k : ℕ) (f : Flight)
    (at : fs k ≡ some f) (numbers : ℕ → ℕ)
    (ended : IsEnded (at_time c numbers) f.i0 f.i1 f.i2 d d') where
  -- a request that is still on its way
  still : (l : ℕ) (g : Flight) → put fs k none l ≡ some g → (l ≢ k) × (fs l ≡ some g)
  still l g e = elim (ℕ_discrete l k) [
    | yes same ↦ let t : (l == k) ≡ true = ground arith in absurd (gone (rw t at e))
    | no ne ↦ let t : (l == k) ≡ false = ground arith in (ne, rw t at e)
  ]
    where
      gone : none ≡ some g → ⊥
      gone z = cc

  spared :
      (l : ℕ) (g : Flight)
      → l ≢ k
      → fs l ≡ some g
      → (j : ℕ) → Uses g j
      → (j ≢ f.i0) × (j ≢ f.i1) × (j ≢ f.i2)
  spared l g ne e j u = (
    (λ z. v.apart l k g f ne e at j u (inl z)),
    (λ z. v.apart l k g f ne e at j u (inr (inl z))),
    (λ z. v.apart l k g f ne e at j u (inr (inr z))),
  )

  pub finish-Inv : Inv c d' (put fs k none)
  finish-Inv = record {
    sound = same-IsSound {c = at_time c numbers} c.block_no refl refl ended.sound;
    chains = λ l g e.
        let (ne, e') = still l g e in
        kept-IsChain g refl refl (v.chains l g e')
          (λ j u. let (n0, n1, n2) = spared l g ne e' j u in ended.others j n0 n1 n2)
          (λ j u. let (n0, n1, n2) = spared l g ne e' j u in ground (arith, ended.free j));
    apart = λ l m g h ne e e' j u w.
        let (nl, ol) = still l g e in let (nm, om) = still m h e' in v.apart l m g h ne ol om j u w;
  }
