-- ===== src/Virtio/Alloc3.antt =====
-- `alloc3_desc`: all three descriptors, or none of them.
use raynix.Base.{
  ℕ, suc, ◌<◌, ◌≡◌, refl, ap, ◌∙◌, ◌≢◌, ◌⊎◌, inl, inr, Option, none, some, List, [], ◌∷◌, arith,
  ◌==◌, if◌then◌else◌, get_or, get_or-set, length-set,
}
use native.Mathlib.Decide.{ℕ_discrete}
use raynix.Virtio.{
  Config, Disk, zero_desc, alloc_desc, freed, after_alloc, alloc3_loop, alloc3_desc,
}
use raynix.Outcome.{done}
use raynix.Virtio.Alloc.{
  free_at, taken, taken3, IsSound, IsTriple, IsRolledBack, alloc_desc-cases, free_desc-done,
}

module _ {c : Config} {d : Disk} (v : IsSound c d) (i : ℕ) (lt : i < c.num) where
  pub free_at-taken : (j : ℕ) → free_at (taken i d) j ≡ (if j == i then 0 else free_at d j)
  free_at-taken j = get_or-set d.free i j 0 0 (omega (arith, v.entries))

  pub free_at-freed : (j : ℕ) → free_at (freed i d) j ≡ (if j == i then 1 else free_at d j)
  free_at-freed j = get_or-set d.free i j 1 0 (omega (arith, v.entries))

  pub desc-freed :
      (j : ℕ)
      → get_or (freed i d).desc j zero_desc
        ≡ (if j == i then zero_desc else get_or d.desc j zero_desc)
  desc-freed j = get_or-set d.desc i j zero_desc zero_desc (omega (arith, v.descs))

  pub taken-IsSound : IsSound c (taken i d)
  taken-IsSound = record {
    entries = length-set d.free i 0 ∙ v.entries;
    descs = v.descs;
    binary = λ j h. ground (arith, free_at-taken j, v.binary j);
  }

  pub freed-IsSound : IsSound c (freed i d)
  freed-IsSound = record {
    entries = length-set d.free i 1 ∙ v.entries;
    descs = length-set d.desc i zero_desc ∙ v.descs;
    binary = λ j h. ground (arith, free_at-freed j, v.binary j);
  }

module _ {c : Config} {d : Disk} (v : IsSound c d) where
  rolled0 : ((j : ℕ) → j < c.num → free_at d j ≡ 0) → IsRolledBack c d d
  rolled0 all = record {
    same_free = λ j. refl;
    same_taken = λ j h. refl;
    few = λ i j k li lj lk a b e fi fj. all k lk;
    sound = v;
    rest = (refl, refl, refl, refl, refl, refl, refl, refl, refl);
  }

  module _ (i0 : ℕ) (lt0 : i0 < c.num) (one0 : free_at d i0 ≢ 0) where
    v0 : IsSound c (taken i0 d)
    v0 = taken-IsSound v i0 lt0

    zero0 : free_at (taken i0 d) i0 ≡ 0
    zero0 = ground (arith, free_at-taken v i0 lt0 i0)

    rolled1 :
        ((j : ℕ) → j < c.num → free_at (taken i0 d) j ≡ 0)
        → IsRolledBack c d (freed i0 (taken i0 d))
    rolled1 all = record {
      same_free =
          λ j. ground (arith, free_at-freed v0 i0 lt0 j, free_at-taken v i0 lt0 j, v.binary i0);
      same_taken = λ j h. ground (arith, desc-freed v0 i0 lt0 j);
      few = λ i j k li lj lk a b e fi fj. ground (
        arith,
        all i,
        all j,
        all k,
        free_at-taken v i0 lt0 i,
        free_at-taken v i0 lt0 j,
        free_at-taken v i0 lt0 k,
      );
      sound = freed-IsSound v0 i0 lt0;
      rest = (refl, refl, refl, refl, refl, refl, refl, refl, refl);
    }

    module _ (i1 : ℕ) (lt1 : i1 < c.num) (one1 : free_at (taken i0 d) i1 ≢ 0) where
      d1 : Disk
      d1 = taken i1 (taken i0 d)

      v1 : IsSound c (taken i1 (taken i0 d))
      v1 = taken-IsSound v0 i1 lt1

      apart : i0 ≢ i1
      apart e = ground (arith, zero0)

      zero1 : free_at (taken i1 (taken i0 d)) i0 ≡ 0
      zero1 = ground (arith, free_at-taken v0 i1 lt1 i0, zero0)

      v2 : IsSound c (freed i0 (taken i1 (taken i0 d)))
      v2 = freed-IsSound v1 i0 lt0

      zero2 : free_at (freed i0 (taken i1 (taken i0 d))) i1 ≡ 0
      zero2 = ground (arith, apart, free_at-freed v1 i0 lt0 i1, free_at-taken v0 i1 lt1 i1)

      triple :
          (i2 : ℕ) → i2 < c.num → free_at (taken i1 (taken i0 d)) i2 ≢ 0 → IsTriple c d i0 i1 i2
      triple i2 lt2 one2 = record {
        in_range = (lt0, lt1, lt2);
        distinct = (
          apart,
          (λ e. ground (arith, free_at-taken v0 i1 lt1 i2, free_at-taken v i0 lt0 i2)),
          (λ e. ground (arith, free_at-taken v0 i1 lt1 i2)),
        );
        were_free = (
          one0,
          (λ z. ground (arith, free_at-taken v i0 lt0 i1)),
          (λ z. ground (arith, free_at-taken v0 i1 lt1 i2, free_at-taken v i0 lt0 i2)),
        );
      }

      -- With both taken and nothing else free, what was free is one of the two.
      among :
          ((j : ℕ) → j < c.num → free_at (taken i1 (taken i0 d)) j ≡ 0)
          → (x : ℕ) → x < c.num
          → free_at d x ≢ 0
          → (x ≡ i0) ⊎ (x ≡ i1)
      among all x lt ne =
          ground (arith, all x lt, free_at-taken v0 i1 lt1 x, free_at-taken v i0 lt0 x)

      rolled2 :
          ((j : ℕ) → j < c.num → free_at (taken i1 (taken i0 d)) j ≡ 0)
          → IsRolledBack c d (freed i1 (freed i0 (taken i1 (taken i0 d))))
      rolled2 all = record {
        same_free = λ j. ground (
          arith,
          free_at-freed v2 i1 lt1 j,
          free_at-freed v1 i0 lt0 j,
          free_at-taken v0 i1 lt1 j,
          free_at-taken v i0 lt0 j,
          free_at-taken v i0 lt0 i1,
          v.binary i0,
          v.binary i1,
        );
        same_taken = λ j h. ground (
          arith,
          desc-freed v2 i1 lt1 j,
          desc-freed v1 i0 lt0 j,
          free_at-taken v i0 lt0 j,
          free_at-taken v i0 lt0 i1,
        );
        few = λ i j k li lj lk a b e fi fj. elim (ℕ_discrete (free_at d k) 0) [
          | yes z ↦ z
          | no fk ↦ absurd (ground (arith, among all i li fi, among all j lj fj, among all k lk fk))
        ];
        sound = freed-IsSound v2 i1 lt1;
        rest = (refl, refl, refl, refl, refl, refl, refl, refl, refl);
      }

-- One round, by what `alloc_desc` returns.
round :
    (n : ℕ) (c : Config) (idx : List ℕ) (d : Disk) {r : Option ℕ} {d1 : Disk}
    → alloc_desc c d ≡ (r, d1)
    → alloc3_loop (suc n) c idx d ≡ after_alloc c idx (alloc3_loop n c) r d1
unfolding alloc3_loop
round n c idx d e = ap (λ a. after_alloc c idx (alloc3_loop n c) a.0 a.1) e

-- In a sound state `alloc3_desc` returns. It returns three different descriptors, all of them
-- free before, and leaves exactly those taken; or it fails, and then no three were free, and
-- each descriptor is free or taken as before.
pub alloc3_desc-cases :
    (c : Config) (d : Disk)
    → IsSound c d
    → ((i0 : ℕ) × (i1 : ℕ) × (i2 : ℕ) × (alloc3_desc c d
          ≡ done (some (i0 ∷ i1 ∷ i2 ∷ []), taken3 i0 i1 i2 d))
        × IsTriple c d i0 i1 i2)
      ⊎ ((d' : Disk) × (alloc3_desc c d ≡ done (none, d')) × IsRolledBack c d d')
unfolding alloc3_desc
alloc3_desc-cases c d v = elim (alloc_desc-cases c d) [
  | inl (e0, all) ↦ inr (d, round 2 c [] d e0, rolled0 v all)
  | inr (i0, lt0, ne0, first0, e0) ↦ elim (alloc_desc-cases c (taken i0 d)) [
    | inl (e1, all) ↦ inr (
      _,
      round 2 c [] d e0
          ∙ round 1 c (i0 ∷ []) (taken i0 d) e1
          ∙ rw (free_desc-done c i0 (taken i0 d) lt0 (zero0 v i0 lt0 ne0)),
      rolled1 v i0 lt0 ne0 all,
    )
    | inr (i1, lt1, ne1, first1, e1) ↦ elim (alloc_desc-cases c (taken i1 (taken i0 d))) [
      | inl (e2, all) ↦ inr (
        _,
        round 2 c [] d e0
            ∙ round 1 c (i0 ∷ []) (taken i0 d) e1
            ∙ round 0 c (i0 ∷ i1 ∷ []) (taken i1 (taken i0 d)) e2
            ∙ rw (
              free_desc-done c i0 (taken i1 (taken i0 d)) lt0 (zero1 v i0 lt0 ne0 i1 lt1 ne1),
              free_desc-done c i1 (freed i0 (taken i1 (taken i0 d))) lt1
                  (zero2 v i0 lt0 ne0 i1 lt1 ne1),
            ),
        rolled2 v i0 lt0 ne0 i1 lt1 ne1 all,
      )
      | inr (i2, lt2, ne2, first2, e2) ↦ inl (
        i0,
        i1,
        i2,
        round 2 c [] d e0
            ∙ round 1 c (i0 ∷ []) (taken i0 d) e1
            ∙ round 0 c (i0 ∷ i1 ∷ []) (taken i1 (taken i0 d)) e2,
        triple v i0 lt0 ne0 i1 lt1 ne1 i2 lt2 ne2,
      )
    ]
  ]
]
