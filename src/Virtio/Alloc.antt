-- ===== src/Virtio/Alloc.antt =====
-- `alloc_desc`, `free_desc` and `alloc3_desc`: which descriptors they take and give back.
use raynix.Base.{
  ℕ, zero, suc, ◌+◌, ◌≤◌, ◌<◌, ◌≡◌, refl, ◌≢◌, ◌⊎◌, inl, inr, none, some, arith, length, get_or,
  set,
}
use native.Mathlib.Decide.{ℕ_discrete, dec_lt}
use raynix.Virtio.{Config, Disk, zero_desc, alloc_loop, alloc_desc, free_desc, freed}
use raynix.Outcome.{done, panic}

-- `disk.free[i]`
abbrev pub free_at : Disk → ℕ → ℕ
free_at d i = get_or d.free i 0

abbrev pub taken : ℕ → Disk → Disk
taken i d = record d { free = set d.free i 0 }

-- The array `free` has an entry for each descriptor, 0 or 1, and so has the array `desc`.
pub record IsSound (c : Config) (d : Disk) : Type 0 where
  pub entries : length d.free ≡ c.num
  pub descs : length d.desc ≡ c.num
  pub binary : (i : ℕ) → i < c.num → free_at d i ≤ 1

alloc_loop-cases :
    (n i : ℕ) (d : Disk)
    → ((alloc_loop n i d ≡ (none, d)) × ((j : ℕ) → i ≤ j → j < i + n → free_at d j ≡ 0))
      ⊎ ((k : ℕ) × (i ≤ k)
          × (k < i + n)
          × (free_at d k ≢ 0)
          × ((j : ℕ) → i ≤ j → j < k → free_at d j ≡ 0)
          × (alloc_loop n i d ≡ (some k, taken k d)))
unfolding alloc_loop
alloc_loop-cases zero i d = inl (refl, λ j lo hi. absurd (omega arith))
alloc_loop-cases (suc n) i d = elim (ℕ_discrete (free_at d i) 0) [
  | no ne ↦ inr (i, omega arith, omega arith, ne, (λ j lo hi. absurd (omega arith)), ground arith)
  | yes z ↦ elim (alloc_loop-cases n (i + 1) d) [
    | inl (e, all) ↦ inl (
      rw z e,
      λ j lo hi. elim (ℕ_discrete j i) [
        | yes same ↦ rw same z
        | no ne ↦ all j (omega arith) (omega arith)
      ],
    )
    | inr (k, lo, hi, ne, all, e) ↦ inr (
      k,
      omega arith,
      omega arith,
      ne,
      (λ j l h. elim (ℕ_discrete j i) [ yes same ↦ rw same z | no ne' ↦ all j (omega arith) h ]),
      rw z e,
    )
  ]
]

-- `alloc_desc` takes the first free descriptor and returns its index, or changes nothing if none
-- of the `NUM` is free.
pub alloc_desc-cases :
    (c : Config) (d : Disk)
    → ((alloc_desc c d ≡ (none, d)) × ((j : ℕ) → j < c.num → free_at d j ≡ 0))
      ⊎ ((k : ℕ) × (k < c.num)
          × (free_at d k ≢ 0)
          × ((j : ℕ) → j < k → free_at d j ≡ 0)
          × (alloc_desc c d ≡ (some k, taken k d)))
unfolding alloc_desc
alloc_desc-cases c d = elim (alloc_loop-cases c.num 0 d) [
  | inl (e, all) ↦ inl (e, λ j h. all j (omega arith) (omega arith))
  | inr (k, lo, hi, ne, all, e) ↦ inr (k, omega arith, ne, (λ j h. all j (omega arith) h), e)
]

-- A descriptor in range that is not free is freed; one out of range, or free already, is a panic.
pub free_desc-cases :
    (c : Config) (i : ℕ) (d : Disk)
    → ((i < c.num) × (free_at d i ≡ 0) × (free_desc c i d ≡ done (freed i d)))
      ⊎ (((c.num ≤ i) ⊎ (free_at d i ≢ 0)) × (free_desc c i d ≡ panic))
unfolding free_desc
free_desc-cases c i d = elim (dec_lt i c.num) [
  | no out ↦ inr (inl (omega arith), ground arith)
  | yes lt ↦ elim (ℕ_discrete (free_at d i) 0) [
    | yes z ↦ inl (lt, z, ground arith)
    | no ne ↦ inr (inr ne, ground arith)
  ]
]

pub free_desc-done :
    (c : Config) (i : ℕ) (d : Disk)
    → i < c.num
    → free_at d i ≡ 0
    → free_desc c i d ≡ done (freed i d)
free_desc-done c i d lt z = elim (free_desc-cases c i d) [
  | inl (_, _, e) ↦ e
  | inr (inl out, e) ↦ absurd (omega arith)
  | inr (inr ne, e) ↦ absurd (ne z)
]

-- What three taken descriptors are.
pub record IsTriple (c : Config) (d : Disk) (i0 i1 i2 : ℕ) : Type 0 where
  pub in_range : (i0 < c.num) × (i1 < c.num) × (i2 < c.num)
  pub distinct : (i0 ≢ i1) × (i0 ≢ i2) × (i1 ≢ i2)
  pub were_free : (free_at d i0 ≢ 0) × (free_at d i1 ≢ 0) × (free_at d i2 ≢ 0)

abbrev pub taken3 : ℕ → ℕ → ℕ → Disk → Disk
taken3 i0 i1 i2 d = taken i2 (taken i1 (taken i0 d))

-- What a failed `alloc3_desc` leaves: every descriptor as free or taken as before, those taken
-- before with their contents, and no three of them free.
pub record IsRolledBack (c : Config) (d d' : Disk) : Type 0 where
  pub same_free : (j : ℕ) → free_at d' j ≡ free_at d j
  pub same_taken :
      (j : ℕ) → free_at d j ≡ 0 → get_or d'.desc j zero_desc ≡ get_or d.desc j zero_desc
  pub few :
      (i j k : ℕ)
      → i < c.num
      → j < c.num
      → k < c.num
      → i ≢ j
      → i ≢ k
      → j ≢ k
      → free_at d i ≢ 0
      → free_at d j ≢ 0
      → free_at d k ≡ 0
  pub sound : IsSound c d'
  pub rest :
      (d'.info ≡ d.info)
      × (d'.busy ≡ d.busy)
      × (d'.avail_ring ≡ d.avail_ring)
      × (d'.avail_idx ≡ d.avail_idx)
      × (d'.used_idx ≡ d.used_idx)
      × (d'.used_ring ≡ d.used_ring)
      × (d'.dev_idx ≡ d.dev_idx)
      × (d'.lock ≡ d.lock)
      × (d'.hart ≡ d.hart)
