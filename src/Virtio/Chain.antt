-- ===== src/Virtio/Chain.antt =====
-- `free_chain`: it ends on every chain, and what it gives back of a chain of three.
use raynix.Base.{
  ℕ, zero, suc, ◌+◌, ◌-◌, ◌≤◌, ◌<◌, ◌≡◌, ap, ◌∙◌, ◌≢◌, ◌⊎◌, inl, inr, false, List, [], ◌∷◌, arith,
  length, bit_and, ◌==◌, if◌then◌else◌, get_or, set, Bool-cases,
}
use raynix.Virtio.{Config, Disk, zero_desc, freed, chain_loop, free_chain}
use raynix.Outcome.{done, panic}
use raynix.Virtio.Alloc.{free_at, IsSound, free_desc-cases, free_desc-done}
use raynix.Virtio.Alloc3.{free_at-freed, desc-freed, freed-IsSound}

-- how many entries are 0
count_taken : List ℕ → ℕ
count_taken [] = 0
count_taken (x ∷ xs) = if x == 0 then suc (count_taken xs) else count_taken xs

count_taken-le : (xs : List ℕ) → count_taken xs ≤ length xs
unfolding count_taken
count_taken-le [] = omega arith
count_taken-le (x ∷ xs) = ground (arith, count_taken-le xs)

count_taken-set :
    (xs : List ℕ) (i : ℕ)
    → i < length xs
    → get_or xs i 0 ≡ 0
    → count_taken (set xs i 1) + 1 ≡ count_taken xs
unfolding count_taken
count_taken-set [] i h z = absurd (omega arith)
count_taken-set (x ∷ xs) zero h z = ground arith
count_taken-set (x ∷ xs) (suc i) h z = ground (arith, count_taken-set xs i)

chain_loop-ends :
    (fuel : ℕ) (c : Config) (i : ℕ) (d : Disk)
    → IsSound c d
    → count_taken d.free < fuel
    → ((d' : Disk) × (chain_loop fuel c i d ≡ done d') × IsSound c d')
      ⊎ (chain_loop fuel c i d ≡ panic)
unfolding chain_loop
chain_loop-ends zero c i d v h = absurd (omega arith)
chain_loop-ends (suc fuel) c i d v h = elim (free_desc-cases c i d) [
  | inr (bad, e) ↦ inr (rw e)
  | inl (lt, z, e) ↦
      let entry = get_or d.desc i zero_desc in
      elim (Bool-cases (bit_and entry.flags c.f_next == 0)) [
        | inl last ↦ inl (freed i d, rw (e, last), freed-IsSound v i lt)
        | inr more ↦
            rw (e, more)
              (chain_loop-ends fuel c entry.next (freed i d) (freed-IsSound v i lt)
                (omega (arith, count_taken-set d.free i (omega (arith, v.entries)) z)))
      ]
]

-- From a sound state `free_chain` ends, whatever the descriptors say: it returns in a sound state
-- or it panics, and never runs for ever, not on a cycle either.
pub free_chain-ends :
    (c : Config) (i : ℕ) (d : Disk)
    → IsSound c d
    → ((d' : Disk) × (free_chain c i d ≡ done d') × IsSound c d') ⊎ (free_chain c i d ≡ panic)
unfolding free_chain
free_chain-ends c i d v =
    chain_loop-ends (c.num + 1) c i d v (omega (arith, count_taken-le d.free, v.entries))

-- Three different descriptors, taken, that lead from one to the next and end there.
pub record IsChain (c : Config) (d : Disk) (i0 i1 i2 : ℕ) : Type 0 where
  pub in_range : (i0 < c.num) × (i1 < c.num) × (i2 < c.num)
  pub distinct : (i0 ≢ i1) × (i0 ≢ i2) × (i1 ≢ i2)
  pub in_use : (free_at d i0 ≡ 0) × (free_at d i1 ≡ 0) × (free_at d i2 ≡ 0)
  pub linked : ((get_or d.desc i0 zero_desc).next ≡ i1) × ((get_or d.desc i1 zero_desc).next ≡ i2)
  pub flagged :
      (bit_and (get_or d.desc i0 zero_desc).flags c.f_next ≢ 0)
      × (bit_and (get_or d.desc i1 zero_desc).flags c.f_next ≢ 0)
      × (bit_and (get_or d.desc i2 zero_desc).flags c.f_next ≡ 0)

abbrev pub freed3 : ℕ → ℕ → ℕ → Disk → Disk
freed3 i0 i1 i2 d = freed i2 (freed i1 (freed i0 d))

-- one round on a descriptor with the flag set, and one without
more-round :
    (fuel : ℕ) (c : Config) (i j : ℕ) (d : Disk)
    → i < c.num
    → free_at d i ≡ 0
    → bit_and (get_or d.desc i zero_desc).flags c.f_next ≢ 0
    → (get_or d.desc i zero_desc).next ≡ j
    → chain_loop (suc fuel) c i d ≡ chain_loop fuel c j (freed i d)
unfolding chain_loop
more-round fuel c i j d lt z flag e =
    let more : (bit_and (get_or d.desc i zero_desc).flags c.f_next == 0) ≡ false = ground arith in
    rw (free_desc-done c i d lt z, more, e)

last-round :
    (fuel : ℕ) (c : Config) (i : ℕ) (d : Disk)
    → i < c.num
    → free_at d i ≡ 0
    → bit_and (get_or d.desc i zero_desc).flags c.f_next ≡ 0
    → chain_loop (suc fuel) c i d ≡ done (freed i d)
unfolding chain_loop
last-round fuel c i d lt z flag = rw (free_desc-done c i d lt z, flag)

-- In a sound state, `free_chain` at the head of a chain of three returns, with exactly the three
-- freed and cleared.
pub free_chain-freed3 :
    {c : Config} {d : Disk} {i0 i1 i2 : ℕ}
    → IsSound c d
    → IsChain c d i0 i1 i2
    → free_chain c i0 d ≡ done (freed3 i0 i1 i2 d)
unfolding free_chain
free_chain-freed3 {c} {d} {i0} {i1} {i2} v h =
    ap (λ t. chain_loop t c i0 d) fuel
    ∙ more-round (suc (suc k)) c i0 i1 d lt0 h.in_use.0 h.flagged.0 h.linked.0
    ∙ more-round (suc k) c i1 i2 (freed i0 d) lt1 zero1 flag1 next1
    ∙ last-round k c i2 (freed i1 (freed i0 d)) lt2 zero2 flag2
  where
    open h use {in_range, distinct}

    k : ℕ
    k = c.num - 2

    lt0 : i0 < c.num
    lt0 = in_range.0

    lt1 : i1 < c.num
    lt1 = in_range.1

    lt2 : i2 < c.num
    lt2 = in_range.2

    fuel : c.num + 1 ≡ suc (suc (suc k))
    fuel = omega arith

    v0 : IsSound c (freed i0 d)
    v0 = freed-IsSound v i0 lt0

    zero1 : free_at (freed i0 d) i1 ≡ 0
    zero1 = ground (arith, free_at-freed v i0 lt0 i1, h.in_use)

    zero2 : free_at (freed i1 (freed i0 d)) i2 ≡ 0
    zero2 = ground (arith, free_at-freed v0 i1 lt1 i2, free_at-freed v i0 lt0 i2, h.in_use)

    kept1 : get_or (freed i0 d).desc i1 zero_desc ≡ get_or d.desc i1 zero_desc
    kept1 = ground (arith, desc-freed v i0 lt0 i1)

    kept2 : get_or (freed i1 (freed i0 d)).desc i2 zero_desc ≡ get_or d.desc i2 zero_desc
    kept2 = ground (arith, desc-freed v0 i1 lt1 i2, desc-freed v i0 lt0 i2)

    flag1 : bit_and (get_or (freed i0 d).desc i1 zero_desc).flags c.f_next ≢ 0
    flag1 = rw kept1 h.flagged.1

    next1 : (get_or (freed i0 d).desc i1 zero_desc).next ≡ i2
    next1 = rw kept1 h.linked.1

    flag2 : bit_and (get_or (freed i1 (freed i0 d)).desc i2 zero_desc).flags c.f_next ≡ 0
    flag2 = rw kept2 h.flagged.2
