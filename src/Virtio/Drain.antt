-- ===== src/Virtio/Drain.antt =====
-- The loop of `virtio_disk_intr`: it takes every entry that the device has put in the used ring.
use raynix.Base.{
  put, ℕ, zero, suc, ◌+◌, ◌-◌, ◌%◌, ◌^◌, ◌<◌, ◌≡◌, refl, sym, ap, ◌∙◌, ◌≢◌, ◌⊎◌, inl, inr, arith,
  ◌==◌, false, if◌then◌else◌, get_or, ◌∷◌,
}
use native.Mathlib.Decide.{ℕ_discrete}
use raynix.Virtio.{Config, Info, zero_info, Disk, buffer}
use raynix.Outcome.{Run, done, panic}
use raynix.Virtio.Interrupt.{used_id, intr_round, intr_loop}

-- How many entries of the used ring are new: the indices are 16 bits wide and wrap around.
abbrev pub pending : Disk → ℕ
pending d = (d.dev_idx + 2 ^ 16 - d.used_idx) % 2 ^ 16

-- The `k`th new entry.
abbrev pub pending_info : Config → Disk → ℕ → Info
pending_info c d k =
    get_or d.info (get_or d.used_ring ((d.used_idx + k) % 2 ^ 16 % c.num) 0) zero_info

-- `d'` is `d` with its first `n` new entries handled, all of which report success.
pub record IsDrained (c : Config) (n : ℕ) (d d' : Disk) : Type 0 where
  pub caught_up : d'.used_idx ≡ d.dev_idx
  pub succeeded : (k : ℕ) → k < n → (pending_info c d k).status ≡ 0
  pub finished : (k : ℕ) → k < n → d'.busy (pending_info c d k).b ≡ 0
  pub clears : (b : ℕ) → (d'.busy b ≡ 0) ⊎ (d'.busy b ≡ d.busy b)
  pub others : (b : ℕ) → ((k : ℕ) → k < n → (pending_info c d k).b ≢ b) → d'.busy b ≡ d.busy b
  pub rest : (d'.free ≡ d.free) × (d'.desc ≡ d.desc) × (d'.info ≡ d.info) × (d'.lock ≡ d.lock)

-- the state after one round
abbrev handled : Config → Disk → Disk
handled c d =
    let b = (get_or d.info (used_id c d) zero_info).b in
    record d {
      busy = put d.busy b 0;
      woken = buffer b ∷ d.woken;
      used_idx = (d.used_idx + 1) % 2 ^ 16;
    }

-- An entry that is new after a round was the next one before it.
shifted :
    (c : Config) (d : Disk) (k : ℕ) → pending_info c (handled c d) k ≡ pending_info c d (suc k)
shifted c d k =
    let same : ((d.used_idx + 1) % 2 ^ 16 + k) % 2 ^ 16 ≡ (d.used_idx + suc k) % 2 ^ 16 =
      omega arith in
    ap (λ t. get_or d.info (get_or d.used_ring (t % c.num) 0) zero_info) same

first :
    (c : Config) (d : Disk)
    → d.used_idx < 2 ^ 16
    → pending_info c d 0 ≡ get_or d.info (used_id c d) zero_info
first c d h =
    let same : (d.used_idx + 0) % 2 ^ 16 ≡ d.used_idx = omega arith in
    ap (λ t. get_or d.info (get_or d.used_ring (t % c.num) 0) zero_info) same

busy-handled :
    (c : Config) (d : Disk) (x : ℕ)
    → d.used_idx < 2 ^ 16
    → (handled c d).busy x ≡ (if x == (pending_info c d 0).b then 0 else d.busy x)
busy-handled c d x h = ap (λ i. if x == i.b then 0 else d.busy x) (sym (first c d h))

intr_round-cases :
    (c : Config) (d : Disk)
    → d.used_idx < 2 ^ 16
    → (((pending_info c d 0).status ≡ 0) × (intr_round c d ≡ done (handled c d)))
      ⊎ (((pending_info c d 0).status ≢ 0) × (intr_round c d ≡ panic))
unfolding intr_round
intr_round-cases c d h = elim (ℕ_discrete (get_or d.info (used_id c d) zero_info).status 0) [
  | yes z ↦ inl (rw (first c d h) z, ground arith)
  | no ne ↦ inr (rw (first c d h) ne, ground arith)
]

IsDrained-step :
    (c : Config) (n : ℕ) (d d' : Disk)
    → d.used_idx < 2 ^ 16
    → (pending_info c d 0).status ≡ 0
    → IsDrained c n (handled c d) d'
    → IsDrained c (suc n) d d'
IsDrained-step c n d d' h ok r = record {
  caught_up = r.caught_up;
  succeeded = λ k. elim k as (λ k. k < suc n → (pending_info c d k).status ≡ 0) [
    | zero ↦ λ lt. ok
    | suc k ↦ λ lt. rw (sym (shifted c d k)) (r.succeeded k (omega arith))
  ];
  finished = λ k. elim k as (λ k. k < suc n → d'.busy (pending_info c d k).b ≡ 0) [
    | zero ↦ λ lt. elim (r.clears (pending_info c d 0).b) [
      | inl z ↦ z
      | inr e ↦ e ∙ busy-handled c d (pending_info c d 0).b h ∙ ground arith
    ]
    | suc k ↦ λ lt. rw (sym (shifted c d k)) (r.finished k (omega arith))
  ];
  clears = λ b. elim (r.clears b) [ inl z ↦ inl z | inr e ↦ ground (arith, busy-handled c d b h) ];
  others = λ b ne.
      r.others b (λ k lt. rw (shifted c d k) (ne (suc k) (omega arith)))
      ∙ busy-handled c d b h
      ∙ ground (arith, ne 0);
  rest = r.rest;
}

-- How a run of the loop on `n` new entries ends.
abbrev pub DrainEnd : Config → ℕ → Disk → Run Disk → Type 0
DrainEnd c n d r =
    ((d' : Disk) × (r ≡ done d') × IsDrained c n d d')
    ⊎ ((r ≡ panic) × (k : ℕ) × (k < n) × ((pending_info c d k).status ≢ 0))

drain :
    (n fuel : ℕ) (c : Config) (d : Disk)
    → n < fuel
    → d.used_idx < 2 ^ 16
    → d.dev_idx < 2 ^ 16
    → pending d ≡ n
    → DrainEnd c n d (intr_loop fuel c d)
unfolding intr_loop
drain n zero c d lt hu hd p = absurd (omega arith)
drain zero (suc fuel) c d lt hu hd p =
    let same : d.used_idx ≡ d.dev_idx = omega arith in
    inl (
      d,
      ground (arith, same),
      record {
        caught_up = same;
        succeeded = λ k h. absurd (omega arith);
        finished = λ k h. absurd (omega arith);
        clears = λ b. inr refl;
        others = λ b h. refl;
        rest = (refl, refl, refl, refl);
      },
    )
drain (suc n) (suc fuel) c d lt hu hd p =
    let differ : (d.used_idx == d.dev_idx) ≡ false = ground arith in
    elim (intr_round-cases c d hu) [
      | inl (ok, e) ↦
          elim (drain n fuel c (handled c d) (omega arith) (omega arith) hd (omega arith)) [
            | inl (d', e', r) ↦ inl (d', rw (differ, e) e', IsDrained-step c n d d' hu ok r)
            | inr (e', k, kn, bad) ↦
                inr (rw (differ, e) e', suc k, omega arith, rw (sym (shifted c d k)) bad)
          ]
      | inr (bad, e) ↦ inr (rw (differ, e), 0, omega arith, bad)
    ]

-- With both counters of 16 bits, the loop of `virtio_disk_intr` ends within its fuel. Either
-- every new entry of the used ring reports success, and all their buffers are done with, no
-- other buffer is touched and the driver has caught up with the device; or it panics, and some
-- new entry reports a failure.
pub intr_loop-drains :
    (c : Config) (d : Disk)
    → d.used_idx < 2 ^ 16
    → d.dev_idx < 2 ^ 16
    → DrainEnd c (pending d) d (intr_loop (2 ^ 16) c d)
intr_loop-drains c d hu hd = drain (pending d) (2 ^ 16) c d (omega arith) hu hd refl
