-- ===== src/Virtio/Flight.antt =====
-- Many requests at once, under every order of calls, wakeups and interrupts.
pub mod Steps
pub mod Reached
use raynix.Base.{
  ℕ, zero, suc, ◌≡◌, refl, sym, ap, subst, ◌∙◌, ◌≢◌, ◌⊎◌, inl, inr, Bool, true, false, Option, none,
  some, arith, ◌==◌, if◌then◌else◌, get_or, put,
}
use native.Mathlib.Decide.{ℕ_discrete}
use mathlib.Core.Option.{some-injective}
use raynix.Virtio.{Config, Disk, zero_desc}
use raynix.Outcome.{Run, done, panic, forever}
use raynix.Virtio.Request.{Wait, for_free, for_buffer, unlock_disk, rw_start, rw_resume}
use raynix.Virtio.Interrupt.{intr_loop, intr_round, virtio_disk_intr}
use raynix.Virtio.Alloc.{free_at, IsSound, IsRolledBack}
use raynix.Virtio.Chain.{IsChain}
use raynix.Virtio.Rw.{opened, IsSent}
use raynix.Virtio.Resume.{IsEnded, same-IsSound, same-IsChain, rw_resume-returns}

-- the configuration with the block numbers of the time
abbrev pub at_time : Config → (ℕ → ℕ) → Config
at_time c numbers = record c { block_no = numbers }

-- A request on its way: its buffer and its descriptors.
pub record Flight : Type 0 where
  pub b : ℕ
  pub i0 : ℕ
  pub i1 : ℕ
  pub i2 : ℕ

-- The descriptors of a request, from the first: each names the next.
abbrev pub flight_at : ℕ → ℕ → Disk → Flight
flight_at b i0 d =
    let i1 = (get_or d.desc i0 zero_desc).next in
    record { b = b; i0 = i0; i1 = i1; i2 = (get_or d.desc i1 zero_desc).next }

-- The states that are reached from a sound one by calls of `virtio_disk_rw` with the lock free that end
-- in their first sleep, for the buffer or for descriptors, by wakeups that end a call, and by other
-- work, which leaves the descriptors and who holds them alone: the device and the interrupt. The
-- requests on their way are at their numbers.
pub data Reach (c : Config) : Disk → (ℕ → Option Flight) → Type 0 where
  start : {d : Disk} → IsSound c d → Reach c d (λ k. none)
  send :
      {d d' : Disk} {fs : ℕ → Option Flight} (id k b : ℕ) (write : Bool) (i0 : ℕ) (numbers : ℕ → ℕ)
      → Reach c d fs
      → fs k ≡ none
      → d.lock ≢ 0
      → rw_start id (at_time c numbers) b write d ≡ done (for_buffer i0, d')
      → Reach c d' (put fs k (some (flight_at b i0 d')))
  wait :
      {d d' : Disk} {fs : ℕ → Option Flight} (id b : ℕ) (write : Bool) (numbers : ℕ → ℕ)
      → Reach c d fs
      → d.lock ≢ 0
      → rw_start id (at_time c numbers) b write d ≡ done (for_free, d')
      → Reach c d' fs
  finish :
      {d d' : Disk} {fs : ℕ → Option Flight} (id k : ℕ) (f : Flight) (numbers : ℕ → ℕ)
      → Reach c d fs
      → fs k ≡ some f
      → d.lock ≢ 0
      → d.busy f.b ≢ 1
      → rw_resume id (at_time c numbers) f.b f.i0 d ≡ done (none, d')
      → Reach c d' (put fs k none)
  elsewhere :
      {d d' : Disk} {fs : ℕ → Option Flight}
      → Reach c d fs
      → d'.desc ≡ d.desc
      → d'.free ≡ d.free
      → Reach c d' fs

abbrev pub Uses : Flight → ℕ → Type 0
Uses f j = (j ≡ f.i0) ⊎ ((j ≡ f.i1) ⊎ (j ≡ f.i2))

-- The driver is sound, the descriptors of each request are its chain, and no two requests share one.
pub record Inv (c : Config) (d : Disk) (fs : ℕ → Option Flight) : Type 0 where
  pub sound : IsSound c d
  pub chains : (k : ℕ) (f : Flight) → fs k ≡ some f → IsChain c d f.i0 f.i1 f.i2
  pub apart :
      (k l : ℕ) (f g : Flight)
      → k ≢ l
      → fs k ≡ some f
      → fs l ≡ some g
      → (j : ℕ) → Uses f j
      → Uses g j
      → ⊥
