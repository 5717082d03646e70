-- ===== src/Tests/Locks.antt =====
-- kernel/spinlock.c on one hart, and on two.
use raynix.Base.{put, ℕ, ◌≡◌, refl, ◌⊎◌, arith}
use raynix.Spinlock.Layers.{IsAt, pushes, pops, pops-pushes}
use raynix.Spinlock.Mutex.{
  System, outside, spinning, inside, Step, Reach, start, later, call, win, mutual_exclusion,
  no_deadlock,
}
use raynix.Tests.{hart}

hart-IsAt : IsAt 1 0 0 1 hart
hart-IsAt = record { inside = omega arith; layers = refl; flag = refl; enable = refl }

pops-pushes_example : IsAt 1 0 0 1 (pops 3 1 (pushes 3 1 hart))
pops-pushes_example = pops-pushes 3 hart-IsAt (omega arith)

-- Hart 1 has the lock and hart 2 waits for it.
abbrev contended : System
contended = record { lock = 0; pc = put (put (put (λ _. outside) 1 spinning) 1 inside) 2 spinning }

contended-Reach : Reach contended
contended-Reach =
    later (later (later (start 7) (call 1 refl)) (win 1 refl (λ e. omega arith))) (call 2 refl)

abbrev owner : ℕ
owner = 1

mutual_exclusion_example : owner ≡ owner
mutual_exclusion_example = mutual_exclusion contended-Reach owner owner refl refl

no_deadlock_example :
    ((t : System) × Step contended t × (t.pc 2 ≡ inside))
    ⊎ ((j : ℕ) × (t : System) × (u : System) × (contended.pc j ≡ inside)
        × Step contended t
        × (t.pc j ≡ outside)
        × Step t u
        × (u.pc 2 ≡ inside)
        × (u.pc j ≡ outside))
no_deadlock_example = no_deadlock contended-Reach 2 refl
