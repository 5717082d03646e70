-- ===== src/Tools/Move.antt =====
-- What `memmove` leaves at each address, however the two ranges overlap.
use raynix.Base.{ℕ, zero, suc, ◌+◌, ◌-◌, ◌≤◌, ◌≡◌, ◌⊎◌, ◌&&◌, arith, ltb, leb, if◌then◌else◌}
use raynix.Memory.{Addr, Memory, store8}
use raynix.Tools.{backward, forward, memmove}

forward_lem :
    (n : ℕ) (s d : Addr) (m : Memory) (a : Addr)
    → (d ≤ s) ⊎ (s + n ≤ d)
    → forward n s d m a ≡ (if leb d a && ltb a (d + n) then m (s + (a - d)) else m a)
unfolding forward
forward_lem zero s d m a h = ground arith
forward_lem (suc n) s d m a h = ground (arith, forward_lem n (s + 1) (d + 1) (store8 m d (m s)) a)

backward_lem :
    (n : ℕ) (s d s' d' : Addr) (m : Memory) (a : Addr)
    → s' ≡ s + n
    → d' ≡ d + n
    → s ≤ d
    → backward n s' d' m a ≡ (if leb d a && ltb a (d + n) then m (s + (a - d)) else m a)
unfolding backward
backward_lem zero s d s' d' m a p q h = ground arith
backward_lem (suc n) s d s' d' m a p q h =
    ground (arith, backward_lem n s d (s' - 1) (d' - 1) (store8 m (d' - 1) (m (s' - 1))) a)

-- After `memmove` the target range holds what the source range held before the call, also where
-- the two overlap, and no other byte has changed.
pub memmove_lem :
    (m : Memory) (dst src : Addr) (n : ℕ) (a : Addr)
    → memmove m dst src n a ≡ (if leb dst a && ltb a (dst + n) then m (src + (a - dst)) else m a)
unfolding memmove
memmove_lem m dst src n a =
    ground (arith, backward_lem n src dst (src + n) (dst + n) m a, forward_lem n src dst m a)
