-- ===== src/Tools/Fill.antt =====
-- What `set_memory` leaves at each address.
use raynix.Base.{ℕ, zero, suc, ◌+◌, ◌%◌, ◌≡◌, ◌&&◌, arith, ltb, leb, if◌then◌else◌}
use raynix.Memory.{Addr, Memory, store8}
use raynix.Tools.{set_loop, set_memory}

set_loop_lem :
    (n i : ℕ) (start : Addr) (value : ℕ) (m : Memory) (a : Addr)
    → set_loop n i start value m a
      ≡ (if leb (start + i) a && ltb a (start + i + n) then value % 0x100 else m a)
unfolding set_loop
set_loop_lem zero i start value m a = ground arith
set_loop_lem (suc n) i start value m a =
    ground (arith, set_loop_lem n (i + 1) start value (store8 m (start + i) (value % 0x100)) a)

-- `set_memory` puts the low byte of its value into the bytes of the range, and changes no other.
pub set_memory_lem :
    (m : Memory) (start : Addr) (value length : ℕ) (a : Addr)
    → set_memory m start value length a
      ≡ (if leb start a && ltb a (start + length) then value % 0x100 else m a)
unfolding set_memory
set_memory_lem m start value length a = ground (arith, set_loop_lem length 0 start value m a)
