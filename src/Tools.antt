-- ===== src/Tools.antt =====
-- kernel/tools.c: `set_memory` and `memmove`, byte by byte as their loops run.
pub mod Fill
pub mod Move
use raynix.Base.{
  ℕ, zero, suc, ◌+◌, ◌-◌, ◌%◌, ◌<◌, Bool, true, false, ◌&&◌, ltb, ◌==◌, if◌then◌else◌,
}
use raynix.Memory.{Addr, Memory, store8}

-- `for(int i = 0; i < length; i++) tar_start[i] = value;`, with `n` rounds left from `i` on
set_loop : ℕ → ℕ → Addr → ℕ → Memory → Memory
set_loop zero i start value m = m
set_loop (suc n) i start value m =
    set_loop n (i + 1) start value (store8 m (start + i) (value % 0x100))

-- The memory after the call; the call returns `start`.
unfoldable pub set_memory : Memory → Addr → ℕ → ℕ → Memory
unfolding set_loop
set_memory m start value length = set_loop length 0 start value m

-- `while(n-- > 0) *--d = *--s;`
backward : ℕ → Addr → Addr → Memory → Memory
backward zero s d m = m
backward (suc n) s d m = backward n (s - 1) (d - 1) (store8 m (d - 1) (m (s - 1)))

-- `while(n-- > 0) *d++ = *s++;`
forward : ℕ → Addr → Addr → Memory → Memory
forward zero s d m = m
forward (suc n) s d m = forward n (s + 1) (d + 1) (store8 m d (m s))

-- The memory after the call; the call returns `dst`.
unfoldable pub memmove : Memory → Addr → Addr → ℕ → Memory
unfolding backward forward
memmove m dst src n =
    if n == 0
    then m
    else if ltb src dst && ltb dst (src + n)
    then backward n (src + n) (dst + n) m
    else forward n src dst m
