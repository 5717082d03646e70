-- ===== src/Memory.antt =====
-- The byte-addressed physical memory that kernel/tools.c, kernel/kalloc.c and kernel/vm.c work on,
-- with the little-endian 64-bit access of the `uint64` pointers in the last two.
pub mod Words
use raynix.Base.{ℕ, ◌+◌, ◌-◌, ◌*◌, ◌/◌, ◌%◌, ◌^◌, ◌&&◌, ltb, leb, ◌==◌, if◌then◌else◌}

abbrev pub Addr : Type 0
Addr = ℕ

-- The byte at every address. Address 0 is `NULL`, and an access through it is an access like any
-- other, as on a machine that runs with paging off.
abbrev pub Memory : Type 0
Memory = Addr → ℕ

-- `*a = v` for a byte
abbrev pub store8 : Memory → Addr → ℕ → Memory
store8 m a v b = if b == a then v else m b

-- `*(uint64 *)a`
unfoldable pub load64 : Memory → Addr → ℕ
load64 m a =
    m a
    + 0x100
      * (m (a + 1)
          + 0x100
            * (m (a + 2)
                + 0x100
                  * (m (a + 3)
                      + 0x100
                        * (m (a + 4)
                            + 0x100 * (m (a + 5) + 0x100 * (m (a + 6) + 0x100 * m (a + 7)))))))

-- `*(uint64 *)a = v`
unfoldable pub store64 : Memory → Addr → ℕ → Memory
store64 m a v b = if leb a b && ltb b (a + 8) then v / 2 ^ (8 * (b - a)) % 0x100 else m b
