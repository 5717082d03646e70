-- ===== src/Tests/Bytes.antt =====
-- kernel/tools.c on small ranges.
use raynix.Base.{◌≡◌, refl}
use raynix.Memory.{Memory}
use raynix.Tools.{memmove}
use raynix.Tools.Move.{memmove_lem}

-- the byte at `a` is `a`
abbrev ramp : Memory
ramp a = a

-- Two bytes up, then two bytes down, the ranges overlapping.
memmove_runs :
    (memmove ramp 11 10 4 12 ≡ 11) × (memmove ramp 11 10 4 14 ≡ 13) × (memmove ramp 9 10 4 9 ≡ 10)
unfolding memmove
memmove_runs = (refl, refl, refl)

memmove_lem_example : memmove ramp 11 10 4 13 ≡ 12
memmove_lem_example = memmove_lem ramp 11 10 4 13
