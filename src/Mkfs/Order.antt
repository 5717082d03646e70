-- ===== src/Mkfs/Order.antt =====
-- `xshort` and `xint` of mkfs/mkfs.c on hosts of either byte order, and the words of a buffer.
pub mod Laws
use raynix.Base.{ℕ, zero, suc, ◌+◌, ◌-◌, ◌*◌, ◌/◌, ◌%◌, ◌^◌, ◌&&◌, leb, ltb, if◌then◌else◌}

-- How the host keeps an integer in memory.
pub data Order : Type 0 where
  little big : Order

abbrev pub Bytes : Type 0
Bytes = ℕ → ℕ

-- The value of a `ushort` and of a `uint` whose bytes are these, and the bytes of a `uint`.
abbrev pub short_of : Order → Bytes → ℕ
short_of little a = a 0 + 0x100 * a 1
short_of big a = a 1 + 0x100 * a 0

abbrev pub word_of : Order → Bytes → ℕ
word_of little a = a 0 + 0x100 * (a 1 + 0x100 * (a 2 + 0x100 * a 3))
word_of big a = a 3 + 0x100 * (a 2 + 0x100 * (a 1 + 0x100 * a 0))

abbrev pub byte_of : Order → ℕ → Bytes
byte_of little x i = x / 2 ^ (8 * i) % 0x100
byte_of big x i = x / 2 ^ (8 * (3 - i)) % 0x100

-- `a[i] = x >> 8 * i`
abbrev pub digits_of : ℕ → Bytes
digits_of x i = x / 2 ^ (8 * i) % 0x100

unfoldable pub xshort : Order → ℕ → ℕ
xshort order x = short_of order (digits_of x)

unfoldable pub xint : Order → ℕ → ℕ
xint order x = word_of order (digits_of x)

-- Element `k` of a buffer that is seen as an array of `uint`.
unfoldable pub get_word : Order → Bytes → ℕ → ℕ
get_word order buf k = word_of order (λ i. buf (4 * k + i))

unfoldable pub set_word : Order → Bytes → ℕ → ℕ → Bytes
set_word order buf k v b =
    if leb (4 * k) b && ltb b (4 * k + 4) then byte_of order v (b - 4 * k) else buf b
