-- ===== src/Mkfs/Order/Laws.antt =====
-- The byte order that `xshort` and `xint` give, and that they undo themselves.
use raynix.Base.{ℕ, zero, suc, ◌*◌, ◌/◌, ◌%◌, ◌^◌, ◌<◌, ◌≡◌, arith, ◌≢◌}
use raynix.Mkfs.Order.{Order, Bytes, little, big, byte_of, xshort, xint, get_word, set_word}

-- What `xint` gives is kept in memory as the four bytes of its argument, the lowest first, whatever
-- the order of the host.
pub xint-digits :
    (order : Order) (x i : ℕ) → i < 4 → byte_of order (xint order x) i ≡ x / 2 ^ (8 * i) % 0x100
unfolding xint
xint-digits little x zero h = omega arith
xint-digits little x (suc zero) h = omega arith
xint-digits little x (suc (suc zero)) h = omega arith
xint-digits little x (suc (suc (suc zero))) h = omega arith
xint-digits little x (suc (suc (suc (suc i)))) h = absurd (omega arith)
xint-digits big x zero h = omega arith
xint-digits big x (suc zero) h = omega arith
xint-digits big x (suc (suc zero)) h = omega arith
xint-digits big x (suc (suc (suc zero))) h = omega arith
xint-digits big x (suc (suc (suc (suc i)))) h = absurd (omega arith)

-- what `xint` gives is a `uint`
pub xint-lt : (order : Order) (x : ℕ) → xint order x < 2 ^ 32
unfolding xint
xint-lt little x = omega arith
xint-lt big x = omega arith

-- `xint` of what `xint` gives is the argument again, for every `uint` and in either byte order.
pub xint-xint : (order : Order) (x : ℕ) → x < 2 ^ 32 → xint order (xint order x) ≡ x
unfolding xint
xint-xint little x h = omega arith
xint-xint big x h = omega arith

pub xshort-xshort : (order : Order) (x : ℕ) → x < 2 ^ 16 → xshort order (xshort order x) ≡ x
unfolding xshort
xshort-xshort little x h = omega arith
xshort-xshort big x h = omega arith

-- A word written is read back, and the other words of the buffer stay.
pub get_word-set_word :
    (order : Order) (buf : Bytes) (k v : ℕ)
    → v < 2 ^ 32
    → get_word order (set_word order buf k v) k ≡ v
unfolding get_word set_word
get_word-set_word little buf k v h = ground arith
get_word-set_word big buf k v h = ground arith

pub get_word-set_word_ne :
    (order : Order) (buf : Bytes) (k j v : ℕ)
    → j ≢ k
    → get_word order (set_word order buf k v) j ≡ get_word order buf j
unfolding get_word set_word
get_word-set_word_ne little buf k j v ne = ground arith
get_word-set_word_ne big buf k j v ne = ground arith

pub xshort-lt : (order : Order) (x : ℕ) → xshort order x < 2 ^ 16
unfolding xshort
xshort-lt little x = omega arith
xshort-lt big x = omega arith
