-- ===== src/Memory/Words.antt =====
-- A word read back, and words that do not overlap.
use raynix.Base.{ℕ, ◌+◌, ◌-◌, ◌*◌, ◌/◌, ◌%◌, ◌^◌, ◌≤◌, ◌<◌, ◌≡◌, refl, ◌⊎◌, arith}
use raynix.Memory.{Addr, Memory, load64, store64}

byte-store64 :
    (m : Memory) (a v i b : ℕ) → b ≡ a + i → i < 8 → store64 m a v b ≡ v / 2 ^ (8 * i) % 0x100
unfolding store64
byte-store64 m a v i b e h = let back : b - a ≡ i = omega arith in rw back (ground arith)

bytes :
    (v : ℕ)
    → v < 2 ^ 64
    → v / 2 ^ (8 * 0) % 0x100
        + 0x100
          * (v / 2 ^ (8 * 1) % 0x100
              + 0x100
                * (v / 2 ^ (8 * 2) % 0x100
                    + 0x100
                      * (v / 2 ^ (8 * 3) % 0x100
                          + 0x100
                            * (v / 2 ^ (8 * 4) % 0x100
                                + 0x100
                                  * (v / 2 ^ (8 * 5) % 0x100
                                      + 0x100
                                        * (v / 2 ^ (8 * 6) % 0x100
                                            + 0x100 * (v / 2 ^ (8 * 7) % 0x100)))))))
      ≡ v
bytes v h = omega arith

-- A `uint64` written is read back.
pub load64-store64_self : (m : Memory) (a v : ℕ) → v < 2 ^ 64 → load64 (store64 m a v) a ≡ v
unfolding load64
load64-store64_self m a v h =
    rw
      (
        byte-store64 m a v 0 a (omega arith) (omega arith),
        byte-store64 m a v 1 (a + 1) refl (omega arith),
        byte-store64 m a v 2 (a + 2) refl (omega arith),
        byte-store64 m a v 3 (a + 3) refl (omega arith),
        byte-store64 m a v 4 (a + 4) refl (omega arith),
        byte-store64 m a v 5 (a + 5) refl (omega arith),
        byte-store64 m a v 6 (a + 6) refl (omega arith),
        byte-store64 m a v 7 (a + 7) refl (omega arith),
      )
      (bytes v h)

-- A write touches its eight bytes only.
pub store64-outside : (m : Memory) (a v b : ℕ) → (b < a) ⊎ (a + 8 ≤ b) → store64 m a v b ≡ m b
unfolding store64
store64-outside m a v b h = ground arith

-- Two memories that agree on eight bytes hold the same word there.
pub load64-agree :
    (m n : Memory) (a : Addr) → ((b : ℕ) → a ≤ b → b < a + 8 → m b ≡ n b) → load64 m a ≡ load64 n a
unfolding load64
load64-agree m n a h = rw (
  h a (omega arith) (omega arith),
  h (a + 1) (omega arith) (omega arith),
  h (a + 2) (omega arith) (omega arith),
  h (a + 3) (omega arith) (omega arith),
  h (a + 4) (omega arith) (omega arith),
  h (a + 5) (omega arith) (omega arith),
  h (a + 6) (omega arith) (omega arith),
  h (a + 7) (omega arith) (omega arith),
)

-- A write leaves the words that it does not overlap.
pub load64-store64_apart :
    (m : Memory) (a v b : ℕ) → (b + 8 ≤ a) ⊎ (a + 8 ≤ b) → load64 (store64 m a v) b ≡ load64 m b
load64-store64_apart m a v b h =
    load64-agree (store64 m a v) m b λ c lo hi. store64-outside m a v c (ground arith)

-- Bytes that are all zero hold the word zero.
pub load64-zero : (m : Memory) (a : Addr) → ((b : ℕ) → a ≤ b → b < a + 8 → m b ≡ 0) → load64 m a ≡ 0
unfolding load64
load64-zero m a h = load64-agree m (λ _. 0) a h
