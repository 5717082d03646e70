-- ===== src/Vm/Entry.antt =====
-- The bit operations of kernel/vm.c as arithmetic, and entries under changes of memory.
use raynix.Base.{
  ℕ, ◌+◌, ◌*◌, ◌/◌, ◌%◌, ◌^◌, ◌≤◌, ◌<◌, ◌≡◌, ◌≢◌, ◌⊎◌, ap, ◌∙◌, arith, bit_and, bit_or,
}
use raynix.Base.Bits.{bit_and-mask, bit_or-fields}
use raynix.Layout.{pte_v}
use raynix.Memory.{Addr, Memory}
use raynix.Memory.Words.{load64-agree, load64-zero}
use raynix.Kalloc.Pages.{IsPage}
use raynix.Vm.{slot, ◌>>>◌, ◌<<<◌}
use raynix.Vm.Table.{pte, IsValid, target, vpn}

pub index_lem : (va i : ℕ) → bit_and (va >>> (12 + 9 * i)) 0x1ff ≡ vpn i va
index_lem va i = bit_and-mask 9 (va >>> (12 + 9 * i))

pub offset_lem : (va : ℕ) → bit_and va 0xfff ≡ va % 2 ^ 12
offset_lem va = bit_and-mask 12 va

pub valid_lem : (e : ℕ) → bit_and e pte_v ≡ e % 2
valid_lem e = bit_and-mask 1 e

-- the entry for a table at page `x`
abbrev pub table_entry : Addr → ℕ
table_entry x = bit_or (x >>> 12 <<< 10) pte_v

pub table_entry_lem : {x : ℕ} → IsPage x → table_entry x ≡ x / 4096 * 1024 + 1
table_entry_lem {x} p =
    ap (λ t. bit_or t pte_v) (omega arith) ∙ bit_or-fields 10 (x / 4096) 1 (omega arith)

pub table_entry-target :
    {x : ℕ}
    → IsPage x
    → IsValid (table_entry x) × (target (table_entry x) ≡ x) × (table_entry x < 2 ^ 64)
table_entry-target {x} p =
    let e = table_entry_lem p in (omega (arith, e), omega (arith, e), omega (arith, e))

module _ {p q i j : ℕ} (page : IsPage p) (page' : IsPage q) (in_p : i < 512) (in_q : j < 512) where
  -- Two entries are one entry or do not overlap.
  pub slots_apart : (p ≢ q) ⊎ (i ≢ j) → (slot q j + 8 ≤ slot p i) ⊎ (slot p i + 8 ≤ slot q j)
  slots_apart h = omega arith

  pub slot-injective : slot p i ≡ slot q j → (p ≡ q) × (i ≡ j)
  slot-injective e = omega arith

-- Entries of a page keep their value under a change outside it.
pub pte-agree :
    (m n : Memory) {p : ℕ} (i : ℕ)
    → i < 512
    → ((b : ℕ) → p ≤ b → b < p + 4096 → n b ≡ m b)
    → pte n p i ≡ pte m p i
pte-agree m n {p} i lt same =
    load64-agree n m (slot p i) λ b lo hi. same b (omega arith) (omega arith)

-- Entries of a page of zeros are not valid.
pub pte-zero :
    (m : Memory) {p : ℕ} (i : ℕ)
    → i < 512
    → ((b : ℕ) → p ≤ b → b < p + 4096 → m b ≡ 0)
    → pte m p i ≡ 0
pte-zero m {p} i lt zeros = load64-zero m (slot p i) λ b lo hi. zeros b (omega arith) (omega arith)
