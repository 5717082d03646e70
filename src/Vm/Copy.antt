-- ===== src/Vm/Copy.antt =====
-- `copy_in` and `copy_out`: which bytes they write.
use raynix.Base.{ℕ, ◌+◌, ◌-◌, ◌%◌, ◌^◌, ◌<◌, ◌≡◌, refl, ◌&&◌, some, arith, ltb, leb, if◌then◌else◌}
use raynix.Memory.{Addr}
use raynix.Tools.{memmove}
use raynix.Tools.Move.{memmove_lem}
use raynix.Kalloc.{Kmem}
use raynix.Vm.{copy_in, copy_out}
use raynix.Vm.Table.{translate}
use raynix.Vm.Translate.{find_pa-translate}

-- The `len` bytes from `dst` on are those that `src` on held before, and no other byte changes.
pub record IsCopied (dst src len : ℕ) (s s' : Kmem) : Type 0 where
  pub bytes :
      (b : Addr)
      → s'.mem b ≡ (if leb dst b && ltb b (dst + len) then s.mem (src + (b - dst)) else s.mem b)
  pub allocator : (s'.page_link ≡ s.page_link) × (s'.lock ≡ s.lock) × (s'.hart ≡ s.hart)

fits : {len : ℕ} → len < 2 ^ 32 → len % 2 ^ 32 ≡ len
fits h = omega arith

module _ (id len : ℕ) (pagetable : Addr) (s : Kmem) (small : len < 2 ^ 32) where
  -- From a mapped address, and for a length that fits a `uint`, `copy_in` copies the `len` bytes that
  -- follow its physical address in physical memory into the target, and changes nothing else. Only
  -- the first address is translated: past the end of its page the bytes are those of the next
  -- physical page, whatever is mapped behind the address.
  pub copy_in-IsCopied :
      (target addr : ℕ) {pa : ℕ}
      → translate s.mem pagetable addr ≡ some pa
      → (s' : Kmem) × (copy_in id pagetable target addr len s ≡ some s')
        × IsCopied target pa len s s'
  unfolding copy_in
  copy_in-IsCopied target addr {pa} h = (
    record s { mem = memmove s.mem target pa len },
    rw (find_pa-translate id addr pagetable s h, fits small),
    record { bytes = λ b. memmove_lem s.mem target pa len b; allocator = (refl, refl, refl) },
  )

  -- At a mapped target, and for a length that fits a `uint`, `copy_out` copies the `len` bytes that
  -- follow the target's physical address in physical memory into the source buffer, and changes
  -- nothing else. Only the first address is translated: past the end of its page the bytes are
  -- those of the next physical page, whatever is mapped behind the target.
  pub copy_out-IsCopied :
      (target source : ℕ) {pa : ℕ}
      → translate s.mem pagetable target ≡ some pa
      → (s' : Kmem) × (copy_out id pagetable target source len s ≡ some s')
        × IsCopied source pa len s s'
  unfolding copy_out
  copy_out-IsCopied target source {pa} h = (
    record s { mem = memmove s.mem source pa len },
    rw (find_pa-translate id target pagetable s h, fits small),
    record { bytes = λ b. memmove_lem s.mem source pa len b; allocator = (refl, refl, refl) },
  )
