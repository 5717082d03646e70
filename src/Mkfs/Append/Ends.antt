-- ===== src/Mkfs/Append/Ends.antt =====
-- The loop of `iappend` ends: its fuel is enough.
use raynix.Base.{
  ℕ, zero, suc, ◌-◌, ◌%◌, ◌^◌, ◌<◌, ◌≤◌, ◌≡◌, refl, ◌≢◌, arith, Bool, true, false, min, ◌==◌,
  if◌then◌else◌, inl, inr, Bool-cases,
}
use native.Mathlib.Nat.{div-add-mod, mod-lt}
use raynix.Outcome.{Run, done, panic, forever, ◌>>=◌}
use raynix.Mkfs.Order.{Bytes}
use raynix.Mkfs.Image.{Format, Host, Image, Dinode, wsect, rsect, winode, rinode}
use raynix.Mkfs.Append.{chunk, indirect_block, block_for, append_loop, iappend}

abbrev pub Ends {ℓ} : {A : Type ℓ} → Run A → Type ℓ
Ends r = r ≢ forever

pub done-Ends {ℓ} : {A : Type ℓ} (a : A) → Ends (done a)
done-Ends a e = absurd (cc)

pub panic-Ends {ℓ} : {A : Type ℓ} → Ends {A = A} panic
panic-Ends e = absurd (cc)

pub >>=-Ends {ℓ κ} :
    {A : Type ℓ} {B : Type κ} (m : Run A) (f : A → Run B)
    → Ends m
    → ((a : A) → Ends (f a))
    → Ends (m >>= f)
>>=-Ends (done a) f p q = q a
>>=-Ends panic f p q = panic-Ends
>>=-Ends forever f p q = absurd (p refl)

pub if-Ends {ℓ} :
    {A : Type ℓ} (b : Bool) (x y : Run A) → Ends x → Ends y → Ends (if b then x else y)
if-Ends true x y p q = p
if-Ends false x y p q = q

pub wsect-Ends :
    (fmt : Format) (host : Host) (sec : ℕ) (buf : Bytes) (m : Image)
    → Ends (wsect fmt host sec buf m)
unfolding wsect
wsect-Ends fmt host sec buf m = if-Ends _ _ _ (done-Ends _) panic-Ends

pub rsect-Ends : (fmt : Format) (host : Host) (sec : ℕ) (m : Image) → Ends (rsect fmt host sec m)
unfolding rsect
rsect-Ends fmt host sec m = if-Ends _ _ _ (done-Ends _) panic-Ends

pub winode-Ends :
    (fmt : Format) (host : Host) (i : ℕ) (d : Dinode) (m : Image) → Ends (winode fmt host i d m)
unfolding winode
winode-Ends fmt host i d m =
    >>=-Ends _ _ (rsect-Ends fmt host _ m) (λ buf. wsect-Ends fmt host _ _ m)

pub rinode-Ends : (fmt : Format) (host : Host) (i : ℕ) (m : Image) → Ends (rinode fmt host i m)
unfolding rinode
rinode-Ends fmt host i m = >>=-Ends _ _ (rsect-Ends fmt host _ m) (λ buf. done-Ends _)

block_for-Ends :
    (fmt : Format) (host : Host) (fbn : ℕ) (din : Dinode) (m : Image)
    → Ends (block_for fmt host fbn din m)
unfolding block_for indirect_block
block_for-Ends fmt host fbn din m = if-Ends _ _ _ (done-Ends _) (
    >>=-Ends _ _ (rsect-Ends fmt host _ _) (λ indirect.
      if-Ends _ _ _ (>>=-Ends _ _ (wsect-Ends fmt host _ _ _) (λ m3. done-Ends _)) (done-Ends _)))

-- A round takes what is left of the bytes or of the block.
pub chunk-min :
    (fmt : Format) (off n : ℕ)
    → 0 < fmt.bsize
    → fmt.bsize < 2 ^ 32
    → chunk fmt off n ≡ min n (fmt.bsize - off % fmt.bsize)
chunk-min fmt off n some_ fits = omega (arith, div-add-mod off fmt.bsize, mod-lt off some_)

chunk_lem :
    (fmt : Format) (off n : ℕ)
    → 0 < fmt.bsize
    → fmt.bsize < 2 ^ 32
    → 0 < n
    → (0 < chunk fmt off n) × (chunk fmt off n ≤ n)
chunk_lem fmt off n some_ fits h =
    rw (chunk-min fmt off n some_ fits) (omega (arith, mod-lt off some_), omega arith)

append_loop-Ends :
    (fmt : Format) (host : Host) (fuel off : ℕ) (p : Bytes) (n : ℕ) (din : Dinode) (m : Image)
    → 0 < fmt.bsize
    → fmt.bsize < 2 ^ 32
    → n ≤ fuel
    → Ends (append_loop fmt host fuel off p n din m)
unfolding append_loop
append_loop-Ends fmt host zero off p n din m some_ fits h =
    let none_left : (n == 0) ≡ true = ground arith in rw none_left (done-Ends _)
append_loop-Ends fmt host (suc fuel) off p n din m some_ fits h = elim (Bool-cases (n == 0)) [
  | inl none_left ↦ rw none_left (done-Ends _)
  | inr some_left ↦
      let c = chunk_lem fmt off n some_ fits (ground arith) in
      rw some_left (
        if-Ends _ _ _
          (>>=-Ends _ _ (block_for-Ends fmt host _ din m) λ (x, din1, m1).
            >>=-Ends _ _ (rsect-Ends fmt host x m1) λ buf.
              >>=-Ends _ _ (wsect-Ends fmt host x _ m1) λ m2.
                append_loop-Ends fmt host fuel _ _ (n - chunk fmt off n) din1 m2 some_ fits
                  (omega (arith, c.0, c.1)))
          panic-Ends)
]

-- `iappend` returns or dies: its loop never runs on, for a block size that is not 0 and fits a `uint`.
pub iappend-Ends :
    (fmt : Format) (host : Host) (inum : ℕ) (p : Bytes) (n : ℕ) (m : Image)
    → 0 < fmt.bsize
    → fmt.bsize < 2 ^ 32
    → Ends (iappend fmt host inum p n m)
unfolding iappend
iappend-Ends fmt host inum p n m some_ fits = >>=-Ends _ _ (rinode-Ends fmt host inum m) λ din.
    >>=-Ends _ _ (append_loop-Ends fmt host n _ p n din m some_ fits (omega arith))
      λ (off, din1, m1). winode-Ends fmt host inum _ m1
