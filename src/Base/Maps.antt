-- ===== src/Base/Maps.antt =====
-- A function on ℕ with one value assigned: arrays of the kernel, and maps keyed by an address.
use Prim.Native.Nat.{ℕ}
use mathlib.Core.Path.{◌≡◌}
use mathlib.Core.Logic.{◌≢◌}
use native.Mathlib.Omega.{arith}
use raynix.Base.Tests.{◌==◌, if◌then◌else◌}

module _ {ℓ} {A : Type ℓ} where
  abbrev pub put : (ℕ → A) → ℕ → A → ℕ → A
  put f i v j = if j == i then v else f j

  pub put_self : (f : ℕ → A) (i : ℕ) (v : A) → put f i v i ≡ v
  put_self f i v = ground arith

  pub put_ne : (f : ℕ → A) (i j : ℕ) (v : A) → j ≢ i → put f i v j ≡ f j
  put_ne f i j v ne = ground arith
