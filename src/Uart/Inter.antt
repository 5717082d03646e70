-- ===== src/Uart/Inter.antt =====
-- `uart_inter`: its loop has no end.
use raynix.Base.{ℕ, zero, suc, ◌≡◌, refl, ap, ◌≢◌, if◌then◌else◌, Bool, true, false, arith}
use raynix.Outcome.{Run, done, panic, forever, ◌>>=◌}
use raynix.Uart.{Device, Uart, inter_loop, uart_inter}

ended {ℓ} : {A : Type ℓ} → Run A → Bool
ended (done a) = true
ended panic = false
ended forever = false

ended-bind {ℓ} :
    {A B : Type ℓ} (m : Run A) (f : A → Run B)
    → ((a : A) → ended (f a) ≡ false)
    → ended (m >>= f) ≡ false
unfolding ended
ended-bind (done a) f h = h a
ended-bind panic f h = refl
ended-bind forever f h = refl

bind-ended {ℓ} :
    {A B : Type ℓ} (m : Run A) (f : A → Run B) → ended m ≡ false → ended (m >>= f) ≡ false
unfolding ended
bind-ended (done a) f h = absurd (ground arith)
bind-ended panic f h = refl
bind-ended forever f h = refl

ended-if {ℓ} :
    {A : Type ℓ} (b : Bool) (m n : Run A)
    → ended m ≡ false
    → ended n ≡ false
    → ended (if b then m else n) ≡ false
ended-if true m n hm hn = hm
ended-if false m n hm hn = hn

module _ {ℓ} {S : Type ℓ} (dev : Device S) (handler : ℕ → Uart S → Run (Uart S)) where
  inter_loop-ended : (fuel : ℕ) (u : Uart S) → ended (inter_loop dev handler fuel 1 u) ≡ false
  unfolding inter_loop ended
  inter_loop-ended zero u = refl
  inter_loop-ended (suc fuel) u =
      ended-if _ _ _
        (ended-bind (handler _ _) (inter_loop dev handler fuel 1) (λ a. inter_loop-ended fuel a))
        (inter_loop-ended fuel _)

  -- `uart_inter` never returns, however many rounds it has, with whatever chip and handler of
  -- the console.
  pub uart_inter-never : (fuel id : ℕ) (u u' : Uart S) → uart_inter dev handler fuel id u ≢ done u'
  unfolding uart_inter ended
  uart_inter-never fuel id u u' e =
      let never : ended (uart_inter dev handler fuel id u) ≡ false =
        bind-ended (inter_loop dev handler fuel 1 u) _ (inter_loop-ended fuel u) in
      let ends : ended (uart_inter dev handler fuel id u) ≡ true = ap ended e in
      ground (arith, never, ends)
