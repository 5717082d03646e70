-- ===== src/Uart/Input.antt =====
-- `uart_input` on an empty queue: what goes out.
use raynix.Base.{
  ℕ, ◌+◌, ◌-◌, ◌%◌, ◌^◌, ◌<◌, ◌≡◌, refl, ap, ◌≢◌, arith, false, length, ◌==◌, get_or, set,
  get_or-set_ne, get_or-set_self,
}
use raynix.Outcome.{done}
use raynix.Spinlock.{release, push_inter_off}
use raynix.Spinlock.Lock.{acquire-free}
use raynix.Uart.{Device, Uart, thr, lsr, uart_input, enqueue, unlock_uart}
use raynix.Uart.Send.{transmit, uart_send-transmits}

module _ {ℓ} {S : Type ℓ} (dev : Device S) where
  abbrev locked : ℕ → Uart S → Uart S
  locked id u = record u { uart_tx_lock = 0; hart = push_inter_off id u.hart }

  -- the state that a call leaves, when the queue was empty
  abbrev lagged : ℕ → ℕ → Uart S → Uart S
  lagged id ch u =
      let v = enqueue dev ch (locked id u) in
      unlock_uart dev id (record v {
        r_tbuffer_cursor = v.w_tbuffer_cursor;
        chip = transmit dev 1 v.t_buffer v.r_tbuffer_cursor v.chip;
      })

  input-runs :
      (id ch : ℕ) (u : Uart S)
      → u.uart_tx_lock ≢ 0
      → u.w_tbuffer_cursor < 2 ^ 64
      → u.r_tbuffer_cursor ≡ u.w_tbuffer_cursor
      → uart_input dev id ch u ≡ done (lagged id ch u)
  unfolding uart_input
  input-runs id ch u free hw empty =
      let room : (u.w_tbuffer_cursor == (u.r_tbuffer_cursor + 32) % 2 ^ 64) ≡ false =
        ground arith in
      let one : (((u.w_tbuffer_cursor + 1) % 2 ^ 64) + 2 ^ 64 - u.r_tbuffer_cursor) % 2 ^ 64 ≡ 1 =
        omega arith in
      rw (
        acquire-free id u.uart_tx_lock u.hart free,
        room,
        uart_send-transmits dev (enqueue dev ch (locked id u)) (omega arith) (omega arith),
        one,
      )

  -- With the lock free, a buffer of 32 and nothing to send, `uart_input` returns and the chip is
  -- given one character: not the one of the call but what lay in the slot before. The character
  -- of the call is left in the slot that the next call sends.
  pub uart_input-lags :
      (id ch : ℕ) (u : Uart S)
      → length u.t_buffer ≡ 32
      → u.uart_tx_lock ≢ 0
      → u.w_tbuffer_cursor < 2 ^ 64
      → u.r_tbuffer_cursor ≡ u.w_tbuffer_cursor
      → (u' : Uart S) × (uart_input dev id ch u ≡ done u')
        × (u'.chip
            ≡ dev.write thr
                (get_or u.t_buffer (u.r_tbuffer_cursor % 32) 0 % 2 ^ 8)
                (dev.read lsr u.chip).1)
        × (u'.r_tbuffer_cursor ≡ u'.w_tbuffer_cursor)
        × (get_or u'.t_buffer (u'.r_tbuffer_cursor % 32) 0 ≡ ch % 2 ^ 8)
        × (u'.uart_tx_lock ≢ 0)
  unfolding transmit release
  uart_input-lags id ch u size free hw empty =
      let slot = (u.w_tbuffer_cursor + 1) % 2 ^ 64 % 32 in
      let kept : get_or (set u.t_buffer slot (ch % 2 ^ 8)) (u.r_tbuffer_cursor % 32) 0
          ≡ get_or u.t_buffer (u.r_tbuffer_cursor % 32) 0 =
        get_or-set_ne u.t_buffer slot (u.r_tbuffer_cursor % 32) (ch % 2 ^ 8) 0 (λ e. omega arith) in
      (
        lagged id ch u,
        input-runs id ch u free hw empty,
        ap (λ x. dev.write thr (x % 2 ^ 8) (dev.read lsr u.chip).1) kept,
        refl,
        get_or-set_self u.t_buffer slot (ch % 2 ^ 8) 0 (omega arith),
        (λ e. omega arith),
      )
