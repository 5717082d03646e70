-- ===== src/Uart/Send.antt =====
-- `uart_send`: it ends, and empties the queue.
use raynix.Base.{
  ℕ, zero, suc, ◌+◌, ◌-◌, ◌%◌, ◌^◌, ◌<◌, ◌≡◌, refl, sym, ap, ◌∙◌, arith, true, false, List, bit_and,
  ◌==◌, get_or,
}
use raynix.Base.Bits.{bit_and-zero}
use raynix.Outcome.{done}
use raynix.Uart.{Device, Uart, thr, lsr, send_next, read_uart_register, send_loop, uart_send}

module _ {ℓ} {S : Type ℓ} (dev : Device S) where
  -- The chip after `n` characters from position `r` of the queue on: before each character its
  -- status is read.
  unfoldable pub transmit : ℕ → List ℕ → ℕ → S → S
  transmit zero buf r s = s
  transmit (suc n) buf r s =
      transmit n buf (r + 1) (dev.write thr (get_or buf (r % 32) 0 % 2 ^ 8) (dev.read lsr s).1)

  -- Positions count up to multiples of 32.
  pub transmit-cong :
      (n : ℕ) (buf : List ℕ) (r r' : ℕ) (s : S)
      → r % 32 ≡ r' % 32
      → transmit n buf r s ≡ transmit n buf r' s
  unfolding transmit
  transmit-cong zero buf r r' s e = refl
  transmit-cong (suc n) buf r r' s e = rw e (
      transmit-cong n buf (r + 1) (r' + 1)
        (dev.write thr (get_or buf (r' % 32) 0 % 2 ^ 8) (dev.read lsr s).1) (omega arith))

  never_full : (status : ℕ) → (bit_and status 0 == 0) ≡ true
  never_full status = rw (bit_and-zero status status (omega arith))

  -- one round with something to send
  send-round :
      (fuel : ℕ) (u : Uart S)
      → (u.w_tbuffer_cursor == u.r_tbuffer_cursor) ≡ false
      → send_loop dev (suc fuel) u
        ≡ send_loop dev fuel (send_next dev (read_uart_register dev lsr u).1)
  unfolding send_loop
  send-round fuel u differ = rw (differ, never_full ((dev.read lsr u.chip).0 % 2 ^ 8))

  send-end :
      (fuel : ℕ) (u : Uart S)
      → (u.w_tbuffer_cursor == u.r_tbuffer_cursor) ≡ true
      → send_loop dev (suc fuel) u ≡ done u
  unfolding send_loop
  send-end fuel u same = rw same

  send_loop-transmits :
      (n fuel : ℕ) (u : Uart S)
      → n < fuel
      → u.w_tbuffer_cursor < 2 ^ 64
      → u.r_tbuffer_cursor < 2 ^ 64
      → (u.w_tbuffer_cursor + 2 ^ 64 - u.r_tbuffer_cursor) % 2 ^ 64 ≡ n
      → send_loop dev fuel u
        ≡ done (record u {
          r_tbuffer_cursor = u.w_tbuffer_cursor;
          chip = transmit n u.t_buffer u.r_tbuffer_cursor u.chip;
        })
  unfolding transmit
  send_loop-transmits n zero u lt hw hr p = absurd (omega arith)
  send_loop-transmits zero (suc fuel) u lt hw hr p =
      let same : u.w_tbuffer_cursor ≡ u.r_tbuffer_cursor = omega arith in
      send-end fuel u (ground arith) ∙ ap (λ r. done (record u { r_tbuffer_cursor = r })) (sym same)
  send_loop-transmits (suc n) (suc fuel) u lt hw hr p =
      send-round fuel u (ground arith)
      ∙ send_loop-transmits n fuel (send_next dev (read_uart_register dev lsr u).1) (omega arith) hw
          (omega arith) (omega arith)
      ∙ ap (λ s. done (record u { r_tbuffer_cursor = u.w_tbuffer_cursor; chip = s }))
          (transmit-cong n u.t_buffer ((u.r_tbuffer_cursor + 1) % 2 ^ 64) (u.r_tbuffer_cursor + 1) _
            (omega arith))

  -- With cursors of 64 bits, `uart_send` returns, whatever the status register says: all the
  -- characters between the cursors have gone to the chip, each after one read of the status, and
  -- the cursors meet.
  pub uart_send-transmits :
      (u : Uart S)
      → u.w_tbuffer_cursor < 2 ^ 64
      → u.r_tbuffer_cursor < 2 ^ 64
      → uart_send dev u
        ≡ done (record u {
          r_tbuffer_cursor = u.w_tbuffer_cursor;
          chip =
              transmit
                ((u.w_tbuffer_cursor + 2 ^ 64 - u.r_tbuffer_cursor) % 2 ^ 64)
                u.t_buffer
                u.r_tbuffer_cursor
                u.chip;
        })
  uart_send-transmits u hw hr = send_loop-transmits _ _ u (omega arith) hw hr refl
