-- ===== src/Uart.antt =====
-- kernel/uart.c: the transmit queue and the interrupt of the UART. The chip is not code of the
-- repository: it stands here as `Device`, whose registers a read or a write may change.
pub mod Send
pub mod Input
pub mod Inter
use raynix.Base.{
  ℕ, zero, suc, ◌+◌, ◌-◌, ◌*◌, ◌%◌, ◌^◌, Option, none, some, List, bit_and, bit_or, ◌==◌,
  if◌then◌else◌, get_or, set, not,
}
use raynix.Outcome.{Run, done, panic, forever, ◌>>=◌}
use raynix.Spinlock.{Hart, SpinLock, spinlock_init, c_bool, acquire, release}

-- The chip: what a read of a register yields and what state it leaves, and what a write leaves.
pub record Device {ℓ} (S : Type ℓ) : Type ℓ where
  pub read : ℕ → S → ℕ × S
  pub write : ℕ → ℕ → S → S

abbrev pub rhr : ℕ
rhr = 0

abbrev pub thr : ℕ
thr = 0

abbrev pub ier : ℕ
ier = 1

abbrev pub ier_rx_enable : ℕ
ier_rx_enable = 1

abbrev pub ier_tx_enable : ℕ
ier_tx_enable = 2

abbrev pub fcr : ℕ
fcr = 2

abbrev pub fcr_fifo_enable : ℕ
fcr_fifo_enable = 1

abbrev pub fcr_fifo_clear : ℕ
fcr_fifo_clear = 6

abbrev pub lcr : ℕ
lcr = 3

abbrev pub lcr_eight_bits : ℕ
lcr_eight_bits = 3

abbrev pub lsr : ℕ
lsr = 5

-- the static variables of the driver, the chip, and the hart that runs
pub record Uart {ℓ} (S : Type ℓ) : Type ℓ where
  pub t_buffer : List ℕ
  pub w_tbuffer_cursor : ℕ
  pub r_tbuffer_cursor : ℕ
  pub uart_tx_lock : SpinLock
  pub chip : S
  pub hart : Hart

module _ {ℓ} {S : Type ℓ} (dev : Device S) where
  abbrev pub write_uart_register : ℕ → ℕ → Uart S → Uart S
  write_uart_register offset x u = record u { chip = dev.write offset (x % 2 ^ 8) u.chip }

  abbrev pub read_uart_register : ℕ → Uart S → ℕ × Uart S
  read_uart_register offset u =
      let (x, chip) = dev.read offset u.chip in (x % 2 ^ 8, record u { chip = chip })

  unfoldable pub uart_init : Uart S → Uart S
  uart_init u0 =
      let u1 = write_uart_register ier 0x00 u0 in
      let u2 = write_uart_register lcr (2 ^ 7) u1 in
      let u3 = write_uart_register 0 0x03 u2 in
      let u4 = write_uart_register 1 0x00 u3 in
      let u5 = write_uart_register lcr lcr_eight_bits u4 in
      let u6 = write_uart_register fcr (bit_or fcr_fifo_enable fcr_fifo_clear) u5 in
      let u7 = write_uart_register ier (bit_or ier_tx_enable ier_rx_enable) u6 in
      record u7 { uart_tx_lock = spinlock_init u7.uart_tx_lock }

  -- the branch in which a character goes out
  abbrev pub send_next : Uart S → Uart S
  send_next u =
      let on_sending = get_or u.t_buffer (u.r_tbuffer_cursor % 32) 0 in
      write_uart_register thr on_sending
        (record u { r_tbuffer_cursor = (u.r_tbuffer_cursor + 1) % 2 ^ 64 })

  -- `for(;;)` of `uart_send`, on fuel. In C `==` binds tighter than `&`, so the status is masked
  -- with the comparison of the constant with 0.
  unfoldable pub send_loop : ℕ → Uart S → Run (Uart S)
  send_loop zero u = forever
  send_loop (suc fuel) u =
      if u.w_tbuffer_cursor == u.r_tbuffer_cursor
      then done u
      else let (status, u1) = read_uart_register lsr u in
        if not (bit_and status (c_bool (2 ^ 5 == 0)) == 0)
        then done u1
        else send_loop fuel (send_next u1)

  -- The read cursor meets the write cursor in fewer than 2 ^ 64 rounds.
  abbrev pub uart_send : Uart S → Run (Uart S)
  uart_send u = send_loop ((u.w_tbuffer_cursor + 2 ^ 64 - u.r_tbuffer_cursor) % 2 ^ 64 + 1) u

  -- what `acquire` leaves, or a call that does not return
  abbrev pub with_lock : Uart S → Option (SpinLock × Hart) → Run (Uart S)
  with_lock u none = forever
  with_lock u (some (lock, hart)) = done (record u { uart_tx_lock = lock; hart = hart })

  abbrev pub lock_uart : ℕ → Uart S → Run (Uart S)
  lock_uart id u = with_lock u (acquire id (u.uart_tx_lock, u.hart))

  abbrev pub unlock_uart : ℕ → Uart S → Uart S
  unlock_uart id u =
      let (lock, hart) = release id (u.uart_tx_lock, u.hart) in
      record u { uart_tx_lock = lock; hart = hart }

  -- the character into the queue
  abbrev pub enqueue : ℕ → Uart S → Uart S
  enqueue ch u =
      let w = (u.w_tbuffer_cursor + 1) % 2 ^ 64 in
      record u { w_tbuffer_cursor = w; t_buffer = set u.t_buffer (w % 32) (ch % 2 ^ 8) }

  -- With nothing else running, the loop that waits for room does not end once it is entered.
  unfoldable pub uart_input : ℕ → ℕ → Uart S → Run (Uart S)
  uart_input id ch u = do
    u1 ← lock_uart id u
    if u1.w_tbuffer_cursor == (u1.r_tbuffer_cursor + 32) % 2 ^ 64
        then forever
        else do u2 ← uart_send (enqueue ch u1); done (unlock_uart id u2)

  -- `while(flag)` of `uart_inter`, on fuel; `handler` is `consloe_input_handler`, of which
  -- kernel/console.c has only a beginning. The else branch compares `flag` with 0 and drops the result.
  unfoldable pub inter_loop : (ℕ → Uart S → Run (Uart S)) → ℕ → ℕ → Uart S → Run (Uart S)
  inter_loop handler zero flag u = forever
  inter_loop handler (suc fuel) flag u =
      if flag == 0
      then done u
      else let (status, u1) = read_uart_register lsr u in
        if not (bit_and status 0x01 == 0)
        then (let (res, u2) = read_uart_register rhr u1 in
            do u3 ← handler res u2; inter_loop handler fuel flag u3)
        else inter_loop handler fuel flag u1

  unfoldable pub uart_inter : (ℕ → Uart S → Run (Uart S)) → ℕ → ℕ → Uart S → Run (Uart S)
  uart_inter handler fuel id u = do
    u1 ← inter_loop handler fuel 1 u
    u2 ← lock_uart id u1
    u3 ← uart_send u2
    done (unlock_uart id u3)
