-- ===== src/Tests/Serial.antt =====
-- kernel/uart.c on a chip that keeps what is written to it and always reads 0.
use raynix.Base.{ℕ, ◌-◌, ◌^◌, ◌≡◌, arith, List, [], ◌∷◌, set, replicate}
use raynix.Outcome.{done}
use raynix.Uart.{Device, Uart, uart_send}
use raynix.Uart.Send.{uart_send-transmits, transmit}
use raynix.Tests.{hart}

abbrev Written : Type 0
Written = List (ℕ × ℕ)

abbrev keeper : Device Written
keeper = record { read = λ offset s. (0, s); write = λ offset x s. (offset, x) ∷ s }

abbrev idle : Uart Written
idle = record {
  t_buffer = replicate 32 7;
  w_tbuffer_cursor = 3;
  r_tbuffer_cursor = 3;
  uart_tx_lock = 1;
  chip = [];
  hart = hart;
}

-- Three characters to send, past the end of the buffer and of the counter.
abbrev filled : Uart Written
filled = record idle {
  t_buffer = set (set (set (replicate 32 7) 30 65) 31 66) 0 67;
  w_tbuffer_cursor = 1;
  r_tbuffer_cursor = 2 ^ 64 - 2;
}

uart_send-transmits_example :
    uart_send keeper filled
    ≡ done (record filled { r_tbuffer_cursor = 1; chip = (0, 67) ∷ (0, 66) ∷ (0, 65) ∷ [] })
unfolding transmit
uart_send-transmits_example = uart_send-transmits keeper filled (omega arith) (omega arith)
