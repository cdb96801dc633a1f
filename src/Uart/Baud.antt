-- ===== src/Uart/Baud.antt =====
-- The baud rate that `uart_init` programs.
use barelog.Prelude.{ℕ, ◌+◌, ◌*◌, ◌/◌, ◌≤◌, ◌<◌, ◌≡◌, ◌⊎◌, arith}
use barelog.Uart.{Usart, f_cpu, sanitize_baud, calc_ubrr, uart_init}

-- The rate that the receiver runs at in double-speed mode is `f_cpu / (8 * (ubrr + 1))`.
abbrev pub ubrr : Usart → ℕ
ubrr r = r.ubrr0h * 256 + r.ubrr0l

pub sanitize_baud-cases :
    (baud : ℕ)
    → (sanitize_baud baud ≡ 9600)
      ⊎ (sanitize_baud baud ≡ 19200)
      ⊎ (sanitize_baud baud ≡ 38400)
      ⊎ (sanitize_baud baud ≡ 57600)
      ⊎ (sanitize_baud baud ≡ 115200)
unfolding sanitize_baud
sanitize_baud-cases baud = ground arith

-- Whatever rate is configured, the programmed divisor is the quotient of the clock by eight times
-- the sanitized rate, less one, with no wrap, and the rate that it produces is at least the
-- sanitized one and exceeds it by less than 6 percent.
pub uart_init_rate :
    (baud : ℕ)
    → let d = ubrr (uart_init baud) in
      let b = sanitize_baud baud in
      (d + 1 ≡ 16000000 / (8 * b))
      × (8 * (d + 1) * b ≤ f_cpu)
      × (100 * f_cpu < 106 * (8 * (d + 1) * b))
unfolding uart_init calc_ubrr
uart_init_rate baud = ground (arith, sanitize_baud-cases baud)
