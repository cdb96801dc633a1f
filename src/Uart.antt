-- ===== src/Uart.antt =====
-- uart.h and uart.c: the receive ring that the USART_RX interrupt fills and the main loop drains,
-- and the baud rate register. The same code stands in platform.h and atmega328p.c.
pub mod Contents
pub mod Events
pub mod Baud
use barelog.Prelude.{
  ℕ, suc, ◌+◌, ◌-◌, ◌*◌, ◌/◌, Bool, not, List, sub16, sub32, u16, low_bits, shr, get_or, set, ◌==◌,
  ◌||◌, if◌then◌else◌,
}

-- `ring`, `ring_head`, `ring_tail`, and the pin PD5 of the STAT LED.
pub record Uart : Type 0 where
  pub ring : List ℕ
  pub ring_head : ℕ
  pub ring_tail : ℕ
  pub led : Bool

-- RING_SIZE and RING_MASK
abbrev pub ring_size : ℕ
ring_size = 1024

-- `& RING_MASK`
abbrev pub ring_wrap : ℕ → ℕ
ring_wrap i = low_bits i 10

abbrev pub available : Uart → ℕ
available u = ring_wrap (sub16 u.ring_head u.ring_tail)

-- The result is the byte and the ring after it.
unfoldable pub uart_read : Uart → ℕ × Uart
uart_read u =
    (get_or u.ring u.ring_tail 0, record u { ring_tail = ring_wrap (u16 (u.ring_tail + 1)) })

unfoldable pub uart_consume : ℕ → Uart → Uart
uart_consume n u = record u { ring_tail = ring_wrap (u16 (u.ring_tail + n)) }

-- `ring[ring_head] = byte; ring_head = next` unless the ring is full; the LED toggles either way.
unfoldable pub rx_isr : ℕ → Uart → Uart
rx_isr byte u =
    let next = ring_wrap (u16 (u.ring_head + 1)) in
    if next == u.ring_tail
    then record u { led = not u.led }
    else record u { ring = set u.ring u.ring_head byte; ring_head = next; led = not u.led }

abbrev pub default_baud : ℕ
default_baud = 115200

unfoldable pub sanitize_baud : ℕ → ℕ
sanitize_baud baud =
    if baud == 9600 || baud == 19200 || baud == 38400 || baud == 57600 || baud == 115200
    then baud
    else default_baud

-- F_CPU
abbrev pub f_cpu : ℕ
f_cpu = 16000000

unfoldable pub calc_ubrr : ℕ → ℕ
calc_ubrr baud = u16 (sub32 (f_cpu / (8 * baud)) 1)

-- The USART registers that `uart_init` writes.
pub record Usart : Type 0 where
  pub ucsr0a : ℕ
  pub ubrr0h : ℕ
  pub ubrr0l : ℕ
  pub ucsr0b : ℕ
  pub ucsr0c : ℕ

-- U2X0 is bit 1, RXEN0 4, TXEN0 3, RXCIE0 7, UCSZ01 2, UCSZ00 1.
unfoldable pub uart_init : ℕ → Usart
unfolding sanitize_baud calc_ubrr
uart_init baud =
    let ubrr = calc_ubrr (sanitize_baud baud) in
    record {
      ucsr0a = 2;
      ubrr0h = low_bits (shr ubrr 8) 8;
      ubrr0l = low_bits ubrr 8;
      ucsr0b = 16 + 8 + 128;
      ucsr0c = 4 + 2;
    }
