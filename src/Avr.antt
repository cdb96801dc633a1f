-- ===== src/Avr.antt =====
-- platform_atmega328p.c, of which atmega328p.c is a copy, and the pins of platform.h: the registers
-- of the ATmega328P. The receive ring of the same file is Uart's.
pub mod Pins
pub mod Transmit
use barelog.Prelude.{
  ℕ, zero, suc, ◌-◌, ◌^◌, Bool, true, false, Option, none, some, List, [], ◌∷◌, ◌++◌, test_bit, u8,
  shr, low_bits, bit_or, bit_and, ◌==◌,
}
use barelog.Uart.{sanitize_baud, calc_ubrr}

-- The positions of the bits that <avr/io.h> names.
pub record Bits : Type 0 where
  pub u2x0 : ℕ
  pub rxen0 : ℕ
  pub txen0 : ℕ
  pub rxcie0 : ℕ
  pub ucsz00 : ℕ
  pub ucsz01 : ℕ
  pub udre0 : ℕ
  pub rxc0 : ℕ
  pub pb2 : ℕ
  pub pb3 : ℕ
  pub pb4 : ℕ
  pub pb5 : ℕ
  pub spe : ℕ
  pub mstr : ℕ
  pub spr0 : ℕ
  pub spr1 : ℕ
  pub spi2x : ℕ
  pub spif : ℕ
  pub wgm12 : ℕ
  pub cs10 : ℕ
  pub cs12 : ℕ
  pub ocie1a : ℕ
  pub pd5 : ℕ

-- The registers that the code sets, `timer_pending`, and what it has written to PIND so far, where
-- a one toggles a pin.
pub record Registers : Type 0 where
  pub ucsr0a : ℕ
  pub ucsr0b : ℕ
  pub ucsr0c : ℕ
  pub ubrr0h : ℕ
  pub ubrr0l : ℕ
  pub ddrb : ℕ
  pub portb : ℕ
  pub spcr : ℕ
  pub spsr : ℕ
  pub tccr1a : ℕ
  pub tccr1b : ℕ
  pub ocr1a : ℕ
  pub timsk1 : ℕ
  pub tcnt1 : ℕ
  pub timer_pending : ℕ
  pub ddrd : ℕ
  pub pind_writes : List ℕ

-- `1 << k`, and `r & ~mask` on a register of eight bits.
abbrev pub bit : ℕ → ℕ
bit k = 2 ^ k

abbrev pub cleared : ℕ → ℕ → ℕ
cleared r mask = bit_and r (255 - mask)

-- A serial peripheral: reading its status register, reading and writing its data register.
pub record Peripheral : Type 1 where
  pub State : Type 0
  pub status : State → ℕ × State
  pub receive : State → ℕ × State
  pub put : ℕ → State → State

module _ (io : Bits) where
  open io use {
    u2x0, rxen0, txen0, rxcie0, ucsz00, ucsz01, udre0, rxc0, spe, mstr, spr0, spr1, spi2x, spif,
    wgm12, cs10, cs12, ocie1a, pd5,
  }

  -- SPI_CS, SPI_MOSI, SPI_MISO, SPI_SCK
  abbrev pub spi_cs : ℕ
  spi_cs = io.pb2

  abbrev pub spi_mosi : ℕ
  spi_mosi = io.pb3

  abbrev pub spi_miso : ℕ
  spi_miso = io.pb4

  abbrev pub spi_sck : ℕ
  spi_sck = io.pb5

  unfoldable pub uart_init : ℕ → Registers → Registers
  uart_init baud r =
      let ubrr = calc_ubrr (sanitize_baud baud) in
      record r {
        ucsr0a = bit u2x0;
        ubrr0h = u8 (shr ubrr 8);
        ubrr0l = low_bits ubrr 8;
        ucsr0b = bit_or (bit_or (bit rxen0) (bit txen0)) (bit rxcie0);
        ucsr0c = bit_or (bit ucsz01) (bit ucsz00);
      }

  unfoldable pub spi_init : Registers → Registers
  spi_init r = record r {
    ddrb =
        cleared (bit_or r.ddrb (bit_or (bit_or (bit spi_cs) (bit spi_mosi)) (bit spi_sck)))
          (bit spi_miso);
    portb = bit_or r.portb (bit_or (bit spi_cs) (bit spi_mosi));
    spcr = bit_or (bit_or (bit_or (bit spe) (bit mstr)) (bit spr1)) (bit spr0);
    spsr = cleared r.spsr (bit spi2x);
  }

  unfoldable pub spi_set_fast : Registers → Registers
  spi_set_fast r = record r {
    spcr = cleared r.spcr (bit_or (bit spr1) (bit spr0));
    spsr = bit_or r.spsr (bit spi2x);
  }

  unfoldable pub spi_cs_assert : Registers → Registers
  spi_cs_assert r = record r { portb = cleared r.portb (bit spi_cs) }

  unfoldable pub spi_cs_release : Registers → Registers
  spi_cs_release r = record r { portb = bit_or r.portb (bit spi_cs) }

  unfoldable pub timer_init : Registers → Registers
  timer_init r = record r {
    tccr1a = 0;
    tccr1b = bit_or (bit_or (bit wgm12) (bit cs12)) (bit cs10);
    ocr1a = 7812;
    timsk1 = bit ocie1a;
    tcnt1 = 0;
    timer_pending = 0;
  }

  -- `ISR(TIMER1_COMPA_vect)`
  abbrev pub timer_isr : Registers → Registers
  timer_isr r = record r { timer_pending = 1 }

  abbrev pub timer_flush_pending : Registers → ℕ
  timer_flush_pending r = r.timer_pending

  abbrev pub timer_clear_pending : Registers → Registers
  timer_clear_pending r = record r { timer_pending = 0 }

  abbrev pub timer_restart : Registers → Registers
  timer_restart r = record r { tcnt1 = 0 }

  abbrev pub gpio_led_init : Registers → Registers
  gpio_led_init r = record r { ddrd = bit_or r.ddrd (bit pd5) }

  abbrev pub gpio_led_toggle : Registers → Registers
  gpio_led_toggle r = record r { pind_writes = r.pind_writes ++ (bit pd5 ∷ []) }

  module _ (p : Peripheral) where
    open p use {State, status, receive, put}

    -- `while (!(STATUS & (1 << k)));` with fuel for the polls; none when it is used up.
    unfoldable pub await : ℕ → ℕ → State → Option State
    await zero k s = none
    await (suc fuel) k s = elim (test_bit (status s).0 k) [
      | true ↦ some (status s).1
      | false ↦ await fuel k (status s).1
    ]

    unfoldable pub uart_putc : ℕ → ℕ → State → Option State
    uart_putc fuel c s = elim (await fuel udre0 s) [ none ↦ none | some s1 ↦ some (put c s1) ]

    -- The bytes of the string, up to the NUL.
    unfoldable pub uart_puts_P : ℕ → List ℕ → State → Option State
    uart_puts_P fuel [] s = some s
    uart_puts_P fuel (c ∷ text) s = elim (c == 0) [
      | true ↦ some s
      | false ↦ elim (uart_putc fuel c s) [ none ↦ none | some s1 ↦ uart_puts_P fuel text s1 ]
    ]

    unfoldable pub uart_getc_poll : ℕ → State → Option (ℕ × State)
    uart_getc_poll fuel s = elim (await fuel rxc0 s) [ none ↦ none | some s1 ↦ some (receive s1) ]

    unfoldable pub spi_transfer : ℕ → ℕ → State → Option (ℕ × State)
    spi_transfer fuel byte s = elim (await fuel spif (put byte s)) [
      | none ↦ none
      | some s1 ↦ some (receive s1)
    ]
