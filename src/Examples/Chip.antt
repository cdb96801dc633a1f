-- ===== src/Examples/Chip.antt =====
-- The ATmega328P's bits, and a transmitter that is busy for one poll after each byte.
use barelog.Prelude.{
  ℕ, ◌<◌, ◌≡◌, refl, Bool, true, false, some, List, [], ◌∷◌, ◌++◌, arith, test_bit, if◌then◌else◌,
}
use barelog.Avr.{
  Bits, Registers, Peripheral, uart_puts_P, spi_init, spi_cs_assert, spi_cs_release, spi_set_fast,
}
use barelog.Avr.Pins.{IsLayout, Shows, selected, divisor, spi-Shows}
use barelog.Avr.Transmit.{IsTransmitter, polled, until_nul, uart_puts_P-sends}
use barelog.Spi.{Bus, Slave}
use barelog.Examples.Logging.{bus}

abbrev pub atmega : Bits
atmega = record {
  u2x0 = 1;
  rxen0 = 4;
  txen0 = 3;
  rxcie0 = 7;
  ucsz00 = 1;
  ucsz01 = 2;
  udre0 = 5;
  rxc0 = 7;
  pb2 = 2;
  pb3 = 3;
  pb4 = 4;
  pb5 = 5;
  spe = 6;
  mstr = 4;
  spr0 = 0;
  spr1 = 1;
  spi2x = 0;
  spif = 7;
  wgm12 = 3;
  cs10 = 0;
  cs12 = 2;
  ocie1a = 1;
  pd5 = 5;
}

atmega-IsLayout : IsLayout atmega
atmega-IsLayout = record {
  cs_in = omega arith;
  mosi_in = omega arith;
  miso_in = omega arith;
  sck_in = omega arith;
  spr0_in = omega arith;
  spr1_in = omega arith;
  spi2x_in = omega arith;
  spe_in = omega arith;
  mstr_in = omega arith;
}

abbrev pub after_reset : Registers
after_reset = record {
  ucsr0a = 0x20;
  ucsr0b = 0;
  ucsr0c = 6;
  ubrr0h = 0;
  ubrr0l = 0;
  ddrb = 0x10;
  portb = 0x44;
  spcr = 0;
  spsr = 1;
  tccr1a = 0;
  tccr1b = 0;
  ocr1a = 0;
  timsk1 = 0;
  tcnt1 = 0;
  timer_pending = 0;
  ddrd = 0;
  pind_writes = [];
}

-- What was sent, and whether the transmitter is busy: then it ignores a byte, until the next poll.
abbrev transmitter : Peripheral
transmitter = record {
  State = List ℕ × Bool;
  status = λ s. (if s.1 then 0 else 0x20, (s.0, false));
  receive = λ s. (0, s);
  put = λ c s. if s.1 then s else (s.0 ++ (c ∷ []), true);
}

abbrev wait_turn : Bool → ℕ
wait_turn true = 1
wait_turn false = 0

wait_turn-lt : (busy : Bool) → wait_turn busy < 2
wait_turn-lt true = omega arith
wait_turn-lt false = omega arith

wait_turn-ready :
    (l : List ℕ) (busy : Bool)
    → test_bit (transmitter.status (polled transmitter (wait_turn busy) (l, busy))).0 5 ≡ true
wait_turn-ready l true = refl
wait_turn-ready l false = refl

abbrev transmitter-IsTransmitter : IsTransmitter transmitter 2 5
transmitter-IsTransmitter = record {
  sent = λ s. s.0;
  sent-put = λ c s h. refl;
  sent-status = λ s. refl;
  turn = λ s. wait_turn s.1;
  turn-lt = λ s. wait_turn-lt s.1;
  ready = λ s. wait_turn-ready s.0 s.1;
}

abbrev prompt : List ℕ
prompt = 0x3E ∷ 0x20 ∷ 0 ∷ 0x41 ∷ []

uart_puts_P-sends_example :
    (s : List ℕ × Bool) × (uart_puts_P atmega transmitter 2 prompt (0x0A ∷ [], true) ≡ some s)
    × (s.0 ≡ (0x0A ∷ []) ++ until_nul prompt)
uart_puts_P-sends_example =
    uart_puts_P-sends atmega transmitter 2 transmitter-IsTransmitter prompt (0x0A ∷ [], true)

bus-Shows : Shows atmega after_reset bus
bus-Shows = (refl, refl)

spi-Shows_example :
    (selected atmega (spi_init atmega after_reset) ≡ false)
    × (test_bit (spi_init atmega after_reset).spcr 6 ≡ true)
    × (test_bit (spi_init atmega after_reset).spcr 4 ≡ true)
    × (divisor atmega (spi_init atmega after_reset) ≡ 128)
    × (divisor atmega (spi_set_fast atmega after_reset) ≡ 2)
    × Shows atmega (spi_cs_assert atmega after_reset) (barelog.Spi.spi_cs_assert bus).1
    × Shows atmega (spi_cs_release atmega after_reset) (barelog.Spi.spi_cs_release bus).1
    × Shows atmega (spi_set_fast atmega after_reset) (barelog.Spi.spi_set_fast bus).1
    × (test_bit (spi_cs_assert atmega after_reset).portb 6 ≡ test_bit 0x44 6)
    × (test_bit (spi_cs_release atmega after_reset).portb 6 ≡ test_bit 0x44 6)
spi-Shows_example =
    spi-Shows atmega after_reset bus 6 atmega-IsLayout bus-Shows (omega arith)
      (λ e. omega (arith, e))
