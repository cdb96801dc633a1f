-- ===== src/Examples/Serial.antt =====
-- Command mode over a serial port that delivers the bytes of a list, each on the second poll, and
-- is busy for one poll after each byte it sends.
use barelog.Prelude.{
  ℕ, ◌<◌, ◌≡◌, refl, ap, length, Bool, true, false, List, [], ◌∷◌, ◌++◌, arith, test_bit,
  if◌then◌else◌,
}
use barelog.Avr.{Peripheral}
use barelog.Avr.Transmit.{polled}
use barelog.Bench.{bench}
use barelog.Examples.{machine}
use barelog.Examples.Chip.{atmega}
use barelog.Repl.Polled.{Console, repl_enter, enter_discarding}
use barelog.Repl.Polled.Enter.{repl_enter_refines}
use barelog.Repl.Polled.Primitives.{IsSerial, session, seen}

-- What was sent, what is to come, whether the transmitter is busy, whether a byte has arrived.
record Wire : Type 0 where
  pub sent : List ℕ
  pub coming : List ℕ
  pub busy : Bool
  pub arrived : Bool

abbrev first_of : List ℕ → ℕ
first_of [] = 0
first_of (c ∷ rest) = c

abbrev rest_of : List ℕ → List ℕ
rest_of [] = []
rest_of (c ∷ rest) = rest

-- The bits of the status register, RXC0 and UDRE0.
abbrev shown : List ℕ → Bool → Bool → ℕ
shown [] true _ = 0
shown [] false _ = 0x20
shown (c ∷ rest) true true = 0x80
shown (c ∷ rest) true false = 0
shown (c ∷ rest) false true = 0xA0
shown (c ∷ rest) false false = 0x20

abbrev wire : Peripheral
wire = record {
  State = Wire;
  status = λ s. (shown s.coming s.busy s.arrived, record s { busy = false; arrived = true });
  receive = λ s. (first_of s.coming, record s { coming = rest_of s.coming; arrived = false });
  put = λ c s. record s { sent = if s.busy then s.sent else s.sent ++ (c ∷ []); busy = true };
}

abbrev one_if : Bool → ℕ
one_if true = 1
one_if false = 0

one_if-lt : (b : Bool) → one_if b < 2
one_if-lt true = omega arith
one_if-lt false = omega arith

abbrev none_if : Bool → ℕ
none_if true = 0
none_if false = 1

none_if-lt : (b : Bool) → none_if b < 2
none_if-lt true = omega arith
none_if-lt false = omega arith

empties :
    (sent coming : List ℕ) (busy arrived : Bool)
    → test_bit
        (wire.status (
          polled wire
            (one_if busy)
            (record { sent = sent; coming = coming; busy = busy; arrived = arrived }))).0
        5
      ≡ true
empties sent [] true arrived = refl
empties sent [] false arrived = refl
empties sent (c ∷ coming) true arrived = refl
empties sent (c ∷ coming) false true = refl
empties sent (c ∷ coming) false false = refl

arrives :
    (sent : List ℕ) (c : ℕ) (coming : List ℕ) (busy arrived : Bool)
    → test_bit
        (wire.status (
          polled wire
            (none_if arrived)
            (record { sent = sent; coming = c ∷ coming; busy = busy; arrived = arrived }))).0
        7
      ≡ true
arrives sent c coming true true = refl
arrives sent c coming false true = refl
arrives sent c coming true false = refl
arrives sent c coming false false = refl

comes_in :
    (sent coming : List ℕ) (busy arrived : Bool) (c : ℕ) (rest : List ℕ)
    → coming ≡ c ∷ rest
    → test_bit
        (wire.status (
          polled wire
            (none_if arrived)
            (record { sent = sent; coming = coming; busy = busy; arrived = arrived }))).0
        7
      ≡ true
comes_in sent [] busy arrived c rest e = absurd (omega (arith, ap length e))
comes_in sent (b ∷ coming) busy arrived c rest e = arrives sent b coming busy arrived

quiet :
    (coming : List ℕ) (busy arrived : Bool)
    → coming ≡ []
    → test_bit (shown coming busy arrived) 7 ≡ false
quiet [] true arrived e = refl
quiet [] false arrived e = refl
quiet (c ∷ coming) busy arrived e = absurd (omega (arith, ap length e))

abbrev wire-IsSerial : IsSerial atmega wire 2
wire-IsSerial = record {
  out = record {
    sent = λ s. s.sent;
    sent-put = λ c s h. refl;
    sent-status = λ s. refl;
    turn = λ s. one_if s.busy;
    turn-lt = λ s. one_if-lt s.busy;
    ready = λ s. empties s.sent s.coming s.busy s.arrived;
  };
  pending = λ s. s.coming;
  pending-put = λ c s. refl;
  pending-status = λ s. refl;
  sent-receive = λ s. refl;
  takes = λ c rest s shows e. (ap first_of e, ap rest_of e);
  turn = λ s. none_if s.arrived;
  turn-lt = λ s. none_if-lt s.arrived;
  comes = λ c rest s e. comes_in s.sent s.coming s.busy s.arrived c rest e;
  idle = λ s e. quiet s.coming s.busy s.arrived e;
}

-- `x`, CR, `reset`, CR.
abbrev console : Console bench wire
console = record {
  machine = machine;
  port = record {
    sent = [];
    coming = 0x78 ∷ 0x0D ∷ 0x72 ∷ 0x65 ∷ 0x73 ∷ 0x65 ∷ 0x74 ∷ 0x0D ∷ [];
    busy = true;
    arrived = false;
  };
}

repl_enter_refines_example :
    (barelog.Repl.Handlers.repl_enter bench 3 0 false
        (session bench atmega wire 2 wire-IsSerial console)
      ≡ seen bench atmega wire 2 wire-IsSerial (repl_enter bench atmega wire 2 3 20 0 console))
    × (barelog.Repl.Handlers.repl_enter bench 3 0
          (test_bit (wire.status console.port).0 7)
          (session bench atmega wire 2 wire-IsSerial console)
        ≡ seen bench atmega wire 2 wire-IsSerial
            (enter_discarding bench atmega wire 2 3 20 0 console))
repl_enter_refines_example =
    repl_enter_refines bench atmega wire 2 wire-IsSerial 3 20 0 console (omega arith)
