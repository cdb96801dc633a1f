-- ===== src/Avr/Pins.antt =====
-- The SPI pins and clock, and the bus of `Spi` that they implement.
use barelog.Prelude.{
  ℕ, ◌-◌, ◌^◌, ◌/◌, ◌<◌, if◌then◌else◌, ◌≡◌, ◌≢◌, refl, sym, ap, ap₂, ◌∙◌, Bool, true, false, not,
  ◌&&◌, ◌||◌, ◌==◌, ==_refl, ne→==, test_bit, bit_or, test_bit-bit_or, test_bit-bit_and,
  test_bit-pow, test_bit-complement, pow-lt, bit_or_pow-lt,
}
use barelog.Avr.{
  Bits, Registers, cleared, spi_cs, spi_mosi, spi_miso, spi_sck, spi_init, spi_set_fast,
  spi_cs_assert, spi_cs_release,
}
use barelog.Spi.{Slave, Bus}

-- The named bits are positions in a byte.
pub record IsLayout (io : Bits) : Type 0 where
  pub cs_in : spi_cs io < 8
  pub mosi_in : spi_mosi io < 8
  pub miso_in : spi_miso io < 8
  pub sck_in : spi_sck io < 8
  pub spr0_in : io.spr0 < 8
  pub spr1_in : io.spr1 < 8
  pub spi2x_in : io.spi2x < 8
  pub spe_in : io.spe < 8
  pub mstr_in : io.mstr < 8

test-cleared :
    (r mask k : ℕ)
    → mask < 256
    → k < 8
    → test_bit (cleared r mask) k ≡ (test_bit r k && not (test_bit mask k))
test-cleared r mask k hm hk =
    test_bit-bit_and r (255 - mask) k hk
    ∙ ap (λ b. test_bit r k && b) (test_bit-complement mask k hm hk)

test-clear_bit :
    (r a k : ℕ) → a < 8 → k < 8 → test_bit (cleared r (2 ^ a)) k ≡ (test_bit r k && not (k == a))
test-clear_bit r a k ha hk =
    test-cleared r (2 ^ a) k (pow-lt a ha) hk
    ∙ ap (λ b. test_bit r k && not b) (test_bit-pow a k ha hk)

test-set_bit :
    (r a k : ℕ) → a < 8 → k < 8 → test_bit (bit_or r (2 ^ a)) k ≡ (test_bit r k || k == a)
test-set_bit r a k ha hk =
    test_bit-bit_or r (2 ^ a) k hk ∙ ap (λ b. test_bit r k || b) (test_bit-pow a k ha hk)

test-two_bits :
    (a b k : ℕ) → a < 8 → b < 8 → k < 8 → test_bit (bit_or (2 ^ a) (2 ^ b)) k ≡ (k == a || k == b)
test-two_bits a b k ha hb hk =
    test-set_bit (2 ^ a) b k hb hk ∙ ap (λ x. x || k == b) (test_bit-pow a k ha hk)

or_true : (x : Bool) → (x || true) ≡ true
or_true true = refl
or_true false = refl

and_false : (x : Bool) → (x && false) ≡ false
and_false true = refl
and_false false = refl

or_false : (x : Bool) → (x || false) ≡ x
or_false true = refl
or_false false = refl

and_true : (x : Bool) → (x && true) ≡ x
and_true true = refl
and_true false = refl

set_bit-set : (r a : ℕ) → a < 8 → test_bit (bit_or r (2 ^ a)) a ≡ true
set_bit-set r a h =
    test-set_bit r a a h h ∙ ap (λ b. test_bit r a || b) (==_refl a) ∙ or_true (test_bit r a)

set_bit-keeps :
    (r a k : ℕ) → a < 8 → k < 8 → test_bit r k ≡ true → test_bit (bit_or r (2 ^ a)) k ≡ true
set_bit-keeps r a k ha hk h = test-set_bit r a k ha hk ∙ ap (λ b. b || k == a) h

clear_bit-clear : (r a : ℕ) → a < 8 → test_bit (cleared r (2 ^ a)) a ≡ false
clear_bit-clear r a h =
    test-clear_bit r a a h h
    ∙ ap (λ b. test_bit r a && not b) (==_refl a)
    ∙ and_false (test_bit r a)

-- The first or the second bit of a mask of two is cleared.
clear_two_bits :
    (r a b k : ℕ)
    → a < 8
    → b < 8
    → k < 8
    → (k == a || k == b) ≡ true
    → test_bit (cleared r (bit_or (2 ^ a) (2 ^ b))) k ≡ false
clear_two_bits r a b k ha hb hk h =
    test-cleared r (bit_or (2 ^ a) (2 ^ b)) k (bit_or_pow-lt a b ha hb) hk
    ∙ ap (λ x. test_bit r k && not x) (test-two_bits a b k ha hb hk ∙ h)
    ∙ and_false (test_bit r k)

module _ (io : Bits) where
  -- Every pin of port B after `spi_init`: SPI_CS, SPI_MOSI and SPI_SCK become outputs, SPI_MISO an
  -- input, SPI_CS and SPI_MOSI are driven high, and all else of the two registers is as it was.
  pub spi_init-pins :
      (r : Registers) (k : ℕ)
      → IsLayout io
      → k < 8
      → (test_bit (spi_init io r).ddrb k ≡ (
          (test_bit r.ddrb k || ((k == spi_cs io || k == spi_mosi io) || k == spi_sck io))
          && not (k == spi_miso io)))
        × (test_bit (spi_init io r).portb k
            ≡ (test_bit r.portb k || (k == spi_cs io || k == spi_mosi io)))
  unfolding spi_init
  spi_init-pins r k l hk =
      let cs : ℕ = spi_cs io in
      let mosi : ℕ = spi_mosi io in
      let outs : ℕ = bit_or (bit_or (2 ^ cs) (2 ^ mosi)) (2 ^ spi_sck io) in
      let two = test-two_bits cs mosi k l.cs_in l.mosi_in hk in
      (
        test-clear_bit (bit_or r.ddrb outs) (spi_miso io) k l.miso_in hk
            ∙ ap (λ b. b && not (k == spi_miso io))
                (test_bit-bit_or r.ddrb outs k hk
                  ∙ ap (λ b. test_bit r.ddrb k || b)
                      (test-set_bit (bit_or (2 ^ cs) (2 ^ mosi)) (spi_sck io) k l.sck_in hk
                        ∙ ap (λ b. b || k == spi_sck io) two)),
        test_bit-bit_or r.portb (bit_or (2 ^ cs) (2 ^ mosi)) k hk
            ∙ ap (λ b. test_bit r.portb k || b) two,
      )

  -- The registers show the chip select line, low while the card is selected, and the clock rate:
  -- half the processor's with SPI2X and neither bit of the divisor.
  abbrev pub selected : Registers → Bool
  selected r = not (test_bit r.portb (spi_cs io))

  abbrev pub fast : Registers → Bool
  fast r =
      test_bit r.spsr io.spi2x && (not (test_bit r.spcr io.spr1) && not (test_bit r.spcr io.spr0))

  abbrev pub Shows : {sl : Slave} → Registers → Bus sl → Type 0
  Shows r b = (b.selected ≡ selected r) × (b.fast ≡ fast r)

  -- What the data sheet divides the processor's clock by, for SPR1, SPR0 and SPI2X.
  abbrev pub divisor : Registers → ℕ
  divisor r =
      let by : ℕ =
        if test_bit r.spcr io.spr1
        then (if test_bit r.spcr io.spr0 then 128 else 64)
        else if test_bit r.spcr io.spr0
        then 16
        else 4 in
      if test_bit r.spsr io.spi2x then by / 2 else by

  -- `SPCR` after `spi_init`.
  record Configured (spcr : ℕ) : Type 0 where
    pub enabled : test_bit spcr io.spe ≡ true
    pub master : test_bit spcr io.mstr ≡ true
    pub high : test_bit spcr io.spr1 ≡ true
    pub low : test_bit spcr io.spr0 ≡ true

  spi_init-Configured : (r : Registers) → IsLayout io → Configured (spi_init io r).spcr
  unfolding spi_init
  spi_init-Configured r l =
      let one : ℕ = 2 ^ io.spe in
      let two : ℕ = bit_or one (2 ^ io.mstr) in
      let three : ℕ = bit_or two (2 ^ io.spr1) in
      let enabled_first : test_bit one io.spe ≡ true =
        test_bit-pow io.spe io.spe l.spe_in l.spe_in ∙ ==_refl io.spe in
      let last = λ (k : ℕ) (hk : k < 8). set_bit-keeps three io.spr0 k l.spr0_in hk in
      let third = λ (k : ℕ) (hk : k < 8). set_bit-keeps two io.spr1 k l.spr1_in hk in
      record {
        enabled = last io.spe l.spe_in (
            third io.spe l.spe_in
              (set_bit-keeps one io.mstr io.spe l.mstr_in l.spe_in enabled_first));
        master =
            last io.mstr l.mstr_in (third io.mstr l.mstr_in (set_bit-set one io.mstr l.mstr_in));
        high = last io.spr1 l.spr1_in (set_bit-set two io.spr1 l.spr1_in);
        low = set_bit-set three io.spr0 l.spr0_in;
      }

  -- For bit positions below 8: after spi_init the bus is released, the SPI is enabled as the
  -- master, and its bits divide the clock by 128, after spi_set_fast by 2; if the registers show a
  -- bus, then after spi_cs_assert, spi_cs_release and spi_set_fast on both they show it again; and
  -- the select operations leave every other pin of port B alone.
  pub spi-Shows :
      {sl : Slave} (r : Registers) (b : Bus sl) (k : ℕ)
      → IsLayout io
      → Shows r b
      → k < 8
      → k ≢ spi_cs io
      → (selected (spi_init io r) ≡ false)
        × (test_bit (spi_init io r).spcr io.spe ≡ true)
        × (test_bit (spi_init io r).spcr io.mstr ≡ true)
        × (divisor (spi_init io r) ≡ 128)
        × (divisor (spi_set_fast io r) ≡ 2)
        × Shows (spi_cs_assert io r) (barelog.Spi.spi_cs_assert b).1
        × Shows (spi_cs_release io r) (barelog.Spi.spi_cs_release b).1
        × Shows (spi_set_fast io r) (barelog.Spi.spi_set_fast b).1
        × (test_bit (spi_cs_assert io r).portb k ≡ test_bit r.portb k)
        × (test_bit (spi_cs_release io r).portb k ≡ test_bit r.portb k)
  unfolding spi_init spi_cs_assert spi_cs_release spi_set_fast
  spi-Shows r b k l s hk ne =
      let cs : ℕ = spi_cs io in
      let mask : ℕ = bit_or (2 ^ io.spr1) (2 ^ io.spr0) in
      let c = spi_init-Configured r l in
      let high : test_bit (spi_init io r).portb cs ≡ true =
        test_bit-bit_or r.portb (bit_or (2 ^ cs) (2 ^ spi_mosi io)) cs l.cs_in
        ∙ ap (λ x. test_bit r.portb cs || x)
            (test-two_bits cs (spi_mosi io) cs l.cs_in l.mosi_in l.cs_in
              ∙ ap (λ x. x || cs == spi_mosi io) (==_refl cs))
        ∙ or_true (test_bit r.portb cs) in
      let first : test_bit (cleared r.spcr mask) io.spr1 ≡ false =
        clear_two_bits r.spcr io.spr1 io.spr0 io.spr1 l.spr1_in l.spr0_in l.spr1_in
          (ap (λ x. x || io.spr1 == io.spr0) (==_refl io.spr1)) in
      let second : test_bit (cleared r.spcr mask) io.spr0 ≡ false =
        clear_two_bits r.spcr io.spr1 io.spr0 io.spr0 l.spr1_in l.spr0_in l.spr0_in
          (ap (λ x. io.spr0 == io.spr1 || x) (==_refl io.spr0) ∙ or_true (io.spr0 == io.spr1)) in
      (
        ap not high,
        c.enabled,
        c.master,
        rw (c.high, c.low, clear_bit-clear r.spsr io.spi2x l.spi2x_in),
        rw (first, second, set_bit-set r.spsr io.spi2x l.spi2x_in),
        (sym (ap not (clear_bit-clear r.portb cs l.cs_in)), s.1),
        (sym (ap not (set_bit-set r.portb cs l.cs_in)), s.1),
        (
          s.0,
          sym (
              ap₂ (λ x y. x && y) (set_bit-set r.spsr io.spi2x l.spi2x_in)
                (ap₂ (λ x y. not x && not y) first second)),
        ),
        (test-clear_bit r.portb cs k l.cs_in hk
            ∙ ap (λ x. test_bit r.portb k && not x) (ne→== k cs ne)
            ∙ and_true (test_bit r.portb k)),
        (test-set_bit r.portb cs k l.cs_in hk
            ∙ ap (λ x. test_bit r.portb k || x) (ne→== k cs ne)
            ∙ or_false (test_bit r.portb k)),
      )
