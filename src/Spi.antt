-- ===== src/Spi.antt =====
-- spi.h and spi.c over the SPI hardware and the card behind it, which are the parameter `Slave`.
use barelog.Prelude.{ℕ, zero, suc, Bool, true, false, List, [], ◌∷◌}

-- What one exchange of bytes does. The first argument of `exchange` is the chip select line (true
-- while it is asserted), the second the byte sent; the result is the byte received. `delay` is the
-- passing of a millisecond (util.h).
pub record Slave : Type 1 where
  pub Card : Type 0
  pub exchange : Bool → ℕ → Card → ℕ × Card
  pub delay : Card → Card

-- The bus: the chip select line, the clock rate, `sd_state.sdhc` of sd.c, and the card.
pub record Bus (sl : Slave) : Type 0 where
  pub selected : Bool
  pub fast : Bool
  pub sdhc : Bool
  pub card : sl.Card

-- Code that drives the bus. It always runs to its end.
abbrev pub Io : Slave → Type 0 → Type 0
Io sl A = Bus sl → A × Bus sl

module _ {sl : Slave} {A B : Type 0} where
  infixl 5 ◌>>=◌ ◌>>◌
  abbrev pub ◌>>=◌ : Io sl A → (A → Io sl B) → Io sl B
  ◌>>=◌ m k b = k (m b).0 (m b).1

  abbrev pub ◌>>◌ : Io sl A → Io sl B → Io sl B
  ◌>>◌ m k b = k (m b).1

abbrev pub ret : {sl : Slave} {A : Type 0} → A → Io sl A
ret a b = (a, b)

module _ {sl : Slave} where
  abbrev pub spi_transfer : ℕ → Io sl ℕ
  spi_transfer byte b =
      let (r, c) = sl.exchange b.selected byte b.card in (r, record b { card = c })

  abbrev pub spi_cs_assert : Io sl (Unit {0})
  spi_cs_assert b = (tt, record b { selected = true })

  abbrev pub spi_cs_release : Io sl (Unit {0})
  spi_cs_release b = (tt, record b { selected = false })

  abbrev pub spi_set_fast : Io sl (Unit {0})
  spi_set_fast b = (tt, record b { fast = true })

  abbrev pub delay_ms : Io sl (Unit {0})
  delay_ms b = (tt, record b { card = sl.delay b.card })

  -- The first `len` bytes of the buffer. Behind its end, where the source must not read, stands 0.
  unfoldable pub spi_write_buf : List ℕ → ℕ → Io sl (Unit {0})
  spi_write_buf buf zero b = (tt, b)
  spi_write_buf [] (suc len) b = spi_write_buf [] len (spi_transfer 0x00 b).1
  spi_write_buf (x ∷ buf) (suc len) b = spi_write_buf buf len (spi_transfer x b).1

  unfoldable pub spi_write_zeros : ℕ → Io sl (Unit {0})
  spi_write_zeros zero b = (tt, b)
  spi_write_zeros (suc len) b = spi_write_zeros len (spi_transfer 0x00 b).1

  -- The bytes received while 0xFF is sent.
  unfoldable pub spi_read_buf : ℕ → Io sl (List ℕ)
  spi_read_buf zero b = ([], b)
  spi_read_buf (suc len) b =
      let (x, b1) = spi_transfer 0xFF b in let (rest, b2) = spi_read_buf len b1 in (x ∷ rest, b2)
