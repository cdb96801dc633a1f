-- ===== src/Sd/Frame.antt =====
-- What the three write functions of sd.c have in common.
use barelog.Prelude.{ℕ, ◌≡◌, refl, List, length, not, ltb, if◌then◌else◌}
use barelog.Prelude.Run.{Result}
use barelog.Sd.{
  accepted, give_up, sd_cmd, sd_err_write, sd_lba_arg, sd_write_finish, sd_write_sector,
  sd_write_sector_zc, sd_write_zero_sector,
}
use barelog.Spi.{
  Slave, Io, ◌>>=◌, ◌>>◌, ret, spi_cs_assert, spi_transfer, spi_write_buf, spi_write_zeros,
}

module _ {sl : Slave} where
  -- CMD24, the token, a payload, the end.
  unfoldable pub frame : ℕ → Io sl (Unit {0}) → Io sl (Result (Unit {0}))
  frame lba payload = do
    spi_cs_assert
    r ← (λ b. sd_cmd 24 (sd_lba_arg b.sdhc lba) 0x01 b)
    if not (accepted r 0x00)
        then give_up sd_err_write
        else (do spi_transfer 0xFF; spi_transfer 0xFE; payload; sd_write_finish)

  -- The second span of `sd_write_sector_zc`.
  abbrev pub second_span : List ℕ → Io sl (Unit {0})
  second_span b = if ltb 0 (length b) then spi_write_buf b (length b) else ret tt

  pub sd_write_sector-frame :
      (lba : ℕ) (buf : List ℕ)
      → sd_write_sector {sl = sl} lba buf ≡ frame lba (spi_write_buf buf 512)
  unfolding sd_write_sector frame
  sd_write_sector-frame lba buf = refl

  pub sd_write_sector_zc-frame :
      (lba : ℕ) (a b : List ℕ)
      → sd_write_sector_zc {sl = sl} lba a b
        ≡ frame lba (do spi_write_buf a (length a); second_span b)
  unfolding sd_write_sector_zc frame
  sd_write_sector_zc-frame lba a b = refl

  pub sd_write_zero_sector-frame :
      (lba : ℕ) → sd_write_zero_sector {sl = sl} lba ≡ frame lba (spi_write_zeros 512)
  unfolding sd_write_zero_sector frame
  sd_write_zero_sector-frame lba = refl
