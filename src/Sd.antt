-- ===== src/Sd.antt =====
-- sd.c: the SD command protocol over SPI.
pub mod Init
pub mod Select
pub mod Writes
pub mod Frame
use barelog.Prelude.{
  ℕ, zero, suc, ◌+◌, ◌*◌, Bool, true, false, not, ◌&&◌, ◌||◌, List, [], ◌∷◌, Option, none, some,
  length, u8, u32, shr, low_bits, test_bit, ltb, ◌==◌, if◌then◌else◌,
}
use barelog.Prelude.Run.{Result, ok, err}
use barelog.Spi.{
  Slave, Bus, Io, ◌>>=◌, ◌>>◌, ret, spi_transfer, spi_cs_assert, spi_cs_release, spi_write_buf,
  spi_write_zeros, spi_read_buf,
}

-- SD_ERR_TIMEOUT, SD_ERR_INIT, SD_ERR_WRITE, SD_ERR_READ, without their signs.
abbrev pub sd_err_timeout : ℕ
sd_err_timeout = 1

abbrev pub sd_err_init : ℕ
sd_err_init = 2

abbrev pub sd_err_write : ℕ
sd_err_write = 4

abbrev pub sd_err_read : ℕ
sd_err_read = 5

-- Whether `sd_cmd` returned SD_OK, and `*r1`.
pub record Response : Type 0 where
  pub answered : Bool
  pub r1 : ℕ

abbrev pub accepted : Response → ℕ → Bool
accepted r v = r.answered && r.r1 == v

unfoldable pub sd_lba_arg : Bool → ℕ → ℕ
sd_lba_arg sdhc lba = if sdhc then lba else u32 (lba * 512)

module _ {sl : Slave} where
  -- The poll for R1 with `left` bytes to try.
  unfoldable pub poll_r1 : ℕ → Io sl Response
  poll_r1 zero b = (record { answered = false; r1 = 0xFF }, b)
  poll_r1 (suc left) b =
      let (resp, b1) = spi_transfer 0xFF b in
      let rest = poll_r1 left b1 in
      if resp == 0xFF then rest else (record { answered = true; r1 = resp }, b1)

  -- A command index is below 64, so `0x40 | cmd` is a sum.
  unfoldable pub sd_cmd : ℕ → ℕ → ℕ → Io sl Response
  sd_cmd cmd arg crc = do
    spi_transfer (0x40 + cmd)
    spi_transfer (u8 (shr arg 24))
    spi_transfer (u8 (shr arg 16))
    spi_transfer (u8 (shr arg 8))
    spi_transfer (u8 arg)
    spi_transfer crc
    poll_r1 8

  unfoldable pub sd_acmd : ℕ → ℕ → Io sl Response
  sd_acmd cmd arg b =
      let (r, b1) = sd_cmd 55 0 0x01 b in
      elim r.answered [ false ↦ (r, b1) | true ↦ (do spi_transfer 0xFF; sd_cmd cmd arg 0x01) b1 ]

  -- `sd_wait_ready` with `left` tries to go.
  unfoldable pub wait_ready : ℕ → Io sl (Result (Unit {0}))
  wait_ready zero b = (err sd_err_timeout, b)
  wait_ready (suc left) b =
      let (r, b1) = spi_transfer 0xFF b in
      let rest = wait_ready left b1 in if r == 0xFF then (ok tt, b1) else rest

  unfoldable pub sd_wait_ready : Io sl (Result (Unit {0}))
  sd_wait_ready = wait_ready 50000

  -- The poll for the data token with `left` tries to go; the result is the last byte.
  unfoldable pub poll_token : ℕ → ℕ → Io sl ℕ
  poll_token zero tok b = (tok, b)
  poll_token (suc left) tok b =
      let (t, b1) = spi_transfer 0xFF b in
      let rest = poll_token left t b1 in if t == 0xFE then (t, b1) else rest

  abbrev pub give_up : {A : Type 0} → ℕ → Io sl (Result A)
  give_up code = do spi_cs_release; ret (err code)

  -- `tok` is uninitialised in the source; all 200 rounds assign it.
  unfoldable pub sd_read_sector : ℕ → Io sl (Result (List ℕ))
  sd_read_sector lba = do
    spi_cs_assert
    r ← (λ b. sd_cmd 17 (sd_lba_arg b.sdhc lba) 0x01 b)
    if not (accepted r 0x00) then give_up sd_err_read else (do
      tok ← poll_token 200 0
      if not (tok == 0xFE) then give_up sd_err_timeout else (do
        bytes ← spi_read_buf 512
        spi_transfer 0xFF
        spi_transfer 0xFF
        spi_cs_release
        spi_transfer 0xFF
        ret (ok bytes)))

  unfoldable pub sd_write_finish : Io sl (Result (Unit {0}))
  sd_write_finish = do
    spi_transfer 0xFF
    spi_transfer 0xFF
    resp ← spi_transfer 0xFF
    if not (low_bits resp 5 == 0x05)
        then give_up sd_err_write
        else (do r ← sd_wait_ready; spi_cs_release; spi_transfer 0xFF; ret r)

  unfoldable pub sd_write_sector : ℕ → List ℕ → Io sl (Result (Unit {0}))
  sd_write_sector lba buf = do
    spi_cs_assert
    r ← (λ b. sd_cmd 24 (sd_lba_arg b.sdhc lba) 0x01 b)
    if not (accepted r 0x00)
        then give_up sd_err_write
        else (do spi_transfer 0xFF; spi_transfer 0xFE; spi_write_buf buf 512; sd_write_finish)

  -- A span is the list of its bytes; the null pointer is the empty one.
  unfoldable pub sd_write_sector_zc : ℕ → List ℕ → List ℕ → Io sl (Result (Unit {0}))
  sd_write_sector_zc lba span_a span_b = do
    spi_cs_assert
    r ← (λ b. sd_cmd 24 (sd_lba_arg b.sdhc lba) 0x01 b)
    if not (accepted r 0x00) then give_up sd_err_write else (do
      spi_transfer 0xFF
      spi_transfer 0xFE
      spi_write_buf span_a (length span_a)
      (if ltb 0 (length span_b) then spi_write_buf span_b (length span_b) else ret tt)
      sd_write_finish)

  unfoldable pub sd_write_zero_sector : ℕ → Io sl (Result (Unit {0}))
  sd_write_zero_sector lba = do
    spi_cs_assert
    r ← (λ b. sd_cmd 24 (sd_lba_arg b.sdhc lba) 0x01 b)
    if not (accepted r 0x00)
        then give_up sd_err_write
        else (do spi_transfer 0xFF; spi_transfer 0xFE; spi_write_zeros 512; sd_write_finish)

  unfoldable pub sd_erase : ℕ → ℕ → Io sl (Result (Unit {0}))
  sd_erase lba_start lba_end = do
    spi_cs_assert
    (λ b. sd_cmd 32 (sd_lba_arg b.sdhc lba_start) 0x01 b)
    spi_transfer 0xFF
    (λ b. sd_cmd 33 (sd_lba_arg b.sdhc lba_end) 0x01 b)
    spi_transfer 0xFF
    sd_cmd 38 0 0x01
    sd_wait_ready
    spi_cs_release
    spi_transfer 0xFF
    ret (ok tt)
