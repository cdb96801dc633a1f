-- ===== src/Sd/Init.antt =====
-- `sd_init`, in the stages that its comments name.
use barelog.Prelude.{ℕ, zero, suc, not, ◌||◌, get_or, low_bits, test_bit, ◌==◌, if◌then◌else◌}
use barelog.Prelude.Run.{Result, ok}
use barelog.Spi.{
  Slave, Io, ◌>>=◌, ◌>>◌, ret, spi_transfer, spi_cs_assert, spi_cs_release, spi_set_fast, delay_ms,
  spi_read_buf,
}
use barelog.Sd.{accepted, give_up, sd_cmd, sd_acmd, sd_err_init}

module _ {sl : Slave} where
  -- `for (i = 0; i < 10; i++) spi_transfer(0xFF)`
  unfoldable pub dummy_clocks : ℕ → Io sl (Unit {0})
  dummy_clocks zero b = (tt, b)
  dummy_clocks (suc left) b = dummy_clocks left (spi_transfer 0xFF b).1

  -- CMD0 with `left` tries to go; the result is `r1`.
  unfoldable pub go_idle : ℕ → ℕ → Io sl ℕ
  go_idle zero r1 b = (r1, b)
  go_idle (suc left) r1 b =
      let (r, b1) = sd_cmd 0 0 0x95 b in
      let rest = go_idle left r.r1 (spi_transfer 0xFF b1).1 in
      if accepted r 0x01 then (r.r1, b1) else rest

  -- ACMD41 with `left` tries to go; the result is `r1`.
  unfoldable pub op_cond : ℕ → ℕ → Io sl ℕ
  op_cond zero r1 b = (r1, b)
  op_cond (suc left) r1 b =
      let (r, b1) = sd_acmd 41 0x40000000 b in
      let b2 = (spi_transfer 0xFF b1).1 in
      let rest = op_cond left r.r1 (delay_ms b2).1 in if accepted r 0x00 then (r.r1, b2) else rest

  -- CMD59, then the end.
  unfoldable pub init_end : Io sl (Result (Unit {0}))
  init_end = do sd_cmd 59 0 0x01; spi_transfer 0xFF; spi_cs_release; spi_set_fast; ret (ok tt)

  -- CMD16, on byte-addressed cards.
  unfoldable pub init_block_length : Io sl (Result (Unit {0}))
  init_block_length b =
      if b.sdhc
      then init_end b
      else (do
        r ← sd_cmd 16 512 0x01
        if not (accepted r 0x00) then give_up sd_err_init else (do spi_transfer 0xFF; init_end))
          b

  -- CMD58 and the capacity bit.
  unfoldable pub init_capacity : Io sl (Result (Unit {0}))
  init_capacity = do
    r ← sd_cmd 58 0 0x01
    if not (accepted r 0x00) then give_up sd_err_init else (do
      ocr ← spi_read_buf 4
      (λ b. (tt, record b { sdhc = test_bit (get_or ocr 0 0) 6 }))
      spi_transfer 0xFF
      init_block_length)

  -- ACMD41.
  unfoldable pub init_op_cond : ℕ → Io sl (Result (Unit {0}))
  init_op_cond r1 = do
    spi_transfer 0xFF
    r1' ← op_cond 1000 r1
    if not (r1' == 0x00) then give_up sd_err_init else init_capacity

  -- The rest of the R7 response to CMD8: the check pattern and the voltage range.
  unfoldable pub check_voltage : ℕ → Io sl (Result (Unit {0}))
  check_voltage r1 = do
    r7 ← spi_read_buf 4
    if not (get_or r7 3 0 == 0xAA) || not (low_bits (get_or r7 2 0) 4 == 0x01)
        then give_up sd_err_init
        else init_op_cond r1

  -- CMD8. A card that does not accept it goes on as version 1.
  unfoldable pub init_version : Io sl (Result (Unit {0}))
  init_version = do
    r ← sd_cmd 8 0x000001AA 0x87
    if accepted r 0x01 then check_voltage r.r1 else init_op_cond r.r1

  unfoldable pub sd_init : Io sl (Result (Unit {0}))
  sd_init = do
    spi_cs_release
    dummy_clocks 10
    spi_cs_assert
    r1 ← go_idle 10 0xFF
    if not (r1 == 0x01) then give_up sd_err_init else (do spi_transfer 0xFF; init_version)
