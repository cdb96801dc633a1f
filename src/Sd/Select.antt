-- ===== src/Sd/Select.antt =====
-- The chip select line after each operation of sd.h.
use barelog.Prelude.{ℕ, ◌≡◌, refl, Bool, true, false, List, if◌then◌else◌, arith}
use barelog.Prelude.Run.{Result}
use barelog.Spi.{Slave, Bus, Io, spi_read_buf, spi_transfer}
use barelog.Sd.{
  Response, accepted, give_up, sd_err_init, sd_cmd, sd_write_finish, sd_read_sector,
  sd_write_sector, sd_write_sector_zc, sd_write_zero_sector, sd_erase,
}
use barelog.Sd.Frame.{
  frame, sd_write_sector-frame, sd_write_sector_zc-frame, sd_write_zero_sector-frame,
}
use barelog.Sd.Init.{
  op_cond, init_end, init_block_length, init_capacity, init_op_cond, check_voltage, init_version,
  sd_init,
}

-- The line is released after `io`, whatever the card has answered.
abbrev pub Releases : (sl : Slave) {A : Type 0} → Io sl A → Type 0
Releases sl io = (b : Bus sl) → (io b).1.selected ≡ false

module _ (sl : Slave) where
  if-Releases :
      (c : Bool) (x y : Io sl (Result (Unit {0})))
      → Releases sl x
      → Releases sl y
      → Releases sl (if c then x else y)
  if-Releases true x y h k = h
  if-Releases false x y h k = k

  read_sector-Releases : (lba : ℕ) → Releases sl (sd_read_sector lba)
  unfolding sd_read_sector
  read_sector-Releases lba b = ground arith

  write_finish-Releases : Releases sl sd_write_finish
  unfolding sd_write_finish
  write_finish-Releases b = ground arith

  frame-Releases : (lba : ℕ) (payload : Io sl (Unit {0})) → Releases sl (frame lba payload)
  unfolding frame
  frame-Releases lba payload b = grind (arith, write_finish-Releases)

  erase-Releases : (lba_start lba_end : ℕ) → Releases sl (sd_erase lba_start lba_end)
  unfolding sd_erase
  erase-Releases s e b = refl

  init_end-Releases : Releases sl init_end
  unfolding init_end
  init_end-Releases b = refl

  init_block_length-Releases : Releases sl init_block_length
  unfolding init_block_length
  init_block_length-Releases b = grind (arith, init_end-Releases)

  init_capacity-Releases : Releases sl init_capacity
  unfolding init_capacity
  init_capacity-Releases b = grind (arith, init_block_length-Releases)

  init_op_cond-Releases : (r1 : ℕ) → Releases sl (init_op_cond r1)
  unfolding init_op_cond
  init_op_cond-Releases r1 b =
      if-Releases _ (give_up sd_err_init) init_capacity (λ _. refl) init_capacity-Releases
        (op_cond 1000 r1 (spi_transfer 0xFF b).1).1

  check_voltage-Releases : (r1 : ℕ) → Releases sl (check_voltage r1)
  unfolding check_voltage
  check_voltage-Releases r1 b =
      if-Releases _ (give_up sd_err_init) (init_op_cond r1) (λ _. refl) (init_op_cond-Releases r1)
        (spi_read_buf 4 b).1

  init_version-Releases : Releases sl init_version
  unfolding init_version
  init_version-Releases b =
      if-Releases (accepted r.0 0x01) (check_voltage r.0.r1) (init_op_cond r.0.r1)
        (check_voltage-Releases r.0.r1) (init_op_cond-Releases r.0.r1) r.1
    where
      r : Response × Bus sl
      r = sd_cmd 8 0x000001AA 0x87 b

  init-Releases : Releases sl sd_init
  unfolding sd_init
  init-Releases b = grind (arith, init_version-Releases)

  -- Whatever the card answers, on success and on every error path, each of the six operations of
  -- sd.h leaves the card deselected.
  pub sd-Releases :
      Releases sl sd_init
      × ((lba : ℕ) → Releases sl (sd_read_sector lba))
      × ((lba : ℕ) (buf : List ℕ) → Releases sl (sd_write_sector lba buf))
      × ((lba : ℕ) (a b : List ℕ) → Releases sl (sd_write_sector_zc lba a b))
      × ((lba : ℕ) → Releases sl (sd_write_zero_sector lba))
      × ((s e : ℕ) → Releases sl (sd_erase s e))
  sd-Releases = (
    init-Releases,
    read_sector-Releases,
    λ lba buf. rw (sd_write_sector-frame lba buf) (frame-Releases lba _),
    λ lba a b. rw (sd_write_sector_zc-frame lba a b) (frame-Releases lba _),
    λ lba. rw (sd_write_zero_sector-frame lba) (frame-Releases lba _),
    erase-Releases,
  )
