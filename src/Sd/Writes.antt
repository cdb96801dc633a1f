-- ===== src/Sd/Writes.antt =====
-- The three ways to write a sector, and sd.c as the block device of fat32_*.c.
use barelog.Prelude.{
  ℕ, zero, suc, ◌+◌, ◌≡◌, ◌∙◌, refl, ap, fun_ext, List, [], ◌∷◌, ◌++◌, lt→ltb, length, replicate,
  arith,
}
use barelog.Prelude.Run.{ok}
use barelog.Spi.{Slave, Bus, spi_transfer, spi_write_buf, spi_write_zeros, spi_read_buf}
use barelog.Sd.{sd_read_sector, sd_write_sector, sd_write_sector_zc, sd_write_zero_sector, sd_erase}
use barelog.Sd.Frame.{
  frame, second_span, sd_write_sector-frame, sd_write_sector_zc-frame, sd_write_zero_sector-frame,
}
use barelog.Sd.Init.{sd_init}
use barelog.Device.{BlockDevice}

-- sd.c fills the interface of `Device`; what the card holds and the state of the bus are its disk.
abbrev pub sd_device : Slave → BlockDevice
sd_device sl = record {
  Disk = Bus sl;
  sd_read_sector = sd_read_sector;
  sd_write_sector = sd_write_sector;
  sd_write_sector_zc = sd_write_sector_zc;
  sd_init = sd_init;
  sd_write_zero_sector = sd_write_zero_sector;
  sd_erase = λ s e b. (sd_erase s e b).1;
}

module _ (sl : Slave) where
  spi_write_buf-append :
      (xs ys : List ℕ) (k n : ℕ) (b : Bus sl)
      → length xs + n ≡ k
      → spi_write_buf ys n (spi_write_buf xs (length xs) b).1 ≡ spi_write_buf (xs ++ ys) k b
  unfolding spi_write_buf
  spi_write_buf-append [] ys k n b h =
      ap (λ m. spi_write_buf ys m b) {x = n} {y = k} (omega (arith, h))
  spi_write_buf-append (x ∷ xs) ys zero n b h = absurd (omega (arith, h))
  spi_write_buf-append (x ∷ xs) ys (suc k) n b h =
      spi_write_buf-append xs ys k n (spi_transfer x b).1 (omega (arith, h))

  -- The test on the length changes nothing.
  second_span_lem : (ys : List ℕ) (b : Bus sl) → second_span ys b ≡ spi_write_buf ys (length ys) b
  unfolding spi_write_buf
  second_span_lem [] b = refl
  second_span_lem (y ∷ ys) b = rw (lt→ltb 0 (length (y ∷ ys)) (omega arith)) refl

  spi_write_zeros_lem :
      (n : ℕ) (b : Bus sl) → spi_write_zeros n b ≡ spi_write_buf (replicate n 0) n b
  unfolding spi_write_buf spi_write_zeros
  spi_write_zeros_lem zero b = refl
  spi_write_zeros_lem (suc n) b = spi_write_zeros_lem n (spi_transfer 0x00 b).1

  -- For every card, sd_write_sector_zc of two spans, the second perhaps empty, of 512 bytes
  -- together, is on the bus the sd_write_sector of their concatenation, and sd_write_zero_sector
  -- the write of 512 zero bytes: the outcome and the state of bus and card are the same, on every
  -- error path too.
  pub writes_agree :
      (lba : ℕ) (a b : List ℕ) (bus : Bus sl)
      → length a + length b ≡ 512
      → (sd_write_sector_zc lba a b bus ≡ sd_write_sector lba (a ++ b) bus)
        × (sd_write_zero_sector lba bus ≡ sd_write_sector lba (replicate 512 0) bus)
  writes_agree lba a b bus h = (
    rw (sd_write_sector_zc-frame lba a b, sd_write_sector-frame lba (a ++ b))
        (ap (λ payload. frame lba payload bus)
          (fun_ext (λ s.
            second_span_lem b (spi_write_buf a (length a) s).1
            ∙ spi_write_buf-append a b 512 (length b) s h))),
    rw (sd_write_zero_sector-frame lba, sd_write_sector-frame lba (replicate 512 0))
        (ap (λ payload. frame lba payload bus) (fun_ext (spi_write_zeros_lem 512))),
  )

  length-spi_read_buf : (n : ℕ) (b : Bus sl) → length (spi_read_buf n b).0 ≡ n
  unfolding spi_read_buf
  length-spi_read_buf zero b = refl
  length-spi_read_buf (suc n) b = ap suc (length-spi_read_buf n (spi_transfer 0xFF b).1)

  -- A read that succeeds delivers exactly 512 bytes.
  pub length-sd_read_sector :
      (lba : ℕ) (b : Bus sl) {bytes : List ℕ}
      → (sd_read_sector lba b).0 ≡ ok bytes
      → length bytes ≡ 512
  unfolding sd_read_sector
  length-sd_read_sector lba b h = grind (arith, length-spi_read_buf)
