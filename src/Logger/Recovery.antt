-- ===== src/Logger/Recovery.antt =====
-- The recovery record: `log_flush` saves the byte count, `fat32_open_log` reads it back.
use barelog.Prelude.{ℕ, ◌^◌, ◌<◌, ◌≡◌, refl, ◌==◌, if◌then◌else◌, arith, u8, u16, shr, low_bits}
use barelog.Eeprom.{IsMemory, layout_size}
use barelog.Config.{config_read}
use barelog.Machine.{Hardware, Machine}
use barelog.Fat.Log.Open.{recovered}
use barelog.Logger.{save_recovery}

module _ (hw : Hardware) (mem : IsMemory hw.ee) where
  -- The cells 16 to 19 after the record is saved, and the others.
  read_byte-save_recovery :
      (bw b : ℕ) (e : hw.ee.Mem)
      → b < layout_size
      → hw.ee.read_byte b (save_recovery hw bw e) ≡ (
          if 19 == b
          then u8 (shr (u16 (shr bw 16)) 8)
          else if 18 == b
          then u8 (low_bits (u16 (shr bw 16)) 8)
          else if 17 == b
          then u8 (shr (low_bits bw 16) 8)
          else if 16 == b
          then u8 (low_bits (low_bits bw 16) 8)
          else hw.ee.read_byte b e)
  unfolding save_recovery
  read_byte-save_recovery bw b e h = rw (
    mem.read-update 19 b _ _ (omega arith) h,
    mem.read-update 18 b _ _ (omega arith) h,
    mem.read-update 17 b _ _ (omega arith) h,
    mem.read-update 16 b _ _ (omega arith) h,
  )

  read_byte-save_recovery_low :
      (bw b : ℕ) (e : hw.ee.Mem)
      → b < 16
      → hw.ee.read_byte b (save_recovery hw bw e) ≡ hw.ee.read_byte b e
  read_byte-save_recovery_low bw b e h =
      ground (arith, read_byte-save_recovery bw b e (omega arith))

  -- A 32-bit byte count that `log_flush` has saved is the count that a later `fat32_open_log`
  -- resumes with, and saving it leaves the stored configuration as it was.
  pub save_recovery-recovered :
      (bw : ℕ) (m : Machine hw)
      → bw < 2 ^ 32
      → let e = save_recovery hw bw m.eeprom in
        (recovered hw (record m { eeprom = e }) ≡ bw)
        × (config_read hw.ee e ≡ config_read hw.ee m.eeprom)
  unfolding config_read
  save_recovery-recovered bw m h =
      let cell = λ (b : ℕ) (lt : b < layout_size). read_byte-save_recovery bw b m.eeprom lt in
      let same = λ (b : ℕ) (lt : b < 16). read_byte-save_recovery_low bw b m.eeprom lt in
      (
        omega (
          arith,
          cell 16 (omega arith),
          cell 17 (omega arith),
          cell 18 (omega arith),
          cell 19 (omega arith),
        ),
        rw
            (
              mem.read_dword_lem 4 (save_recovery hw bw m.eeprom) (omega arith),
              mem.read_dword_lem 4 m.eeprom (omega arith),
              same 4 (omega arith),
              same 5 (omega arith),
              same 6 (omega arith),
              same 7 (omega arith),
              same 8 (omega arith),
              same 9 (omega arith),
              same 10 (omega arith),
              same 11 (omega arith),
              same 12 (omega arith),
              same 13 (omega arith),
            )
            refl,
      )
