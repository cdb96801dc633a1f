-- ===== src/Config.antt =====
-- config.h and config.c: the configuration record and its EEPROM image.
pub mod Image
pub mod Prealloc
use barelog.Prelude.{ℕ, ◌+◌, ◌*◌, from_le16, low_bits, shr, ◌==◌, if◌then◌else◌}
use barelog.Eeprom.{Eeprom}

-- `struct config`
pub record Config : Type 0 where
  pub baud : ℕ
  pub esc_char : ℕ
  pub esc_count : ℕ
  pub log_num : ℕ
  pub flags : ℕ
  pub prealloc_code : ℕ

abbrev pub eeprom_magic : ℕ
eeprom_magic = 0x4F4C3200

abbrev pub eeprom_off_magic : ℕ
eeprom_off_magic = 0

abbrev pub eeprom_off_baud : ℕ
eeprom_off_baud = 4

abbrev pub eeprom_off_esc : ℕ
eeprom_off_esc = 8

abbrev pub eeprom_off_esccnt : ℕ
eeprom_off_esccnt = 9

abbrev pub eeprom_off_lognum : ℕ
eeprom_off_lognum = 10

abbrev pub eeprom_off_flags : ℕ
eeprom_off_flags = 12

abbrev pub eeprom_off_prealloc : ℕ
eeprom_off_prealloc = 13

abbrev pub eeprom_off_rec_lo : ℕ
eeprom_off_rec_lo = 16

abbrev pub eeprom_off_rec_hi : ℕ
eeprom_off_rec_hi = 18

unfoldable pub config_prealloc_bytes : ℕ → ℕ
config_prealloc_bytes code =
    if code == 0
    then 1 * 1024 * 1024
    else if code == 1
    then 4 * 1024 * 1024
    else if code == 2
    then 8 * 1024 * 1024
    else if code == 3
    then 16 * 1024 * 1024
    else if code == 4
    then 32 * 1024 * 1024
    else 8 * 1024 * 1024

abbrev pub config_defaults : Config
config_defaults = record {
  baud = 115200;
  esc_char = 0x1A;
  esc_count = 3;
  log_num = 1;
  flags = 0;
  prealloc_code = 2;
}

module _ (ee : Eeprom) where
  open ee use {Mem, read_byte, write_byte, read_dword, write_dword}

  -- The writes in the order of the source, one to a line.
  unfoldable pub config_save : Config → Mem → Mem
  config_save c m0 =
      let m1 = write_dword eeprom_off_magic eeprom_magic m0 in
      let m2 = write_dword eeprom_off_baud c.baud m1 in
      let m3 = write_byte eeprom_off_esc c.esc_char m2 in
      let m4 = write_byte eeprom_off_esccnt c.esc_count m3 in
      let m5 = write_byte eeprom_off_lognum (low_bits c.log_num 8) m4 in
      let m6 = write_byte (eeprom_off_lognum + 1) (shr c.log_num 8) m5 in
      let m7 = write_byte eeprom_off_flags c.flags m6 in
      write_byte eeprom_off_prealloc c.prealloc_code m7

  -- The fields as they stand in the image.
  unfoldable pub config_read : Mem → Config
  config_read m = record {
    baud = read_dword eeprom_off_baud m;
    esc_char = read_byte eeprom_off_esc m;
    esc_count = read_byte eeprom_off_esccnt m;
    log_num = from_le16 (read_byte eeprom_off_lognum m) (read_byte (eeprom_off_lognum + 1) m);
    flags = read_byte eeprom_off_flags m;
    prealloc_code = read_byte eeprom_off_prealloc m;
  }

  -- The result is `*c` and the memory.
  unfoldable pub config_load : Mem → Config × Mem
  unfolding config_read config_save
  config_load m =
      if read_dword eeprom_off_magic m == eeprom_magic
      then (config_read m, m)
      else (config_defaults, config_save config_defaults m)
