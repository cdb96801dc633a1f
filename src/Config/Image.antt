-- ===== src/Config/Image.antt =====
-- What `config_save` leaves in the EEPROM, and what `config_load` makes of it.
use barelog.Prelude.{
  ℕ, ◌+◌, ◌-◌, ◌^◌, ◌<◌, ◌≡◌, refl, ◌&&◌, arith, u8, byte_of, from_le32, leb, ltb, ◌==◌,
  if◌then◌else◌, low_bits, shr, Bool-cases, inl, inr, true, false,
}
use barelog.Eeprom.{Eeprom, IsMemory, layout_size}
use barelog.Config.{Config, eeprom_magic, config_defaults, config_save, config_read, config_load}

-- Each field fits its width in `struct config`.
pub record InRange (c : Config) : Type 0 where
  pub baud_lt : c.baud < 2 ^ 32
  pub esc_char_lt : c.esc_char < 256
  pub esc_count_lt : c.esc_count < 256
  pub log_num_lt : c.log_num < 65536
  pub flags_lt : c.flags < 256
  pub prealloc_code_lt : c.prealloc_code < 256

-- The byte that the layout table of config.h puts at offset `b`; `old` where it names no field.
abbrev pub layout : Config → ℕ → ℕ → ℕ
layout c old b =
    if 13 == b
    then u8 c.prealloc_code
    else if 12 == b
    then u8 c.flags
    else if 11 == b
    then u8 (shr c.log_num 8)
    else if 10 == b
    then u8 (low_bits c.log_num 8)
    else if 9 == b
    then u8 c.esc_count
    else if 8 == b
    then u8 c.esc_char
    else if leb 4 b && ltb b 8
    then byte_of c.baud (b - 4)
    else if leb 0 b && ltb b 4
    then byte_of eeprom_magic (b - 0)
    else old

module _ (ee : Eeprom) (mem : IsMemory ee) where
  open ee use {Mem, read_byte, read_dword}

  -- Over an EEPROM that is a memory: after config_save every cell of the layout that the table of
  -- config.h gives to the magic or to a field of the configuration holds the byte that the table
  -- puts there, and every other one is as it was: those of the recovery record, and also the two
  -- that the table calls reserved and written as 0xFF.
  pub config_save-layout :
      (c : Config) (m : Mem) (b : ℕ)
      → b < layout_size
      → read_byte b (config_save ee c m) ≡ layout c (read_byte b m) b
  unfolding config_save
  config_save-layout c m b h = rw (
    mem.read-write 13 b _ _ (omega arith) h,
    mem.read-write 12 b _ _ (omega arith) h,
    mem.read-write 11 b _ _ (omega arith) h,
    mem.read-write 10 b _ _ (omega arith) h,
    mem.read-write 9 b _ _ (omega arith) h,
    mem.read-write 8 b _ _ (omega arith) h,
    mem.read-write_dword 4 b _ _ (omega arith) h,
    mem.read-write_dword 0 b _ _ (omega arith) h,
  )

  read_dword-config_save :
      (c : Config) (m : Mem) (a : ℕ)
      → a + 3 < layout_size
      → read_dword a (config_save ee c m)
        ≡ from_le32
            (layout c (read_byte a m) a)
            (layout c (read_byte (a + 1) m) (a + 1))
            (layout c (read_byte (a + 2) m) (a + 2))
            (layout c (read_byte (a + 3) m) (a + 3))
  read_dword-config_save c m a h = rw (
    mem.read_dword_lem a _ h,
    config_save-layout c m a (omega arith),
    config_save-layout c m (a + 1) (omega arith),
    config_save-layout c m (a + 2) (omega arith),
    config_save-layout c m (a + 3) (omega arith),
  )

  magic-config_save : (c : Config) (m : Mem) → read_dword 0 (config_save ee c m) ≡ eeprom_magic
  magic-config_save c m = read_dword-config_save c m 0 (omega arith)

  config_read-config_save :
      (c : Config) (m : Mem) → InRange c → config_read ee (config_save ee c m) ≡ c
  unfolding config_read
  config_read-config_save c m r =
      let byte = λ (b : ℕ) (h : b < layout_size). config_save-layout c m b h in
      ground (
        arith,
        read_dword-config_save c m 4 (omega arith),
        byte 8 (omega arith),
        byte 9 (omega arith),
        byte 10 (omega arith),
        byte 11 (omega arith),
        byte 12 (omega arith),
        byte 13 (omega arith),
      )

  -- Loading what was saved gives back the same configuration and leaves the EEPROM alone.
  pub config_load-config_save :
      (c : Config) (m : Mem)
      → InRange c
      → config_load ee (config_save ee c m) ≡ (c, config_save ee c m)
  unfolding config_load
  config_load-config_save c m r = rw (magic-config_save c m, config_read-config_save c m r)

  defaults-InRange : InRange config_defaults
  defaults-InRange = omega arith

  config_read-InRange : (m : Mem) → InRange (config_read ee m)
  unfolding config_read
  config_read-InRange m = omega (
    arith,
    mem.read_dword_lem 4 m (omega arith),
    mem.read-lt 4 m,
    mem.read-lt 5 m,
    mem.read-lt 6 m,
    mem.read-lt 7 m,
    mem.read-lt 8 m,
    mem.read-lt 9 m,
    mem.read-lt 10 m,
    mem.read-lt 11 m,
    mem.read-lt 12 m,
    mem.read-lt 13 m,
  )

  config_load_good :
      (m : Mem) → (read_dword 0 m == eeprom_magic) ≡ true → config_load ee m ≡ (config_read ee m, m)
  unfolding config_load
  config_load_good m h = rw h

  config_load_bad :
      (m : Mem)
      → (read_dword 0 m == eeprom_magic) ≡ false
      → config_load ee m ≡ (config_defaults, config_save ee config_defaults m)
  unfolding config_load
  config_load_bad m h = rw h

  -- Whatever the EEPROM holds, the loaded configuration is in range, and loading a second time
  -- gives the same configuration and changes nothing more; it is what the cells hold where the magic
  -- is there, and the factory default where it is missing.
  pub config_load_stable :
      (m : Mem)
      → let (c, m') = config_load ee m in
        InRange c
        × (config_load ee m' ≡ (c, m'))
        × (c ≡ (if read_dword 0 m == eeprom_magic then config_read ee m else config_defaults))
  config_load_stable m = elim (Bool-cases (read_dword 0 m == eeprom_magic)) [
    | inl h ↦ rw (config_load_good m h, h) (config_read-InRange m, config_load_good m h, refl)
    | inr h ↦
        rw (config_load_bad m h, h)
          (defaults-InRange, config_load-config_save config_defaults m defaults-InRange, refl)
  ]
