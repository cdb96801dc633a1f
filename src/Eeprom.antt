-- ===== src/Eeprom.antt =====
-- The EEPROM as its callers see it: byte access, and the dword access of avr-libc. On the other
-- chips the byte operations are those of eeprom_flash.c (see EepromFlash).
use barelog.Prelude.{
  ℕ, ◌+◌, ◌-◌, ◌<◌, ◌≡◌, ◌&&◌, u8, byte_of, from_le32, leb, ltb, ◌==◌, if◌then◌else◌,
}

-- The operations; `Mem` is what the cells hold.
pub record Eeprom : Type 1 where
  pub Mem : Type 0
  pub read_byte : ℕ → Mem → ℕ
  pub write_byte : ℕ → ℕ → Mem → Mem
  pub update_byte : ℕ → ℕ → Mem → Mem
  pub read_dword : ℕ → Mem → ℕ
  pub write_dword : ℕ → ℕ → Mem → Mem

-- The layout of config.h takes 20 cells.
abbrev pub layout_size : ℕ
layout_size = 20

-- What the program relies on: on the cells of the layout the EEPROM is a memory of bytes, and a
-- dword is four of them, the low byte first.
pub record IsMemory (ee : Eeprom) : Type 0 where
  pub read-lt : (a : ℕ) (m : ee.Mem) → ee.read_byte a m < 256
  pub read-write :
      (a b v : ℕ) (m : ee.Mem)
      → a < layout_size
      → b < layout_size
      → ee.read_byte b (ee.write_byte a v m) ≡ (if a == b then u8 v else ee.read_byte b m)
  pub read-update :
      (a b v : ℕ) (m : ee.Mem)
      → a < layout_size
      → b < layout_size
      → ee.read_byte b (ee.update_byte a v m) ≡ (if a == b then u8 v else ee.read_byte b m)
  pub read_dword_lem :
      (a : ℕ) (m : ee.Mem)
      → a + 3 < layout_size
      → ee.read_dword a m
        ≡ from_le32
            (ee.read_byte a m)
            (ee.read_byte (a + 1) m)
            (ee.read_byte (a + 2) m)
            (ee.read_byte (a + 3) m)
  pub read-write_dword :
      (a b v : ℕ) (m : ee.Mem)
      → a + 3 < layout_size
      → b < layout_size
      → ee.read_byte b (ee.write_dword a v m)
        ≡ (if leb a b && ltb b (a + 4) then byte_of v (b - a) else ee.read_byte b m)

-- An array of cells is such a memory.
abbrev pub cells : Eeprom
cells = record {
  Mem = ℕ → ℕ;
  read_byte = λ a m. u8 (m a);
  write_byte = λ a v m b. if a == b then u8 v else m b;
  update_byte = λ a v m b. if a == b then u8 v else m b;
  read_dword = λ a m. from_le32 (u8 (m a)) (u8 (m (a + 1))) (u8 (m (a + 2))) (u8 (m (a + 3)));
  write_dword = λ a v m b. if leb a b && ltb b (a + 4) then byte_of v (b - a) else m b;
}
