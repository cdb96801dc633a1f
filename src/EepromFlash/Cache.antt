-- ===== src/EepromFlash/Cache.antt =====
-- The byte operations over the cache.
use barelog.Prelude.{
  ℕ, ◌≡◌, arith, length, u8, length-set, get_or-set_self, get_or-set_ne, ◌==◌, leb, ltb, not, ◌&&◌,
  ◌||◌, if◌then◌else◌,
}
use barelog.EepromFlash.{Cached, eeprom_read_byte, eeprom_write_byte, eeprom_update_byte}

-- For a cache of 256 bytes, a write and an update leave a memory in which the written address reads
-- back as the byte and every other address as before; out of range they change nothing, and reading
-- there gives 0xFF. A write in range marks the cache dirty, an update only if it changes the byte.
pub eeprom_read-write :
    (addr other val : ℕ) (c : Cached)
    → length c.cache ≡ 256
    → let w = eeprom_write_byte addr val c in
      let p = eeprom_update_byte addr val c in
      let expected : ℕ =
        if leb 256 other
        then 0xFF
        else if addr == other
        then u8 val
        else eeprom_read_byte other c in
      (eeprom_read_byte other w ≡ expected)
      × (eeprom_read_byte other p ≡ expected)
      × (w.dirty ≡ (c.dirty || ltb addr 256))
      × (p.dirty ≡ (c.dirty || (ltb addr 256 && not (eeprom_read_byte addr c == u8 val))))
      × (length w.cache ≡ 256)
      × (length p.cache ≡ 256)
unfolding eeprom_read_byte eeprom_write_byte eeprom_update_byte
eeprom_read-write addr other val c size = ground (
  arith,
  length-set c.cache addr (u8 val),
  get_or-set_self c.cache addr (u8 val) 0,
  get_or-set_ne c.cache addr other (u8 val) 0,
)
