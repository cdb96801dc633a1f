-- ===== src/EepromFlash.antt =====
-- eeprom_flash.c: an EEPROM of 256 bytes cached in memory and kept in slots of a flash sector.
pub mod Cache
pub mod Slots
pub mod Sync
use barelog.Prelude.{
  ℕ, zero, suc, ◌+◌, ◌-◌, ◌*◌, ◌/◌, ◌%◌, Bool, true, false, not, ◌&&◌, List, [], ◌∷◌, u8, get_or,
  set, ltb, leb, ◌==◌, if◌then◌else◌,
}

-- The functions that each chip provides, and its two constants.
pub record FlashChip : Type 1 where
  pub Flash : Type 0
  pub base_addr : ℕ
  pub size : ℕ
  pub erase_sector : ℕ → Flash → Flash
  pub write_bytes : ℕ → List ℕ → Flash → Flash
  pub read_bytes : ℕ → ℕ → Flash → List ℕ

-- EEPROM_SIZE, EEPROM_GEN_OFFSET, EEPROM_SLOT_SIZE
abbrev pub eeprom_size : ℕ
eeprom_size = 256

abbrev pub gen_offset : ℕ
gen_offset = eeprom_size

abbrev pub slot_size : ℕ
slot_size = gen_offset + 1

-- `eeprom_cache`, `eeprom_dirty`
pub record Cached : Type 0 where
  pub cache : List ℕ
  pub dirty : Bool

unfoldable pub eeprom_read_byte : ℕ → Cached → ℕ
eeprom_read_byte addr c = if leb eeprom_size addr then 0xFF else get_or c.cache addr 0

unfoldable pub eeprom_write_byte : ℕ → ℕ → Cached → Cached
eeprom_write_byte addr val c =
    if leb eeprom_size addr then c else record c { cache = set c.cache addr (u8 val); dirty = true }

unfoldable pub eeprom_update_byte : ℕ → ℕ → Cached → Cached
eeprom_update_byte addr val c =
    if leb eeprom_size addr
    then c
    else if get_or c.cache addr 0 == u8 val
    then c
    else record c { cache = set c.cache addr (u8 val); dirty = true }

module _ (chip : FlashChip) where
  open chip use {Flash, base_addr, erase_sector, write_bytes, read_bytes}

  -- EEPROM_NUM_SLOTS
  abbrev pub num_slots : ℕ
  num_slots = chip.size / slot_size

  abbrev pub slot_addr : ℕ → ℕ
  slot_addr slot = base_addr + slot * slot_size

  -- The generation byte of a slot.
  abbrev pub gen_byte : ℕ → Flash → ℕ
  gen_byte slot f = get_or (read_bytes (slot_addr slot + gen_offset) 1 f) 0 0

  -- The loop of `find_current_gen` from `slot` on, `left` slots to go.
  unfoldable pub scan_slots : ℕ → ℕ → ℕ → ℕ → Flash → ℕ
  scan_slots zero slot best current f = current
  scan_slots (suc left) slot best current f =
      let g = gen_byte slot f in
      let newer = not (g == 0xFF) && ltb g best in
      scan_slots left (slot + 1) (if newer then g else best) (if newer then slot else current) f

  unfoldable pub find_current_gen : Flash → ℕ
  find_current_gen f = scan_slots num_slots 0 0xFF 0 f

  -- The result is the slot and the flash.
  unfoldable pub find_next_free_slot : ℕ → Flash → ℕ × Flash
  find_next_free_slot current f =
      let next = (current + 1) % num_slots in
      if next == current then (0, erase_sector base_addr f) else (next, f)

  unfoldable pub eeprom_flash_init : Flash → Cached
  eeprom_flash_init f = record {
    cache = read_bytes (slot_addr (find_current_gen f)) eeprom_size f;
    dirty = false;
  }

  unfoldable pub eeprom_flash_sync : Cached → Flash → Cached × Flash
  eeprom_flash_sync c f =
      if not c.dirty
      then (c, f)
      else (let current = find_current_gen f in
          let (next, f1) = find_next_free_slot current f in
          let f2 = write_bytes (slot_addr next) c.cache f1 in
          let g = gen_byte current f2 in
          let new_gen = if g == 0xFF then 0xFE else u8 (g + 255) in
          let f3 = write_bytes (slot_addr next + gen_offset) (new_gen ∷ []) f2 in
          (record c { dirty = false }, f3))
