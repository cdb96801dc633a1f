-- ===== src/Examples/Logging.antt =====
-- The logging loop, the trim, command mode and the card driver, at concrete inputs.
use barelog.Prelude.{
  ◌⊎◌, leb, not, ◌&&◌, ◌||◌, ℕ, ◌∙◌, ◌+◌, ◌≤◌, ◌<◌, ◌≡◌, ◌≢◌, refl, true, false, inl, some, List,
  [], ◌∷◌, ◌++◌, arith, length, get_or, set, take, replicate, ltb, ◌==◌, if◌then◌else◌, u8,
  length-replicate, length-set,
}
use barelog.Prelude.Run.{ok}
use barelog.Uart.{Uart}
use barelog.Uart.Contents.{IsValid, contents}
use barelog.Eeprom.{cells}
use barelog.Config.{config_read}
use barelog.Bench.{bench, cells-IsMemory, memory_card-IsReliable}
use barelog.Fat.Entry.Write.{with_disk}
use barelog.Fat.Log.Open.{recovered}
use barelog.Logger.{save_recovery, scan_escape, pad_sector}
use barelog.Logger.Escape.{Completes, scan_escape_complete, scan_escape_sound}
use barelog.Logger.Pad.Sector.{pad_sector_corrupts, padded}
use barelog.Logger.Recovery.{save_recovery-recovered}
use barelog.Fat.Trim.{fat32_trim_free, fat32_trim_full}
use barelog.Fat.Trim.Free.{IsFree, TrimFits}
use barelog.Fat.Trim.Whole.{fat32_trim_free_spares, fat32_trim_full_spares}
use barelog.Repl.{repl_putu32}
use barelog.Repl.Digits.{decimal, repl_putu32-decimal}
use barelog.EepromFlash.{Cached, eeprom_read_byte, eeprom_update_byte, eeprom_write_byte}
use barelog.EepromFlash.Cache.{eeprom_read-write}
use barelog.Spi.{Bus, Slave}
use barelog.Sd.{sd_read_sector, sd_write_sector, sd_write_sector_zc, sd_write_zero_sector, sd_erase}
use barelog.Sd.Init.{sd_init}
use barelog.Sd.Select.{Releases, sd-Releases}
use barelog.Sd.Writes.{writes_agree}
use barelog.Examples.{some_config, blank, volume, machine, full_ring_size}

save_recovery-recovered_example :
    let e = save_recovery bench 70000 blank in
    (recovered bench (record machine { eeprom = e }) ≡ 70000)
    × (config_read cells e ≡ config_read cells blank)
save_recovery-recovered_example =
    save_recovery-recovered bench cells-IsMemory 70000 machine (omega arith)

abbrev typed : List ℕ
typed = 26 ∷ 26 ∷ 65 ∷ []

abbrev typed_on : List ℕ
typed_on = 26 ∷ 26 ∷ 26 ∷ []

scan_escape_sound_example : Completes some_config 1 typed
unfolding scan_escape
scan_escape_sound_example = scan_escape_sound some_config 1 typed (omega arith) (omega arith) refl

scan_escape_complete_example : (scan_escape some_config 0 typed_on).0 ≡ true
scan_escape_complete_example =
    scan_escape_complete some_config 0 typed_on (omega arith) (omega arith)
      (record { before = []; run = 3; behind = []; splits = refl; completes = inl refl })

-- 400 bytes, 100 of them behind the wrap.
abbrev pub short_ring : Uart
short_ring = record { ring = replicate 1024 0x41; ring_head = 100; ring_tail = 724; led = false }

pub short_ring-IsValid : IsValid short_ring
short_ring-IsValid = record {
  size = length-replicate {A = ℕ} 1024 0x41;
  head_in = omega arith;
  tail_in = omega arith;
}

-- Three bytes, two of them behind the wrap.
abbrev split_ring : Uart
split_ring = record {
  ring = set (replicate 1024 0x41) 1 0x42;
  ring_head = 2;
  ring_tail = 1023;
  led = false;
}

split_ring-IsValid : IsValid split_ring
split_ring-IsValid = record {
  size = length-set {A = ℕ} (replicate 1024 0x41) 1 0x42 ∙ length-replicate {A = ℕ} 1024 0x41;
  head_in = omega arith;
  tail_in = omega arith;
}

split_apart : get_or (contents split_ring) 2 0 ≢ get_or (contents split_ring) 1 0
split_apart e = absurd (omega (arith, e))

pad_sector_corrupts_example : take 512 (pad_sector 1023 3 split_ring.ring) ≢ padded split_ring
pad_sector_corrupts_example =
    pad_sector_corrupts split_ring split_ring-IsValid (omega arith) 2 (omega arith) (omega arith)
      (omega arith) split_apart

abbrev cached : Cached
cached = record { cache = replicate 256 0; dirty = false }

eeprom_read-write_example :
    let w = eeprom_write_byte 16 0x141 cached in
    let p = eeprom_update_byte 16 0x141 cached in
    let expected : ℕ =
      if leb 256 17 then 0xFF else if 16 == 17 then u8 0x141 else eeprom_read_byte 17 cached in
    (eeprom_read_byte 17 w ≡ expected)
    × (eeprom_read_byte 17 p ≡ expected)
    × (w.dirty ≡ (cached.dirty || ltb 16 256))
    × (p.dirty ≡ (cached.dirty || (ltb 16 256 && not (eeprom_read_byte 16 cached == u8 0x141))))
    × (length w.cache ≡ 256)
    × (length p.cache ≡ 256)
eeprom_read-write_example = eeprom_read-write 16 17 0x141 cached (length-replicate {A = ℕ} 256 0)

-- A card that answers every command by 0x00, then by the data token, then by 0xFF.
abbrev pub willing : Slave
willing = record {
  Card = ℕ;
  exchange = λ cs byte n. (if n == 6 then 0x00 else if n == 7 then 0xFE else 0xFF, n + 1);
  delay = λ n. n;
}

abbrev pub bus : Bus willing
bus = record { selected = false; fast = true; sdhc = true; card = 0 }

sd-Releases_example :
    Releases willing sd_init
    × ((lba : ℕ) → Releases willing (sd_read_sector lba))
    × ((lba : ℕ) (buf : List ℕ) → Releases willing (sd_write_sector lba buf))
    × ((lba : ℕ) (a b : List ℕ) → Releases willing (sd_write_sector_zc lba a b))
    × ((lba : ℕ) → Releases willing (sd_write_zero_sector lba))
    × ((s e : ℕ) → Releases willing (sd_erase s e))
sd-Releases_example = sd-Releases willing

abbrev part_a : List ℕ
part_a = replicate 300 0x41

abbrev part_b : List ℕ
part_b = replicate 212 0x42

writes_agree_example :
    (sd_write_sector_zc 7 part_a part_b bus ≡ sd_write_sector 7 (part_a ++ part_b) bus)
    × (sd_write_zero_sector 7 bus ≡ sd_write_sector 7 (replicate 512 0) bus)
writes_agree_example =
    writes_agree willing 7 part_a part_b bus
      (omega (arith, length-replicate {A = ℕ} 300 0x41, length-replicate {A = ℕ} 212 0x42))

volume-TrimFits : TrimFits volume 65536
volume-TrimFits = omega arith

fat32_trim_free_spares_example :
    (ring : List ℕ) × (d : bench.dev.Disk) × (fat32_trim_free bench machine
      ≡ (ok tt, with_disk bench ring d machine))
    × ((s : ℕ)
        → (IsFree bench memory_card-IsReliable volume machine.disk s → ⊥)
        → memory_card-IsReliable.sector d s ≡ memory_card-IsReliable.sector machine.disk s)
unfolding memory_card-IsReliable
fat32_trim_free_spares_example =
    fat32_trim_free_spares bench memory_card-IsReliable machine volume-TrimFits full_ring_size

repl_putu32-decimal_example :
    (ds : List ℕ) × (repl_putu32 4294967295 ≡ some ds) × (decimal 0 ds ≡ some 4294967295)
repl_putu32-decimal_example = repl_putu32-decimal 4294967295 (omega arith)

fat32_trim_full_spares_example :
    (d : bench.dev.Disk) × (fat32_trim_full bench machine ≡ (ok tt, record machine { disk = d }))
    × ((s : ℕ)
        → (s < 232) ⊎ (12016 ≤ s)
        → memory_card-IsReliable.sector d s ≡ memory_card-IsReliable.sector machine.disk s)
fat32_trim_full_spares_example =
    fat32_trim_full_spares bench memory_card-IsReliable machine (omega arith) (omega arith)
