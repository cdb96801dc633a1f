-- ===== src/Examples.antt =====
-- The firmware at concrete inputs: a ring, a volume and a card of `Bench`.
mod Card
mod Mount
mod Logging
mod Slots
mod Commands
mod Chip
mod Serial
mod Flush
mod MainLoop
mod Directory
mod Opening
use barelog.Prelude.{
  ◌⊎◌, leb, not, ◌&&◌, ◌||◌, ℕ, ◌∙◌, suc, ◌+◌, ◌*◌, ◌/◌, ◌≤◌, ◌<◌, ◌≡◌, ◌≢◌, refl, true, false, inl,
  Option, some, List, [], ◌∷◌, ◌++◌, arith, length, get_or, set, take, drop, replicate, ltb, ◌==◌,
  if◌then◌else◌, u8, length-replicate, length-set,
}
use barelog.Prelude.Run.{ok}
use barelog.Uart.{Uart, available, calc_ubrr, f_cpu, rx_isr, sanitize_baud, uart_consume, uart_init}
use barelog.Uart.Baud.{ubrr, uart_init_rate}
use barelog.Uart.Contents.{IsValid, contents}
use barelog.Uart.Events.{rx, consume, queue_run, run, run_refines}
use barelog.Eeprom.{cells}
use barelog.Config.{
  Config, config_defaults, config_load, config_prealloc_bytes, config_read, config_save,
}
use barelog.Config.Prealloc.{config_prealloc_bytes_bounds}
use barelog.Config.Image.{InRange, config_load-config_save, config_load_stable, config_save-layout}
use barelog.Machine.{Machine, Fat32Vol}
use barelog.Bench.{bench, cells-IsMemory, memory_card-IsReliable}
use barelog.Fat.{fat_read_entry, fat_write_entry}
use barelog.Fat.Entry.{Fits, HasEntry, fat_entry, fat_read_entry_lem, loaded}
use barelog.Fat.Entry.View.{fat_write_entry-updates}
use barelog.Fat.Entry.Write.{Mirrored, fat_write_entry-Mirrored, with_disk}
use barelog.Fat.Log.Append.{Span, fat32_append_sector, opt_bytes, span_bytes}
use barelog.Fat.Log.Open.{recovered}
use barelog.Logger.{log_process, save_recovery, scan_escape, spans, pad_sector, escape, drained}
use barelog.Logger.Drained.{
  appended, drained_to, fat32_append_sector_room, log_process_lem, scanned,
}
use barelog.Logger.Escape.{Completes, scan_escape-append, scan_escape_complete, scan_escape_sound}
use barelog.Logger.Pad.Sector.{pad_sector-padded, pad_sector_corrupts, padded}
use barelog.Logger.Recovery.{save_recovery-recovered}
use barelog.Logger.Spans.{spans-contents}
use barelog.Fat.Trim.{fat32_trim_free, fat32_trim_full}
use barelog.Fat.Trim.Free.{IsFree, TrimFits}
use barelog.Fat.Trim.Whole.{fat32_trim_free_spares, fat32_trim_full_spares}
use barelog.Repl.{repl_putu32}
use barelog.Repl.Digits.{decimal, repl_putu32-decimal}
use barelog.EepromFlash.{Cached, eeprom_read_byte, eeprom_update_byte, eeprom_write_byte}
use barelog.EepromFlash.Cache.{eeprom_read-write}
use barelog.Spi.{Bus, Slave}
use barelog.Sd.{sd_read_sector, sd_write_sector, sd_write_sector_zc, sd_write_zero_sector, sd_erase}
use barelog.Sd.Init.{sd_init}
use barelog.Sd.Select.{Releases, sd-Releases}
use barelog.Sd.Writes.{length-sd_read_sector, writes_agree}

-- 600 bytes across the wrap.
abbrev pub full_ring : Uart
full_ring = record { ring = replicate 1024 0x41; ring_head = 100; ring_tail = 524; led = false }

pub full_ring-IsValid : IsValid full_ring
full_ring-IsValid = record {
  size = length-replicate {A = ℕ} 1024 0x41;
  head_in = omega arith;
  tail_in = omega arith;
}

abbrev arrivals : List barelog.Uart.Events.Event
arrivals = rx 0x30 ∷ consume 512 ∷ rx 0x31 ∷ consume 500 ∷ rx 0x32 ∷ []

run_refines_example :
    IsValid (run arrivals full_ring)
    × (contents (run arrivals full_ring) ≡ queue_run arrivals (contents full_ring))
run_refines_example = run_refines arrivals full_ring-IsValid

uart_init_rate_example :
    let d = ubrr (uart_init 57600) in
    let b = sanitize_baud 57600 in
    (d + 1 ≡ 16000000 / (8 * b))
    × (8 * (d + 1) * b ≤ f_cpu)
    × (100 * f_cpu < 106 * (8 * (d + 1) * b))
uart_init_rate_example = uart_init_rate 57600

abbrev pub some_config : Config
some_config = record {
  baud = 57600;
  esc_char = 26;
  esc_count = 3;
  log_num = 300;
  flags = 1;
  prealloc_code = 4;
}

some_config-InRange : InRange some_config
some_config-InRange = omega arith

abbrev pub blank : ℕ → ℕ
blank a = 0xFF

config_save-layout_example :
    u8 (config_save cells some_config blank 11) ≡ barelog.Config.Image.layout some_config 0xFF 11
config_save-layout_example =
    config_save-layout cells cells-IsMemory some_config blank 11 (omega arith)

config_load-config_save_example :
    config_load cells (config_save cells some_config blank)
    ≡ (some_config, config_save cells some_config blank)
config_load-config_save_example =
    config_load-config_save cells cells-IsMemory some_config blank some_config-InRange

config_load_stable_example :
    let (c, m') = config_load cells blank in
    InRange c
    × (config_load cells m' ≡ (c, m'))
    × (c ≡ (
        if cells.read_dword 0 blank == barelog.Config.eeprom_magic
        then config_read cells blank
        else config_defaults))
config_load_stable_example = config_load_stable cells cells-IsMemory blank

abbrev pub volume : Fat32Vol
volume = record {
  fat_lba = 32;
  fat_sz32 = 100;
  data_lba = 232;
  root_clus = 2;
  part_lba = 16;
  tot_sec = 12000;
  sec_per_clus = 1;
  num_fats = 2;
}

volume-Fits : Fits volume 65536
volume-Fits = omega arith

abbrev pub machine : Machine bench
machine = record {
  uart = full_ring;
  vol = volume;
  logfile = record {
    first_clus = 3;
    cur_lba = 240;
    end_lba = 250;
    dir_lba = 232;
    dir_offset = 64;
    bytes_written = 3584;
    prealloc_size = 1048576;
    last_clus = 20;
  };
  cfg = some_config;
  esc_seen = 0;
  flush_pending = false;
  tcnt1 = 100;
  disk = λ l. replicate 512 0;
  eeprom = blank;
}

pub full_ring_size : length machine.uart.ring ≡ 1024
full_ring_size = length-replicate {A = ℕ} 1024 0x41

fat_write_entry-updates_example :
    (ring : List ℕ) × (d : bench.dev.Disk) × (fat_write_entry bench 200 201 machine
      ≡ (ok tt, with_disk bench ring d machine))
    × (length ring ≡ 1024)
    × ((g other : ℕ)
        → g < 2
        → HasEntry volume other
        → fat_entry bench memory_card-IsReliable volume d g other ≡ (
            if other == 200
            then 201
            else fat_entry bench memory_card-IsReliable volume machine.disk g other))
unfolding memory_card-IsReliable
fat_write_entry-updates_example =
    fat_write_entry-updates bench memory_card-IsReliable 200 201 machine volume-Fits (omega arith)
      full_ring_size (omega arith)

log_process_lem_example :
    (log_process bench (suc (suc 0)) 9 machine ≡ (
      if ltb (available full_ring) 512
      then (ok drained, machine)
      else if (scanned bench memory_card-IsReliable machine).0
      then (
        ok escape,
        record machine { esc_seen = (scanned bench memory_card-IsReliable machine).1 },
      )
      else (ok drained, drained_to bench memory_card-IsReliable machine)))
    × (contents (log_process bench (suc (suc 0)) 9 machine).1.uart ≡ (
        if ltb (available full_ring) 512 || (scanned bench memory_card-IsReliable machine).0
        then contents full_ring
        else drop 512 (contents full_ring)))
unfolding memory_card-IsReliable
log_process_lem_example =
    log_process_lem bench memory_card-IsReliable 0 9 machine full_ring-IsValid (omega arith)
      (omega arith)
