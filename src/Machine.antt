-- ===== src/Machine.antt =====
-- The memory of the firmware: the ring with its indices, the volume, the open log file, the
-- configuration, the logging state, and the two devices. fat32_*.c reads sectors into
-- `ring[0..511]`, so the ring stands in this state beside the disk.
use barelog.Prelude.{ℕ, Bool, List, overlay, take}
use barelog.Prelude.Run.{Result, ok, err, out_of_fuel, Run}
use barelog.Device.{BlockDevice}
use barelog.Eeprom.{Eeprom}
use barelog.Config.{Config}
use barelog.Uart.{Uart}

pub record Hardware : Type 1 where
  pub dev : BlockDevice
  pub ee : Eeprom

-- `struct fat32_vol`
pub record Fat32Vol : Type 0 where
  pub fat_lba : ℕ
  pub fat_sz32 : ℕ
  pub data_lba : ℕ
  pub root_clus : ℕ
  pub part_lba : ℕ
  pub tot_sec : ℕ
  pub sec_per_clus : ℕ
  pub num_fats : ℕ

-- `struct fat32_logfile`
pub record Fat32Logfile : Type 0 where
  pub first_clus : ℕ
  pub cur_lba : ℕ
  pub end_lba : ℕ
  pub dir_lba : ℕ
  pub dir_offset : ℕ
  pub bytes_written : ℕ
  pub prealloc_size : ℕ
  pub last_clus : ℕ

-- `esc_seen` and `flush_pending` are `log_state`; `tcnt1` is the Timer1 counter.
pub record Machine (hw : Hardware) : Type 0 where
  pub uart : Uart
  pub vol : Fat32Vol
  pub logfile : Fat32Logfile
  pub cfg : Config
  pub esc_seen : ℕ
  pub flush_pending : Bool
  pub tcnt1 : ℕ
  pub disk : hw.dev.Disk
  pub eeprom : hw.ee.Mem

module _ {hw : Hardware} where
  abbrev pub set_ring : List ℕ → Machine hw → Machine hw
  set_ring r m = record m { uart = record m.uart { ring = r } }

  abbrev pub gets : {A : Type 0} → (Machine hw → A) → Run (Machine hw) A
  gets f m = (ok (f m), m)

  abbrev pub modify : (Machine hw → Machine hw) → Run (Machine hw) (Unit {0})
  modify f m = (ok tt, f m)

  -- What a read does to the memory, given its outcome.
  abbrev pub took_sector :
      Machine hw → Result (List ℕ) × hw.dev.Disk → Result (Unit {0}) × Machine hw
  took_sector m (ok bytes, d) =
      (ok tt, record m { uart = record m.uart { ring = overlay bytes m.uart.ring }; disk = d })
  took_sector m (err n, d) = (err n, record m { disk = d })
  took_sector m (out_of_fuel, d) = (out_of_fuel, record m { disk = d })

  abbrev pub put_sector :
      Machine hw → Result (Unit {0}) × hw.dev.Disk → Result (Unit {0}) × Machine hw
  put_sector m (r, d) = (r, record m { disk = d })

  -- `sd_read_sector(lba, ring)`
  abbrev pub read_sector : ℕ → Run (Machine hw) (Unit {0})
  read_sector lba m = took_sector m (hw.dev.sd_read_sector lba m.disk)

  -- `sd_write_sector(lba, ring)`
  abbrev pub write_sector : ℕ → Run (Machine hw) (Unit {0})
  write_sector lba m = put_sector m (hw.dev.sd_write_sector lba (take 512 m.uart.ring) m.disk)

  -- `sd_write_zero_sector(lba)`
  abbrev pub write_zero_sector : ℕ → Run (Machine hw) (Unit {0})
  write_zero_sector lba m = put_sector m (hw.dev.sd_write_zero_sector lba m.disk)

  -- `sd_erase(lba_start, lba_end)`, which always reports success
  abbrev pub erase : ℕ → ℕ → Run (Machine hw) (Unit {0})
  erase s e m = (ok tt, record m { disk = hw.dev.sd_erase s e m.disk })
