-- ===== src/Device.antt =====
-- The SD card as fat32_*.c sees it: the six operations of sd.h. Sd models how sd.c implements
-- them over SPI.
use barelog.Prelude.{ℕ, ◌≤◌, ◌<◌, ◌≡◌, ◌⊎◌, List, ◌++◌, length, replicate, ◌==◌, if◌then◌else◌}
use barelog.Prelude.Run.{ok, err, Run}

pub record BlockDevice : Type 1 where
  pub Disk : Type 0
  pub sd_init : Run Disk (Unit {0})
  pub sd_read_sector : ℕ → Run Disk (List ℕ)
  pub sd_write_sector : ℕ → List ℕ → Run Disk (Unit {0})
  pub sd_write_sector_zc : ℕ → List ℕ → List ℕ → Run Disk (Unit {0})
  pub sd_write_zero_sector : ℕ → Run Disk (Unit {0})
  pub sd_erase : ℕ → ℕ → Disk → Disk

-- A card in working order: below its capacity a read returns the sector's 512 bytes, a write
-- replaces them and no others, and an erase changes only the sectors of its range. At or above the
-- capacity every access is refused. This is assumed of the card and of sd.c together: the disk is
-- what the card stores, without the lines of the bus, which a transfer over `Sd` also changes.
pub record IsReliable (dev : BlockDevice) : Type 0 where
  pub capacity : ℕ
  pub sector : dev.Disk → ℕ → List ℕ
  pub store : ℕ → List ℕ → dev.Disk → dev.Disk
  pub length-sector : (d : dev.Disk) (l : ℕ) → length (sector d l) ≡ 512
  pub read_ok :
      (l : ℕ) (d : dev.Disk) → l < capacity → dev.sd_read_sector l d ≡ (ok (sector d l), d)
  pub read_end : (l : ℕ) (d : dev.Disk) → capacity ≤ l → dev.sd_read_sector l d ≡ (err 5, d)
  pub write_ok :
      (l : ℕ) (b : List ℕ) (d : dev.Disk)
      → l < capacity
      → length b ≡ 512
      → dev.sd_write_sector l b d ≡ (ok tt, store l b d)
  pub write_end :
      (l : ℕ) (b : List ℕ) (d : dev.Disk) → capacity ≤ l → dev.sd_write_sector l b d ≡ (err 4, d)
  pub write_zc_lem :
      (l : ℕ) (a b : List ℕ) (d : dev.Disk)
      → length (a ++ b) ≡ 512
      → dev.sd_write_sector_zc l a b d ≡ dev.sd_write_sector l (a ++ b) d
  pub write_zero_lem :
      (l : ℕ) (d : dev.Disk)
      → dev.sd_write_zero_sector l d ≡ dev.sd_write_sector l (replicate 512 0) d
  pub sector-store :
      (l k : ℕ) (b : List ℕ) (d : dev.Disk)
      → length b ≡ 512
      → sector (store l b d) k ≡ (if l == k then b else sector d k)
  pub sector-erase :
      (s e k : ℕ) (d : dev.Disk) → (k < s) ⊎ (e < k) → sector (dev.sd_erase s e d) k ≡ sector d k
