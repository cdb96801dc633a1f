-- ===== src/Fat/Log/Ready.antt =====
-- The memory that the FAT functions work on, with the FAT as a map from clusters to entries.
use barelog.Prelude.{ℕ, ◌*◌, ◌^◌, ◌≤◌, ◌<◌, ◌≡◌, ◌∙◌, arith, length, drop, overlay, length-overlay}
use barelog.Prelude.Bytes.{drop-overlay}
use barelog.Prelude.Run.{ok}
use barelog.Device.{IsReliable}
use barelog.Machine.{Hardware, Machine, Fat32Vol}
use barelog.Fat.{fat_read_entry}
use barelog.Fat.Entry.{Fits, copy_sector, fat_entry, fat_read_entry_lem}
use barelog.Fat.Entry.Write.{with_disk}

module _ (hw : Hardware) (rel : IsReliable hw.dev) where
  open rel use {capacity, sector, length-sector}

  -- The clusters that the FAT has entries for.
  abbrev pub clusters : Machine hw → ℕ
  clusters m = m.vol.fat_sz32 * 128

  -- The FAT on its first copy.
  abbrev pub fat_of : Fat32Vol → hw.dev.Disk → ℕ → ℕ
  fat_of vol d = fat_entry hw rel vol d 0

  -- The memory is fit for the FAT functions.
  pub record Ready (m : Machine hw) : Type 0 where
    pub fits : Fits m.vol capacity
    pub size : length m.uart.ring ≡ 1024
    pub entries : m.vol.fat_sz32 * 128 ≤ 2 ^ 28

  -- What reading a cluster's entry leaves.
  abbrev pub after_read : ℕ → Machine hw → Machine hw
  after_read c m =
      with_disk hw (overlay (sector m.disk (copy_sector m.vol c 0)) m.uart.ring) m.disk m

  pub after_read-Ready : (c : ℕ) (m : Machine hw) → Ready m → Ready (after_read c m)
  after_read-Ready c m r = record {
    fits = r.fits;
    size = length-overlay (sector m.disk (copy_sector m.vol c 0)) m.uart.ring ∙ r.size;
    entries = r.entries;
  }

  -- Reading an entry leaves the second half of the ring.
  pub read_upper :
      (c : ℕ) (m : Machine hw) → drop 512 (after_read c m).uart.ring ≡ drop 512 m.uart.ring
  read_upper c m =
      let s : ℕ = copy_sector m.vol c 0 in
      drop-overlay 512 (sector m.disk s) m.uart.ring (omega (arith, length-sector m.disk s))

  pub read_lem :
      (c : ℕ) (m : Machine hw)
      → Ready m
      → c < clusters m
      → fat_read_entry hw c m ≡ (ok (fat_of m.vol m.disk c), after_read c m)
  read_lem c m r lt = fat_read_entry_lem hw rel c m r.fits (omega arith) r.size
