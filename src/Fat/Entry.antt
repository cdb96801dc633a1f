-- ===== src/Fat/Entry.antt =====
-- FAT entries on a card in working order: what `fat_read_entry` returns, and what
-- `fat_write_entry` changes on each copy of the FAT.
pub mod Bytes
pub mod Write
pub mod View
use barelog.Prelude.{
  ℕ, suc, ◌+◌, ◌*◌, ◌/◌, ◌%◌, ◌^◌, ◌≤◌, ◌<◌, ◌≡◌, refl, ◌∙◌, ap, List, arith, length, overlay, u32,
}
use barelog.Prelude.Run.{ok}
use barelog.Device.{IsReliable}
use barelog.Machine.{Hardware, Machine, Fat32Vol, set_ring, took_sector}
use barelog.Fat.{fat_sector, fat_offset, entry_at, fat_read_entry}
use barelog.Fat.Entry.Bytes.{entry_at-overlay}

-- The FAT copies lie on the card, and the ring has its length.
pub record Fits (vol : Fat32Vol) (capacity : ℕ) : Type 0 where
  pub some_fat : 1 ≤ vol.num_fats
  pub fats_fit : vol.fat_lba + vol.num_fats * vol.fat_sz32 ≤ capacity
  pub words : capacity ≤ 2 ^ 32

-- The cluster's entry lies inside each FAT copy.
abbrev pub HasEntry : Fat32Vol → ℕ → Type 0
HasEntry vol clus = clus / 128 < vol.fat_sz32

-- The sector of FAT copy `f` that holds the entry of `clus`.
abbrev pub copy_sector : Fat32Vol → ℕ → ℕ → ℕ
copy_sector vol clus f = vol.fat_lba + clus / 128 + f * vol.fat_sz32

pub copy_sector-lt :
    {vol : Fat32Vol} {capacity : ℕ} (clus f : ℕ)
    → Fits vol capacity
    → HasEntry vol clus
    → f < vol.num_fats
    → copy_sector vol clus f < capacity
copy_sector-lt clus f fits h lt = grind arith

pub fat_sector_lem :
    {vol : Fat32Vol} {capacity : ℕ} (clus : ℕ)
    → Fits vol capacity
    → HasEntry vol clus
    → fat_sector vol clus ≡ copy_sector vol clus 0
fat_sector_lem clus fits h = let lt = copy_sector-lt clus 0 fits h fits.some_fat in omega arith

module _ (hw : Hardware) (rel : IsReliable hw.dev) where
  open rel use {capacity, sector, length-sector, read_ok}

  -- The entry of `clus` on FAT copy `f`.
  abbrev pub fat_entry : Fat32Vol → hw.dev.Disk → ℕ → ℕ → ℕ
  fat_entry vol d f clus = entry_at (sector d (copy_sector vol clus f)) (fat_offset clus)

  -- The memory after sector `l` has been read into the ring.
  abbrev pub loaded : ℕ → Machine hw → Machine hw
  loaded l m = set_ring (overlay (sector m.disk l) m.uart.ring) m

  -- Reading the entry of a cluster returns the 28-bit value on the first FAT copy, and changes
  -- nothing but the scratch half of the ring.
  pub fat_read_entry_lem :
      (clus : ℕ) (m : Machine hw)
      → Fits m.vol capacity
      → HasEntry m.vol clus
      → length m.uart.ring ≡ 1024
      → fat_read_entry hw clus m
        ≡ (ok (fat_entry m.vol m.disk 0 clus), loaded (copy_sector m.vol clus 0) m)
  unfolding fat_read_entry
  fat_read_entry_lem clus m fits h size =
      rw
        (
          fat_sector_lem clus fits h,
          read_ok (copy_sector m.vol clus 0) m.disk (copy_sector-lt clus 0 fits h fits.some_fat),
        )
        (ap (λ v. (ok v, loaded (copy_sector m.vol clus 0) m))
          (entry_at-overlay (sector m.disk (copy_sector m.vol clus 0)) m.uart.ring (fat_offset clus)
            (omega (arith, length-sector m.disk (copy_sector m.vol clus 0)))
            (omega (arith, length-sector m.disk (copy_sector m.vol clus 0)))))
