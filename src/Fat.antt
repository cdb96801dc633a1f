-- ===== src/Fat.antt =====
-- fat32_priv.h, fat32_state.c and fat32_vol.c: cluster arithmetic, FAT entry I/O, volume getters.
pub mod Entry
pub mod Mount
pub mod Log
pub mod Trim
use barelog.Prelude.{
  ℕ, zero, suc, ◌+◌, ◌*◌, ◌/◌, ◌%◌, List, u8, u16, u32, sub32, shr, low_bits, high_nibble,
  from_le32, get_or, set, bit_or,
}
use barelog.Prelude.Run.{Run, pure, ◌>>=◌, ◌>>◌}
use barelog.Machine.{Hardware, Machine, Fat32Vol, set_ring, gets, modify, read_sector, write_sector}

abbrev pub clus_to_lba : Fat32Vol → ℕ → ℕ
clus_to_lba vol clus = u32 (vol.data_lba + u32 (sub32 clus 2 * vol.sec_per_clus))

abbrev pub fat_sector : Fat32Vol → ℕ → ℕ
fat_sector vol clus = u32 (vol.fat_lba + clus / 128)

abbrev pub fat_offset : ℕ → ℕ
fat_offset clus = u16 (clus % 128 * 4)

-- The end-of-chain bound 0x0FFFFFF8 and the mask 0x0FFFFFFF of a 28-bit entry.
abbrev pub end_of_chain : ℕ
end_of_chain = 0x0FFFFFF8

abbrev pub chain_end_mark : ℕ
chain_end_mark = 0x0FFFFFFF

-- The four bytes at `off`, low byte first, masked to 28 bits.
abbrev pub entry_at : List ℕ → ℕ → ℕ
entry_at buf off =
    low_bits
      (from_le32 (get_or buf off 0) (get_or buf (off + 1) 0) (get_or buf (off + 2) 0)
        (get_or buf (off + 3) 0))
      28

-- The four stores of `fat_write_entry`; the upper nibble of the last byte is kept.
abbrev pub patch_entry : List ℕ → ℕ → ℕ → List ℕ
patch_entry buf off val =
    let b1 = set buf off (u8 val) in
    let b2 = set b1 (off + 1) (u8 (shr val 8)) in
    let b3 = set b2 (off + 2) (u8 (shr val 16)) in
    set b3 (off + 3) (u8 (bit_or (high_nibble (get_or b3 (off + 3) 0)) (u8 (shr val 24))))

module _ (hw : Hardware) where
  unfoldable pub fat_read_entry : ℕ → Run (Machine hw) ℕ
  fat_read_entry clus m =
      (do read_sector (fat_sector m.vol clus); gets (λ m. entry_at m.uart.ring (fat_offset clus))) m

  -- The round for one FAT copy.
  unfoldable pub write_copy : ℕ → ℕ → ℕ → Run (Machine hw) (Unit {0})
  write_copy clus val fsec = do
    read_sector fsec
    modify (λ m. set_ring (patch_entry m.uart.ring (fat_offset clus) val) m)
    write_sector fsec

  -- `for (f = 0; f < vol.num_fats; f++)` with `left` rounds to go; `f` cannot wrap.
  unfoldable pub write_copies : ℕ → ℕ → ℕ → ℕ → Run (Machine hw) (Unit {0})
  write_copies zero f clus val m = pure tt m
  write_copies (suc left) f clus val m =
      (do
        write_copy clus val (u32 (fat_sector m.vol clus + u32 (f * m.vol.fat_sz32)))
        write_copies left (f + 1) clus val)
        m

  unfoldable pub fat_write_entry : ℕ → ℕ → Run (Machine hw) (Unit {0})
  fat_write_entry clus val m = write_copies m.vol.num_fats 0 clus val m

  -- fat32_vol.c
  abbrev pub fat32_vol_data_lba : Machine hw → ℕ
  fat32_vol_data_lba m = m.vol.data_lba

  abbrev pub fat32_vol_fat_lba : Machine hw → ℕ
  fat32_vol_fat_lba m = m.vol.fat_lba

  abbrev pub fat32_vol_fat_sz32 : Machine hw → ℕ
  fat32_vol_fat_sz32 m = m.vol.fat_sz32

  abbrev pub fat32_vol_part_lba : Machine hw → ℕ
  fat32_vol_part_lba m = m.vol.part_lba

  abbrev pub fat32_vol_tot_sec : Machine hw → ℕ
  fat32_vol_tot_sec m = m.vol.tot_sec

  abbrev pub fat32_vol_num_fats : Machine hw → ℕ
  fat32_vol_num_fats m = m.vol.num_fats

  abbrev pub fat32_vol_sec_per_clus : Machine hw → ℕ
  fat32_vol_sec_per_clus m = m.vol.sec_per_clus
