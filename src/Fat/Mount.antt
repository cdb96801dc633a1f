-- ===== src/Fat/Mount.antt =====
-- fat32_mount.c: from the MBR and the volume boot record to `vol`.
pub mod Volume
use barelog.Prelude.{
  ℕ, zero, suc, ◌+◌, ◌*◌, Bool, not, ◌||◌, List, u32, get_or, ◌==◌, if◌then◌else◌,
}
use barelog.Prelude.Bytes.{get_le16, get_le32}
use barelog.Prelude.Run.{Run, fail, ◌>>=◌, ◌>>◌}
use barelog.Machine.{Hardware, Machine, Fat32Vol, gets, modify, read_sector}

-- Entry `i` of the partition table (`struct mbr_part` at 446 + 16 i): its type and first sector.
abbrev pub part_type : List ℕ → ℕ → ℕ
part_type mbr i = get_or mbr (446 + i * 16 + 4) 0

abbrev pub part_lba_start : List ℕ → ℕ → ℕ
part_lba_start mbr i = get_le32 mbr (446 + i * 16 + 8)

abbrev pub is_fat32_type : ℕ → Bool
is_fat32_type t = t == 0x0B || t == 0x0C

-- `for (i = 0; i < 4; i++)` with its `break`, `left` rounds to go; 0 if no entry fits.
unfoldable pub find_partition : ℕ → ℕ → List ℕ → ℕ
find_partition zero i mbr = 0
find_partition (suc left) i mbr =
    let rest = find_partition left (i + 1) mbr in
    if is_fat32_type (part_type mbr i) then part_lba_start mbr i else rest

-- `struct bpb`: the offsets of the fields that are read.
abbrev pub bytes_per_sec : List ℕ → ℕ
bytes_per_sec vbr = get_le16 vbr 11

abbrev pub bpb_sec_per_clus : List ℕ → ℕ
bpb_sec_per_clus vbr = get_or vbr 13 0

abbrev pub rsvd_sec : List ℕ → ℕ
rsvd_sec vbr = get_le16 vbr 14

abbrev pub bpb_num_fats : List ℕ → ℕ
bpb_num_fats vbr = get_or vbr 16 0

abbrev pub fat_sz16 : List ℕ → ℕ
fat_sz16 vbr = get_le16 vbr 22

abbrev pub tot_sec32 : List ℕ → ℕ
tot_sec32 vbr = get_le32 vbr 32

abbrev pub bpb_fat_sz32 : List ℕ → ℕ
bpb_fat_sz32 vbr = get_le32 vbr 36

abbrev pub bpb_root_clus : List ℕ → ℕ
bpb_root_clus vbr = get_le32 vbr 44

-- The stores into `vol`.
abbrev pub volume : ℕ → List ℕ → Fat32Vol
volume part_lba vbr =
    let fat_lba = u32 (part_lba + rsvd_sec vbr) in
    record {
      fat_lba = fat_lba;
      fat_sz32 = bpb_fat_sz32 vbr;
      data_lba = u32 (fat_lba + u32 (bpb_num_fats vbr * bpb_fat_sz32 vbr));
      root_clus = bpb_root_clus vbr;
      part_lba = part_lba;
      tot_sec = tot_sec32 vbr;
      sec_per_clus = bpb_sec_per_clus vbr;
      num_fats = bpb_num_fats vbr;
    }

module _ (hw : Hardware) where
  -- From the check of the volume boot record, in the ring, to the end.
  unfoldable pub mount_vbr : ℕ → Run (Machine hw) (Unit {0})
  mount_vbr part_lba m =
      let vbr = m.uart.ring in
      if not (bytes_per_sec vbr == 512)
      then fail 1 m
      else if not (fat_sz16 vbr == 0) || bpb_fat_sz32 vbr == 0
      then fail 1 m
      else modify (λ m. record m { vol = volume part_lba vbr }) m

  unfoldable pub fat32_mount : Run (Machine hw) (Unit {0})
  fat32_mount = do
    read_sector 0
    part_lba ← gets (λ m. find_partition 4 0 m.uart.ring)
    if part_lba == 0 then fail 1 else (do read_sector part_lba; mount_vbr part_lba)
