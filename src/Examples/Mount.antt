-- ===== src/Examples/Mount.antt =====
-- A card with a partition table of two entries, the second of them FAT32 at sector 8.
use barelog.Prelude.{
  ℕ, zero, suc, ◌+◌, ◌*◌, ◌<◌, ◌≡◌, refl, false, List, [], ◌∷◌, ◌++◌, arith, replicate, ◌==◌,
  if◌then◌else◌,
}
use barelog.Prelude.Run.{ok}
use barelog.Bench.{bench, memory_card-IsReliable}
use barelog.Fat.Entry.{Fits}
use barelog.Fat.Mount.{is_fat32_type, part_type, volume, fat32_mount}
use barelog.Fat.Mount.Volume.{fat32_mount-Fits}
use barelog.Machine.{Machine}
use barelog.Examples.{machine, full_ring_size}

abbrev table : List ℕ
table = replicate 450 0 ++ (0x83 ∷ replicate 15 0 ++ (0x0C ∷ 0 ∷ 0 ∷ 0 ∷ 8 ∷ []))

-- 512 bytes a sector, 8 sectors a cluster, 32 reserved sectors, 2 FAT copies of 100 sectors.
abbrev boot_record : List ℕ
boot_record =
    replicate 11 0
    ++ (0 ∷ 2 ∷ 8 ∷ 32 ∷ 0 ∷ 2 ∷ replicate 15 0 ++ (0 ∷ 0 ∷ 1 ∷ 0 ∷ 100 ∷ 0 ∷ 0 ∷ 0 ∷ []))

abbrev fresh : Machine bench
fresh = record machine {
  disk = λ l. if l == 0 then table else if l == 8 then boot_record else replicate 512 0;
}

first_type : is_fat32_type (part_type (memory_card-IsReliable.sector fresh.disk 0) 0) ≡ false
unfolding memory_card-IsReliable
first_type = refl

only_second :
    (k : ℕ)
    → k < 1
    → is_fat32_type (part_type (memory_card-IsReliable.sector fresh.disk 0) k) ≡ false
only_second zero h = first_type
only_second (suc k) h = absurd (omega arith)

fat32_mount-Fits_example :
    let (r, m') = fat32_mount bench fresh in
    (r ≡ ok tt)
    × (m'.vol ≡ volume 8 (memory_card-IsReliable.sector fresh.disk 8))
    × (m'.disk ≡ fresh.disk)
    × Fits m'.vol 65536
    × (m'.vol.data_lba ≡ m'.vol.fat_lba + m'.vol.num_fats * m'.vol.fat_sz32)
unfolding memory_card-IsReliable
fat32_mount-Fits_example =
    fat32_mount-Fits bench memory_card-IsReliable 1 fresh full_ring_size (omega arith) refl
      only_second (λ e. omega (arith, e)) (omega arith) refl refl (λ e. omega (arith, e))
      (omega arith) (omega arith) (omega arith)
