-- ===== src/Fat/Mount/Volume.antt =====
-- The volume that `fat32_mount` finds on a card in working order.
use barelog.Prelude.{
  ℕ, zero, suc, ◌+◌, ◌*◌, ◌^◌, ◌≤◌, ◌<◌, ◌≡◌, ◌≢◌, refl, sym, ap, ◌∙◌, true, false, List, arith,
  length, get_or, overlay, get_or-overlay_lt, length-overlay, u32, ==_iff, ne→==,
}
use barelog.Prelude.Run.{ok, and_then}
use barelog.Device.{IsReliable}
use barelog.Machine.{Hardware, Machine, Fat32Vol, read_sector, took_sector}
use barelog.Fat.Entry.{Fits}
use barelog.Fat.Entry.Write.{with_disk}
use barelog.Fat.Mount.{
  part_type, part_lba_start, is_fat32_type, find_partition, bytes_per_sec, rsvd_sec, bpb_num_fats,
  bpb_fat_sz32, fat_sz16, volume, mount_vbr, fat32_mount,
}

-- The first FAT32 entry of a partition table, `left` entries to look at.
find_partition_first :
    (left i j : ℕ) (mbr : List ℕ)
    → i ≤ j
    → j < i + left
    → is_fat32_type (part_type mbr j) ≡ true
    → ((k : ℕ) → k < j → is_fat32_type (part_type mbr k) ≡ false)
    → find_partition left i mbr ≡ part_lba_start mbr j
unfolding find_partition
find_partition_first zero i j mbr lo hi here before = absurd (omega arith)
find_partition_first (suc left) i j mbr lo hi here before =
    elim (native.Mathlib.Decide.ℕ_discrete i j) [
      | yes e ↦ rw (ap (λ x. is_fat32_type (part_type mbr x)) e ∙ here) (ap (part_lba_start mbr) e)
      | no ne ↦
          rw (before i (omega arith))
            (find_partition_first left (i + 1) j mbr (omega arith) (omega arith) here before)
    ]

-- The fields in a sector that was read into the ring.
module _ (s ring : List ℕ) (whole : length s ≡ 512) (size : length ring ≡ 1024) where
  byte : (i : ℕ) → i < 512 → get_or (overlay s ring) i 0 ≡ get_or s i 0
  byte i lt = get_or-overlay_lt s ring i 0 (omega (arith, whole)) (omega (arith, whole, size))

  part_type-overlay : (k : ℕ) → k < 4 → part_type (overlay s ring) k ≡ part_type s k
  part_type-overlay k lt = byte (446 + k * 16 + 4) (omega arith)

  part_lba_start-overlay : (k : ℕ) → k < 4 → part_lba_start (overlay s ring) k ≡ part_lba_start s k
  part_lba_start-overlay k lt = rw (
    byte (446 + k * 16 + 8) (omega arith),
    byte (446 + k * 16 + 8 + 1) (omega arith),
    byte (446 + k * 16 + 8 + 2) (omega arith),
    byte (446 + k * 16 + 8 + 3) (omega arith),
  )

  volume-overlay : (p : ℕ) → volume p (overlay s ring) ≡ volume p s
  volume-overlay p = rw (
    byte 13 (omega arith),
    byte 14 (omega arith),
    byte 15 (omega arith),
    byte 16 (omega arith),
    byte 32 (omega arith),
    byte 33 (omega arith),
    byte 34 (omega arith),
    byte 35 (omega arith),
    byte 36 (omega arith),
    byte 37 (omega arith),
    byte 38 (omega arith),
    byte 39 (omega arith),
    byte 44 (omega arith),
    byte 45 (omega arith),
    byte 46 (omega arith),
    byte 47 (omega arith),
  )

  bytes_per_sec-overlay : bytes_per_sec (overlay s ring) ≡ bytes_per_sec s
  bytes_per_sec-overlay = rw (byte 11 (omega arith), byte 12 (omega arith))

  fat_sz16-overlay : fat_sz16 (overlay s ring) ≡ fat_sz16 s
  fat_sz16-overlay = rw (byte 22 (omega arith), byte 23 (omega arith))

  fat_sz32-overlay : bpb_fat_sz32 (overlay s ring) ≡ bpb_fat_sz32 s
  fat_sz32-overlay =
      rw
        (byte 36 (omega arith), byte 37 (omega arith), byte 38 (omega arith), byte 39 (omega arith))

-- The words of the layout do not wrap on a card of fewer than 2^32 sectors.
placed :
    (p rsvd fats capacity : ℕ)
    → p + rsvd + fats ≤ capacity
    → capacity < 2 ^ 32
    → (u32 (p + rsvd) + fats ≤ capacity) × (u32 (u32 (p + rsvd) + u32 fats) ≡ u32 (p + rsvd) + fats)
placed p rsvd fats capacity h words = (omega arith, omega arith)

module _ (hw : Hardware) (rel : IsReliable hw.dev) where
  open rel use {capacity, sector, length-sector, read_ok}

  mount_vbr_lem :
      (p : ℕ) (m : Machine hw)
      → bytes_per_sec m.uart.ring ≡ 512
      → fat_sz16 m.uart.ring ≡ 0
      → bpb_fat_sz32 m.uart.ring ≢ 0
      → mount_vbr hw p m ≡ (ok tt, record m { vol = volume p m.uart.ring })
  unfolding mount_vbr
  mount_vbr_lem p m sectors fat16 fat32 = rw (
    (==_iff (bytes_per_sec m.uart.ring) 512).1 sectors,
    (==_iff (fat_sz16 m.uart.ring) 0).1 fat16,
    ne→== (bpb_fat_sz32 m.uart.ring) 0 fat32,
  )

  mount_steps :
      (p : ℕ) (m m1 m2 m3 : Machine hw)
      → read_sector 0 m ≡ (ok tt, m1)
      → find_partition 4 0 m1.uart.ring ≡ p
      → p ≢ 0
      → read_sector p m1 ≡ (ok tt, m2)
      → mount_vbr hw p m2 ≡ (ok tt, m3)
      → fat32_mount hw m ≡ (ok tt, m3)
  unfolding fat32_mount
  mount_steps p m m1 m2 m3 mbr part some vbr rest =
      rw (fat32_mount, mbr, and_then, part, ne→== p 0 some) (rw (vbr, and_then) rest)

  -- On a reliable card, where entry `j` is the first FAT32 entry of the partition table in sector 0,
  -- points to a sector on the card, and this sector describes a volume of 512-byte sectors whose FAT
  -- copies, at least one, lie on a card of fewer than 2^32 sectors: `fat32_mount` returns 0, has stored
  -- this volume and left the disk alone; the FAT copies fit the card, and the data region begins
  -- where they end.
  pub fat32_mount-Fits :
      (j : ℕ) (m : Machine hw)
      → let mbr = sector m.disk 0 in
        let p = part_lba_start mbr j in
        let vbr = sector m.disk p in
        length m.uart.ring ≡ 1024
        → j < 4
        → is_fat32_type (part_type mbr j) ≡ true
        → ((k : ℕ) → k < j → is_fat32_type (part_type mbr k) ≡ false)
        → p ≢ 0
        → p < capacity
        → bytes_per_sec vbr ≡ 512
        → fat_sz16 vbr ≡ 0
        → bpb_fat_sz32 vbr ≢ 0
        → 1 ≤ bpb_num_fats vbr
        → p + rsvd_sec vbr + bpb_num_fats vbr * bpb_fat_sz32 vbr ≤ capacity
        → capacity < 2 ^ 32
        → let (r, m') = fat32_mount hw m in
          (r ≡ ok tt)
          × (m'.vol ≡ volume p vbr)
          × (m'.disk ≡ m.disk)
          × Fits m'.vol capacity
          × (m'.vol.data_lba ≡ m'.vol.fat_lba + m'.vol.num_fats * m'.vol.fat_sz32)
  fat32_mount-Fits j m size lt here before some card sectors fat16 fat32 copies fits words =
      let mbr : List ℕ = sector m.disk 0 in
      let p : ℕ = part_lba_start mbr j in
      let vbr : List ℕ = sector m.disk p in
      let ring1 : List ℕ = overlay mbr m.uart.ring in
      let size1 : length ring1 ≡ 1024 = length-overlay mbr m.uart.ring ∙ size in
      let whole = length-sector m.disk 0 in
      let whole' = length-sector m.disk p in
      let m1 : Machine hw = with_disk hw ring1 m.disk m in
      let m2 : Machine hw = with_disk hw (overlay vbr ring1) m.disk m in
      let part : find_partition 4 0 ring1 ≡ p =
        find_partition_first 4 0 j ring1 (omega arith) lt
          (ap is_fat32_type (part_type-overlay mbr m.uart.ring whole size j lt) ∙ here)
          (λ k below.
            ap is_fat32_type (part_type-overlay mbr m.uart.ring whole size k (omega arith))
            ∙ before k below)
        ∙ part_lba_start-overlay mbr m.uart.ring whole size j lt in
      let mounted =
        mount_steps p m m1 m2 (record m2 { vol = volume p (overlay vbr ring1) })
          (ap (took_sector m) (read_ok 0 m.disk (omega arith))) part some
          (ap (took_sector m1) (read_ok p m.disk card))
          (mount_vbr_lem p m2 (bytes_per_sec-overlay vbr ring1 whole' size1 ∙ sectors)
            (fat_sz16-overlay vbr ring1 whole' size1 ∙ fat16)
            (λ e. fat32 (sym (fat_sz32-overlay vbr ring1 whole' size1) ∙ e))) in
      let place =
        placed p (rsvd_sec vbr) (bpb_num_fats vbr * bpb_fat_sz32 vbr) capacity fits words in
      rw
        (mounted
          ∙ ap (λ (v : Fat32Vol). (ok tt, record m2 { vol = v }))
              (volume-overlay vbr ring1 whole' size1 p))
        (
          refl,
          refl,
          refl,
          record { some_fat = copies; fats_fit = place.0; words = omega arith },
          place.1,
        )
