-- ===== src/Fat/Log/FileSectors.antt =====
-- The sectors that `create` writes outside the FAT: the file's and the directory's.
use barelog.Prelude.{
  ℕ, ◌+◌, ◌-◌, ◌*◌, ◌^◌, ◌≤◌, ◌<◌, ◌≡◌, ◌⊎◌, sym, ap, ◌∙◌, List, arith, length, take, u32, sub32,
  ◌==◌, if◌then◌else◌, overlay, length-overlay,
}
use barelog.Prelude.Bytes.{take-overlay}
use barelog.Prelude.Run.{ok}
use barelog.Device.{IsReliable}
use barelog.Machine.{
  Hardware, Machine, Fat32Logfile, set_ring, took_sector, put_sector, read_sector, write_sector,
}
use barelog.Fat.{fat_offset, entry_at}
use barelog.Fat.Entry.{copy_sector}
use barelog.Fat.Entry.Write.{with_disk}
use barelog.Fat.Log.Ready.{Ready, clusters, fat_of}
use barelog.Fat.Log.Chain.{Agree}
use barelog.Fat.Log.DirEntry.{take-new_dir_entry, length-new_dir_entry}
use barelog.Fat.Log.ZeroFill.{zeros, zero_fill-Zeroed}
use barelog.Fat.Log.Open.{zero_fill, new_dir_entry}

module _ (hw : Hardware) where
  -- The memory when the file has been entered in `logfile` and its sectors erased.
  abbrev pub erased_for : Fat32Logfile → Machine hw → Machine hw
  erased_for file m = record m {
    logfile = file;
    disk = hw.dev.sd_erase file.cur_lba (sub32 file.end_lba 1) m.disk;
  }

module _ (hw : Hardware) (rel : IsReliable hw.dev) where
  open rel use {
    capacity, sector, store, length-sector, read_ok, write_ok, sector-store, sector-erase,
  }

  -- What the read, the change and the write of the directory sector leave.
  pub record Entered (dir off first prealloc_sz : ℕ) (name : List ℕ) (m : Machine hw) : Type 0 where
    pub got : List ℕ
    pub disk : hw.dev.Disk
    pub reads : read_sector dir m ≡ (ok tt, set_ring got m)
    pub writes :
        let ring = new_dir_entry name first prealloc_sz off got in
        write_sector dir (set_ring ring m) ≡ (ok tt, with_disk hw ring disk m)
    pub size : length got ≡ 1024
    pub sectors :
        (k : ℕ)
        → sector disk k ≡ (
            if dir == k
            then new_dir_entry name first prealloc_sz off (sector m.disk dir)
            else sector m.disk k)

  pub enter :
      (dir off first prealloc_sz : ℕ) (name : List ℕ) (m : Machine hw)
      → dir < capacity
      → length m.uart.ring ≡ 1024
      → Entered dir off first prealloc_sz name m
  enter dir off first prealloc_sz name m lt size =
      let old : List ℕ = sector m.disk dir in
      let got : List ℕ = overlay old m.uart.ring in
      let ring : List ℕ = new_dir_entry name first prealloc_sz off got in
      let prefix : take 512 got ≡ old =
        ap (λ n. take n got) (sym (length-sector m.disk dir))
        ∙ take-overlay old m.uart.ring (omega (arith, length-sector m.disk dir, size)) in
      let bytes : take 512 ring ≡ new_dir_entry name first prealloc_sz off old =
        take-new_dir_entry 512 name first prealloc_sz off got
        ∙ ap (new_dir_entry name first prealloc_sz off) prefix in
      let whole : length (take 512 ring) ≡ 512 =
        ap (length {A = ℕ}) bytes
        ∙ length-new_dir_entry name first prealloc_sz off old
        ∙ length-sector m.disk dir in
      record {
        got = got;
        disk = store dir (take 512 ring) m.disk;
        reads = ap (took_sector m) (read_ok dir m.disk lt);
        writes = ap (put_sector (set_ring ring m)) (write_ok dir (take 512 ring) m.disk lt whole);
        size = length-overlay old m.uart.ring ∙ size;
        sectors = λ k.
            sector-store dir k (take 512 ring) m.disk whole
            ∙ ap (λ b. if dir == k then b else sector m.disk k) bytes;
      }

  -- What the erase and the zero fill of a file's sectors leave.
  pub record Filled (start n : ℕ) (file : Fat32Logfile) (m : Machine hw) : Type 0 where
    pub disk : hw.dev.Disk
    pub returns :
        zero_fill hw (file.end_lba - file.cur_lba) file.cur_lba (erased_for hw file m)
        ≡ (ok tt, with_disk hw m.uart.ring disk (erased_for hw file m))
    pub inside : (k : ℕ) → start ≤ k → k < start + n → sector disk k ≡ zeros
    pub outside : (k : ℕ) → (k < start) ⊎ (start + n ≤ k) → sector disk k ≡ sector m.disk k

  pub fill :
      (start n : ℕ) (file : Fat32Logfile) (m : Machine hw)
      → file.cur_lba ≡ start
      → file.end_lba ≡ u32 (file.cur_lba + n)
      → 0 < n
      → start + n ≤ capacity
      → start + n < 2 ^ 32
      → Filled start n file m
  fill start n file m begins ends some card wide =
      let count : file.end_lba - file.cur_lba ≡ n = omega (arith, begins, ends) in
      let last : sub32 file.end_lba 1 ≡ start + n - 1 = omega (arith, begins, ends) in
      let z =
        zero_fill-Zeroed hw rel (file.end_lba - file.cur_lba) file.cur_lba (erased_for hw file m)
          (omega (arith, count, begins)) in
      record {
        disk = z.disk;
        returns = z.returns;
        inside =
            λ k lo hi. z.inside k (omega (arith, begins, lo)) (omega (arith, begins, count, hi));
        outside = λ k out.
            z.outside k (omega (arith, count, begins, out))
            ∙ sector-erase file.cur_lba (sub32 file.end_lba 1) k m.disk
                (omega (arith, last, begins, out));
      }

  row_below : (w n : ℕ) → 1 ≤ n → w ≤ n * w
  row_below w n h = grind arith

  -- The first FAT copy's sectors lie among the FAT sectors.
  fat_below :
      (m : Machine hw) (x : ℕ)
      → Ready hw rel m
      → x < clusters hw rel m
      → (m.vol.fat_lba ≤ copy_sector m.vol x 0)
        × (copy_sector m.vol x 0 < m.vol.fat_lba + m.vol.num_fats * m.vol.fat_sz32)
  fat_below m x r lt =
      let all = row_below m.vol.fat_sz32 m.vol.num_fats r.fits.some_fat in
      (omega arith, omega arith)

  -- Disks with the same FAT sectors hold the same FAT.
  pub fat_of-Agree :
      (m : Machine hw) (d d' : hw.dev.Disk)
      → Ready hw rel m
      → ((s : ℕ)
          → m.vol.fat_lba ≤ s
          → s < m.vol.fat_lba + m.vol.num_fats * m.vol.fat_sz32
          → sector d s ≡ sector d' s)
      → Agree 0 (clusters hw rel m) (fat_of hw rel m.vol d) (fat_of hw rel m.vol d')
  fat_of-Agree m d d' r same = λ x lo lt.
      let low = fat_below m x r lt in
      ap (λ b. entry_at b (fat_offset x)) (same (copy_sector m.vol x 0) low.0 low.1)
