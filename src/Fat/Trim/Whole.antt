-- ===== src/Fat/Trim/Whole.antt =====
-- `fat32_trim_free` from the first FAT sector to the last.
use barelog.Prelude.{
  ◌≤◌, ◌⊎◌, ◌^◌, ℕ, zero, suc, ◌+◌, ◌-◌, ◌*◌, ◌<◌, ◌≡◌, refl, ap, ◌∙◌, Bool-cases, inl, inr, List,
  arith, length, overlay, length-overlay, u32,
}
use barelog.Prelude.Run.{Result, ok}
use barelog.Device.{IsReliable}
use barelog.Machine.{Hardware, Machine, Fat32Vol}
use barelog.Fat.{entry_at}
use barelog.Fat.Entry.Bytes.{entry_at-overlay}
use barelog.Fat.Entry.Write.{with_disk}
use barelog.Fat.Trim.{TrimRun, trim_sectors, no_run, fat32_trim_free, fat32_trim_full, trim_end}
use barelog.Fat.Trim.Free.{IsFree, RunFree, Spared, TrimFits, erase-Spared, trim_entries-Step}

module _ (hw : Hardware) (rel : IsReliable hw.dev) (vol : Fat32Vol) (d0 : hw.dev.Disk) where
  open rel use {capacity, sector, length-sector, read_ok}

  -- A sector of the FAT belongs to no cluster.
  fat_not_free :
      (lba : ℕ)
      → TrimFits vol capacity
      → lba < vol.fat_lba + vol.fat_sz32
      → IsFree hw rel vol d0 lba
      → ⊥
  fat_not_free lba fits lt free = omega (arith, free.from, fits.before_data)

  record Scanned (m : Machine hw) (r : Result TrimRun × Machine hw) : Type 0 where
    ring : List ℕ
    disk : hw.dev.Disk
    run : TrimRun
    returns : r ≡ (ok run, with_disk hw ring disk m)
    run_free : RunFree hw rel vol d0 run
    spared : Spared hw rel vol d0 disk

  trim_sectors-Scanned :
      (left k lba : ℕ) (t : TrimRun) (m : Machine hw)
      → TrimFits vol capacity
      → m.vol ≡ vol
      → k + left ≡ vol.fat_sz32
      → lba ≡ vol.fat_lba + k
      → t.clus ≡ k * 128
      → length m.uart.ring ≡ 1024
      → RunFree hw rel vol d0 t
      → Spared hw rel vol d0 m.disk
      → Scanned m (trim_sectors hw left lba t m)
  unfolding trim_sectors
  trim_sectors-Scanned zero k lba t m fits same end here at size free spared = record {
    ring = m.uart.ring;
    disk = m.disk;
    run = t;
    returns = refl;
    run_free = free;
    spared = spared;
  }
  trim_sectors-Scanned (suc left) k lba t m fits same end here at size free spared =
      let bytes : List ℕ = sector m.disk lba in
      let lt : k < vol.fat_sz32 = omega arith in
      let fresh : bytes ≡ sector d0 lba = spared lba (fat_not_free lba fits (omega arith)) in
      let m' : Machine hw = with_disk hw (overlay bytes m.uart.ring) m.disk m in
      let one =
        trim_entries-Step hw rel vol d0 128 0 k t m' fits same lt (omega arith) refl
          (λ o h.
            entry_at-overlay bytes m.uart.ring o (omega (arith, length-sector m.disk lba))
              (omega (arith, length-sector m.disk lba))
            ∙ ap (λ b. entry_at b o) fresh
            ∙ ap (λ l. entry_at (sector d0 l) o) here)
          free spared in
      let rest =
        trim_sectors-Scanned left (k + 1) (lba + 1) one.run (record m' { disk = one.disk }) fits
          same (omega arith) (omega arith) one.clus_is (length-overlay bytes m.uart.ring ∙ size)
          one.run_free one.spared in
      record {
        ring = rest.ring;
        disk = rest.disk;
        run = rest.run;
        returns = rw (read_ok lba m.disk (omega (arith, fits.on_card)), one.returns) rest.returns;
        run_free = rest.run_free;
        spared = rest.spared;
      }

module _ (hw : Hardware) (rel : IsReliable hw.dev) where
  open rel use {capacity, sector}

  -- On a card in working order whose FAT lies before its data region and whose cluster addresses do
  -- not wrap, `fat32_trim_free` returns 0 and changes nothing of the memory but the ring and the
  -- disk, and of the disk only sectors of clusters with a FAT entry of 0: every other sector, those
  -- of the FAT and of every allocated cluster among them, is as before.
  pub fat32_trim_free_spares :
      (m : Machine hw)
      → TrimFits m.vol capacity
      → length m.uart.ring ≡ 1024
      → (ring : List ℕ) × (d : hw.dev.Disk) × (fat32_trim_free hw m
          ≡ (ok tt, with_disk hw ring d m))
        × ((s : ℕ) → (IsFree hw rel m.vol m.disk s → ⊥) → sector d s ≡ sector m.disk s)
  unfolding fat32_trim_free
  fat32_trim_free_spares m fits size =
      let scan =
        trim_sectors-Scanned hw rel m.vol m.disk m.vol.fat_sz32 0 m.vol.fat_lba (no_run hw) m fits
          refl (omega arith) (omega arith) refl size (λ e. absurd (cc)) (λ s h. refl) in
      let sectors : u32 (m.vol.fat_lba + m.vol.fat_sz32) - m.vol.fat_lba ≡ m.vol.fat_sz32 =
        omega (arith, fits.before_data, fits.addresses) in
      elim (Bool-cases scan.run.in_run) [
        | inl open_run ↦ (
          scan.ring,
          hw.dev.sd_erase scan.run.run_start_lba scan.run.run_end_lba scan.disk,
          rw (sectors, scan.returns, open_run),
          erase-Spared hw rel m.vol m.disk scan.run.run_start_lba scan.run.run_end_lba scan.disk
              (scan.run_free open_run).all_free scan.spared,
        )
        | inr closed ↦ (scan.ring, scan.disk, rw (sectors, scan.returns, closed), scan.spared)
      ]

  -- On a card in working order and for a partition that is not empty and whose end does not wrap,
  -- `fat32_trim_full` returns 0 and changes nothing of the
  -- memory but the disk, where every sector before the data region and every sector behind the end
  -- of the partition is as before.
  pub fat32_trim_full_spares :
      (m : Machine hw)
      → 1 ≤ m.vol.part_lba + m.vol.tot_sec
      → m.vol.part_lba + m.vol.tot_sec < 2 ^ 32
      → (d : hw.dev.Disk) × (fat32_trim_full hw m ≡ (ok tt, record m { disk = d }))
        × ((s : ℕ)
            → (s < m.vol.data_lba) ⊎ (m.vol.part_lba + m.vol.tot_sec ≤ s)
            → sector d s ≡ sector m.disk s)
  unfolding fat32_trim_full
  fat32_trim_full_spares m some fits = (
    hw.dev.sd_erase m.vol.data_lba (trim_end hw m) m.disk,
    refl,
    λ s h. rel.sector-erase m.vol.data_lba (trim_end hw m) s m.disk (omega arith),
  )
