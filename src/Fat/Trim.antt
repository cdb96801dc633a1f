-- ===== src/Fat/Trim.antt =====
-- fat32_trim.c.
pub mod Free
pub mod Whole
use barelog.Prelude.{
  ℕ, zero, suc, ◌+◌, ◌-◌, Bool, true, false, u32, sub32, ltb, ◌==◌, if◌then◌else◌,
}
use barelog.Prelude.Run.{Run, pure, ◌>>=◌, ◌>>◌}
use barelog.Machine.{Hardware, Machine, read_sector, erase}
use barelog.Fat.{clus_to_lba, entry_at}

-- `run_start_lba`, `run_end_lba`, `in_run` and `clus`.
pub record TrimRun : Type 0 where
  pub run_start_lba : ℕ
  pub run_end_lba : ℕ
  pub in_run : Bool
  pub clus : ℕ

module _ (hw : Hardware) where
  -- `sd_erase` of the open run.
  abbrev pub erase_run : TrimRun → Run (Machine hw) (Unit {0})
  erase_run t = erase t.run_start_lba t.run_end_lba

  -- `if (in_run) { sd_erase(...); in_run = 0; }`
  abbrev pub close_run : TrimRun → Run (Machine hw) TrimRun
  close_run t = if t.in_run then (do erase_run t; pure (record t { in_run = false })) else pure t

  -- The branch for a free cluster with the sectors `lba_s` to `lba_e`.
  unfoldable pub extend_run : ℕ → ℕ → TrimRun → Run (Machine hw) TrimRun
  extend_run lba_s lba_e t =
      let fresh : TrimRun = record t {
        run_start_lba = lba_s;
        run_end_lba = lba_e;
        in_run = true;
      } in
      if t.in_run
      then if lba_s == u32 (t.run_end_lba + 1)
        then pure (record t { run_end_lba = lba_e })
        else (do erase_run t; pure fresh)
      else pure fresh

  -- The body of the inner loop, without its `clus++`.
  unfoldable pub trim_entry : ℕ → TrimRun → Run (Machine hw) TrimRun
  trim_entry off t m =
      if ltb t.clus 2
      then close_run t m
      else if entry_at m.uart.ring off == 0
      then (let lba_s = clus_to_lba m.vol t.clus in
          extend_run lba_s (sub32 (u32 (lba_s + m.vol.sec_per_clus)) 1) t m)
      else close_run t m

  abbrev pub next_clus : TrimRun → TrimRun
  next_clus t = record t { clus = u32 (t.clus + 1) }

  -- `for (off = 0; off < 512; off += 4, clus++)` with `left` entries to go.
  unfoldable pub trim_entries : ℕ → ℕ → TrimRun → Run (Machine hw) TrimRun
  trim_entries zero off t m = pure t m
  trim_entries (suc left) off t m =
      (do t' ← trim_entry off t; trim_entries left (off + 4) (next_clus t')) m

  -- `for (fat_sec = vol.fat_lba; fat_sec < fat_end; fat_sec++)` with `left` sectors to go.
  unfoldable pub trim_sectors : ℕ → ℕ → TrimRun → Run (Machine hw) TrimRun
  trim_sectors zero fat_sec t m = pure t m
  trim_sectors (suc left) fat_sec t m =
      (do read_sector fat_sec; t' ← trim_entries 128 0 t; trim_sectors left (fat_sec + 1) t') m

  abbrev pub no_run : TrimRun
  no_run = record { run_start_lba = 0; run_end_lba = 0; in_run = false; clus = 0 }

  unfoldable pub fat32_trim_free : Run (Machine hw) (Unit {0})
  fat32_trim_free m =
      let fat_end = u32 (m.vol.fat_lba + m.vol.fat_sz32) in
      (do
        t ← trim_sectors (fat_end - m.vol.fat_lba) m.vol.fat_lba no_run
        (if t.in_run then erase_run t else pure tt))
        m

  -- `vol.part_lba + vol.tot_sec - 1`
  abbrev pub trim_end : Machine hw → ℕ
  trim_end m = sub32 (u32 (m.vol.part_lba + m.vol.tot_sec)) 1

  unfoldable pub fat32_trim_full : Run (Machine hw) (Unit {0})
  fat32_trim_full m = erase m.vol.data_lba (trim_end m) m

  unfoldable pub fat32_trim_fuller : Run (Machine hw) (Unit {0})
  fat32_trim_fuller m = erase 0 (trim_end m) m
