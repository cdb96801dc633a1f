-- ===== src/Fat/Log/Append.antt =====
-- fat32_log.c, third part: `fat32_append_sector`, `fat32_flush`, `fat32_bytes_written`.
use barelog.Prelude.{
  ℕ, zero, suc, ◌+◌, ◌-◌, true, false, Option, none, some, List, [], u32, sub32, take, drop, leb,
  ◌==◌, if◌then◌else◌,
}
use barelog.Prelude.Bytes.{put_le32}
use barelog.Prelude.Run.{Run, pure, out_of_fuel, ◌>>=◌, ◌>>◌}
use barelog.Machine.{
  Hardware, Machine, set_ring, gets, modify, put_sector, read_sector, write_sector, erase,
}
use barelog.Fat.{clus_to_lba, chain_end_mark, fat_read_entry, fat_write_entry}
use barelog.Fat.Log.Open.{zero_fill}

-- A pointer into the ring and a length. The bytes are read when the sector is sent.
pub record Span : Type 0 where
  pub at : ℕ
  pub len : ℕ

abbrev pub span_bytes : List ℕ → Span → List ℕ
span_bytes ring s = take s.len (drop s.at ring)

-- `none` is the null pointer, which comes with the length 0.
abbrev pub opt_len : Option Span → ℕ
opt_len none = 0
opt_len (some s) = s.len

abbrev pub opt_bytes : List ℕ → Option Span → List ℕ
opt_bytes ring none = []
opt_bytes ring (some s) = span_bytes ring s

module _ (hw : Hardware) where
  -- `for (c = 2; ; c++)`; the fuel bounds the clusters looked at.
  unfoldable pub find_free : ℕ → ℕ → Run (Machine hw) ℕ
  find_free zero c m = (out_of_fuel, m)
  find_free (suc fuel) c m =
      (do
        val ← fat_read_entry hw c
        elim (val == 0) [ true ↦ pure c | false ↦ find_free fuel (u32 (c + 1)) ])
        m

  -- The branch for an exhausted allocation.
  unfoldable pub extend : ℕ → Run (Machine hw) (Unit {0})
  extend fuel = do
    c ← find_free fuel 2
    last ← gets (λ m. m.logfile.last_clus)
    fat_write_entry hw last c
    fat_write_entry hw c chain_end_mark
    lba ← gets (λ m. clus_to_lba m.vol c)
    end ← gets (λ m. u32 (lba + m.vol.sec_per_clus))
    erase lba (sub32 end 1)
    zero_fill hw (end - lba) lba
    modify (λ m. record m { logfile = record m.logfile { end_lba = end; last_clus = c } })

  -- `sd_write_sector_zc(logfile.cur_lba, span_a, len_a, span_b, len_b)`
  abbrev pub write_spans : Span → Option Span → Run (Machine hw) (Unit {0})
  write_spans a b m = put_sector m (
      hw.dev.sd_write_sector_zc m.logfile.cur_lba (span_bytes m.uart.ring a)
        (opt_bytes m.uart.ring b) m.disk)

  abbrev pub advance : ℕ → Machine hw → Machine hw
  advance n m = record m {
    logfile = record m.logfile {
      cur_lba = u32 (m.logfile.cur_lba + 1);
      bytes_written = u32 (m.logfile.bytes_written + n);
    };
  }

  unfoldable pub fat32_append_sector : ℕ → Span → Option Span → Run (Machine hw) (Unit {0})
  fat32_append_sector fuel a b m =
      (do
        (if leb m.logfile.end_lba m.logfile.cur_lba then extend fuel else pure tt)
        write_spans a b
        modify (advance (a.len + opt_len b)))
        m

  unfoldable pub fat32_flush : Run (Machine hw) (Unit {0})
  fat32_flush m =
      (do
        read_sector m.logfile.dir_lba
        modify (λ m.
            set_ring (put_le32 m.uart.ring (m.logfile.dir_offset + 28) m.logfile.bytes_written) m)
        write_sector m.logfile.dir_lba)
        m

  abbrev pub fat32_bytes_written : Machine hw → ℕ
  fat32_bytes_written m = m.logfile.bytes_written
